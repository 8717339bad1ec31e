-- ===== src/SealedSnapshot.antt =====
-- Sealed snapshots: the envelope of src/SealedSnapshot.cpp around the records of a store, and its use
-- for the registers in src/RegisterPersistence.cpp. The authenticated cipher of libsodium is a
-- parameter. AppendU32 and ReadU32 are the readers and writers of Bytes. The nonce, which the code
-- draws at random, is an argument.
pub mod RoundTrip
pub mod Snapshot
use clipp.Prelude.{
  ℕ, ◌+◌, ◌-◌, ◌%◌, ◌^◌, ◌≡◌, Bool, not, ◌&&◌, ◌||◌, Option, none, some, List, [], ◌∷◌, ◌++◌, ltb,
  leb, ◌==◌, beq, list_order, ℕ_order, is_empty, keep_if, length, take, drop, if◌then◌else◌, ◌>>=◌,
  ◌>>◌, guard,
}
use clipp.Bytes.{Bytes, Reader, put_u32, read_u32, read_string, at}
use clipp.RegisterWire.{encode_entries, read_entries}

abbrev pub magic_size : ℕ
magic_size = 4

abbrev pub header_size : ℕ
header_size = 5

abbrev pub nonce_size : ℕ
nonce_size = 24

abbrev pub tag_size : ℕ
tag_size = 16

abbrev pub seal_key_bytes : ℕ
seal_key_bytes = 32

abbrev pub max_records : ℕ
max_records = 65535

-- crypto_aead_xchacha20poly1305_ietf: the arguments are the nonce, the key, the associated data and
-- the text.
pub record Cipher : Type 0 where
  pub encrypt : Bytes → Bytes → Bytes → Bytes → Bytes
  pub decrypt : Bytes → Bytes → Bytes → Bytes → Option Bytes

-- What libsodium documents, for a nonce and a key of the right sizes: a ciphertext is the text and a
-- tag of sixteen bytes, and decrypting with the same nonce, key and associated data gives the text
-- back.
pub record IsCipher (c : Cipher) : Type 0 where
  pub opens :
      (nonce key ad plain : Bytes)
      → length nonce ≡ nonce_size
      → length key ≡ seal_key_bytes
      → c.decrypt nonce key ad (c.encrypt nonce key ad plain) ≡ some plain
  pub grows :
      (nonce key ad plain : Bytes)
      → length nonce ≡ nonce_size
      → length key ≡ seal_key_bytes
      → length (c.encrypt nonce key ad plain) ≡ length plain + tag_size

unfoldable pub put_sized : Bytes → Bytes
put_sized r = put_u32 (length r % 2 ^ 32) ++ r

unfoldable pub read_sized_record : Reader Bytes
read_sized_record bs = do (len, rest) ← read_u32 bs; read_string len rest

-- The text that Seal encrypts: empty records are skipped.
unfoldable pub plain_of : List Bytes → Bytes
plain_of records =
    let kept = keep_if (λ r. not (is_empty r)) records in
    put_u32 (length kept % 2 ^ 32) ++ encode_entries put_sized kept

-- Seal
unfoldable pub seal : Cipher → Bytes → ℕ → Bytes → List Bytes → Bytes → Bytes
seal c magic version nonce records key =
    let header = magic ++ version ∷ [] in
    header ++ (nonce ++ c.encrypt nonce key header (plain_of records))

-- The end of TryOpen: the records of the text.
unfoldable pub read_plain : Bytes → Option (List Bytes)
read_plain plain = do
  (count, rest) ← read_u32 plain
  guard (leb count max_records)
  (records, left) ← read_entries read_sized_record count rest
  guard (is_empty left)
  some records

-- TryOpen
unfoldable pub try_open : Cipher → Bytes → ℕ → Bytes → Bytes → Option (List Bytes)
try_open c magic version blob key =
    if ltb (length blob) (header_size + nonce_size + tag_size)
    then none
    else if not (beq (take magic_size blob) magic) || not (at blob 4 == version)
    then none
    else do
      plain ←
          c.decrypt (take nonce_size (drop header_size blob)) key (take header_size blob)
            (drop (header_size + nonce_size) blob)
      read_plain plain
