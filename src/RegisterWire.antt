-- ===== src/RegisterWire.antt =====
-- The frames of the named registers: src/RegisterWire.h and src/RegisterWire.cpp. A HostId is read
-- and written as its sixteen bytes. `r.remaining != 0` is the test on what a read leaves.
pub mod Fields
pub mod BinaryValue
pub mod ListFrames
pub mod RecordStrict
pub mod Strict
pub mod RecordFrame
use clipp.Prelude.{
  ℕ, zero, suc, ◌≡◌, ◌≤◌, ◌*◌, ◌%◌, ◌^◌, Bool, not, Option, none, some, List, [], ◌∷◌, ◌++◌, ltb,
  leb, ◌==◌, is_empty, length, take, if◌then◌else◌, ◌>>=◌, ◌>>◌, guard, min,
}
use clipp.Bytes.{
  Bytes, Reader, put_u16, put_u32, put_u64, read_u8, read_u16, read_u32, read_u64, read_string,
  byte_of, at,
}
use clipp.Clock.{Hlc, IsHlc, pack, unpack}
use clipp.Register.{RegisterRecord, RegisterDigestEntry}

abbrev pub version : ℕ
version = 1

abbrev pub max_name_len : ℕ
max_name_len = 64

abbrev pub max_value_len : ℕ
max_value_len = 64 * 1024 * 1024

abbrev pub max_digest_entries : ℕ
max_digest_entries = 1024

abbrev pub max_preview_len : ℕ
max_preview_len = 256

abbrev pub max_origin_name_len : ℕ
max_origin_name_len = 128

abbrev pub host_id_size : ℕ
host_id_size = 16

unfoldable pub put_hlc : Hlc → Bytes
put_hlc h = pack h

unfoldable pub read_hlc : Reader Hlc
read_hlc bs = do (p, rest) ← read_string 16 bs; some (unpack p, rest)

unfoldable pub read_host_id : Reader Bytes
read_host_id bs = read_string host_id_size bs

-- A length field with its bound, and that many bytes: `!r.U16(n) || n > cap`, `!r.ReadString(...)`.
unfoldable pub read_short : ℕ → Reader Bytes
read_short cap bs = do (n, rest) ← read_u16 bs; guard (leb n cap); read_string n rest

-- EncodeRecord; the sizes are cut to the width of their fields.
unfoldable pub encode_record : RegisterRecord → ℕ → Bytes
encode_record r transport_flags =
    version
    ∷ r.flags
    ∷ transport_flags
    ∷ 0
    ∷ (put_hlc r.written
        ++ (put_hlc r.touched
            ++ (r.origin_host_id
                ++ (put_u16 (length r.name % 2 ^ 16)
                    ++ (r.name ++ (put_u32 (length r.value % 2 ^ 32) ++ r.value))))))

-- The parts of TryDecodeRecord: the four bytes in front; the timestamps and the origin; the value,
-- which ends the frame.
pub record RecordHead : Type 0 where
  pub flags : ℕ
  pub transport : ℕ
  pub reserved : ℕ

unfoldable pub read_head : Reader RecordHead
read_head bs = do
  (v, b₁) ← read_u8 bs
  guard (v == version)
  (flags, b₂) ← read_u8 b₁
  (transport, b₃) ← read_u8 b₂
  (reserved, b₄) ← read_u8 b₃
  some (record { flags = flags; transport = transport; reserved = reserved }, b₄)

pub record Stamps : Type 0 where
  pub written : Hlc
  pub touched : Hlc
  pub origin : Bytes

unfoldable pub read_stamps : Reader Stamps
read_stamps bs = do
  (written, b₁) ← read_hlc bs
  (touched, b₂) ← read_hlc b₁
  (origin, b₃) ← read_host_id b₂
  some (record { written = written; touched = touched; origin = origin }, b₃)

unfoldable pub read_value : Bytes → Option Bytes
read_value bs = do
  (value_len, b₁) ← read_u32 bs
  guard (leb value_len max_value_len)
  (value, left) ← read_string value_len b₁
  guard (is_empty left)
  some value

-- TryDecodeRecord: the record and the transport flags.
unfoldable pub try_decode_record : Bytes → Option (RegisterRecord × ℕ)
try_decode_record body = do
  (h, b₁) ← read_head body
  (s, b₂) ← read_stamps b₁
  (name, b₃) ← read_short max_name_len b₂
  value ← read_value b₃
  some (
    record {
      name = name;
      value = value;
      written = s.written;
      touched = s.touched;
      origin_host_id = s.origin;
      flags = h.flags;
    },
    h.transport,
  )

-- A record whose fields fit the frame: HLCs of 64 bits, a host id of sixteen bytes, and a name and a
-- value within the decoder's bounds.
pub record FitsFrame (r : RegisterRecord) : Type 0 where
  pub written_fits : IsHlc r.written
  pub touched_fits : IsHlc r.touched
  pub origin_size : length r.origin_host_id ≡ host_id_size
  pub name_fits : length r.name ≤ max_name_len
  pub value_fits : length r.value ≤ max_value_len

abbrev pub cap : ℕ → ℕ → ℕ
cap limit n = if ltb limit n then limit else n

unfoldable pub encode_digest_entry : RegisterDigestEntry → Bytes
encode_digest_entry e =
    put_u16 (length e.name % 2 ^ 16) ++ (e.name ++ (put_hlc e.written ++ put_hlc e.touched))

unfoldable pub encode_entries {ℓ} : {A : Type ℓ} → (A → Bytes) → List A → Bytes
encode_entries put [] = []
encode_entries put (e ∷ es) = put e ++ encode_entries put es

-- EncodeDigest: the first `count` entries.
unfoldable pub encode_digest : List RegisterDigestEntry → Bytes
encode_digest entries =
    let count = cap max_digest_entries (length entries) in
    version ∷ (put_u16 count ++ encode_entries encode_digest_entry (take count entries))

unfoldable pub read_digest_entry : Reader RegisterDigestEntry
read_digest_entry bs = do
  (name, b₁) ← read_short max_name_len bs
  (written, b₂) ← read_hlc b₁
  (touched, b₃) ← read_hlc b₂
  some (record { name = name; written = written; touched = touched }, b₃)

-- The loop over the entries, `count` rounds.
unfoldable pub read_entries {ℓ} : {A : Type ℓ} → Reader A → ℕ → Reader (List A)
read_entries read zero bs = some ([], bs)
read_entries read (suc n) bs = do
  (e, b₁) ← read bs
  (es, b₂) ← read_entries read n b₁
  some (e ∷ es, b₂)

-- What TryDecodeDigest and TryDecodeList share: version, count, entries and no trailing bytes.
unfoldable pub try_decode_entries {ℓ} : {A : Type ℓ} → Reader A → Bytes → Option (List A)
try_decode_entries read body = do
  (v, b₁) ← read_u8 body
  guard (v == version)
  (count, b₂) ← read_u16 b₁
  guard (leb count max_digest_entries)
  (entries, left) ← read_entries read count b₂
  guard (is_empty left)
  some entries

unfoldable pub try_decode_digest : Bytes → Option (List RegisterDigestEntry)
try_decode_digest body = try_decode_entries read_digest_entry body

-- EncodeName and TryDecodeName
unfoldable pub encode_name : Bytes → Bytes
encode_name name = version ∷ (put_u16 (length name % 2 ^ 16) ++ name)

unfoldable pub try_decode_name : Bytes → Option Bytes
try_decode_name body = do
  (v, b₁) ← read_u8 body
  guard (v == version)
  (name, left) ← read_short max_name_len b₁
  guard (is_empty left)
  some name

pub record RegisterListEntry : Type 0 where
  pub name : Bytes
  pub touched : Hlc
  pub value_size : ℕ
  pub origin_host_id : Bytes
  pub flags : ℕ
  pub preview : Bytes
  pub origin_host_name : Bytes

-- A field that is cut to its bound.
unfoldable pub put_capped : ℕ → Bytes → Bytes
put_capped limit bs = put_u16 (cap limit (length bs)) ++ take (cap limit (length bs)) bs

unfoldable pub encode_list_entry : RegisterListEntry → Bytes
encode_list_entry e =
    put_u16 (length e.name % 2 ^ 16)
    ++ (e.name
        ++ (put_hlc e.touched
            ++ (put_u64 e.value_size
                ++ (e.origin_host_id
                    ++ (e.flags
                        ∷ (put_capped max_preview_len e.preview
                            ++ put_capped max_origin_name_len e.origin_host_name))))))

-- EncodeList
unfoldable pub encode_list : List RegisterListEntry → Bytes
encode_list entries =
    let count = cap max_digest_entries (length entries) in
    version ∷ (put_u16 count ++ encode_entries encode_list_entry (take count entries))

unfoldable pub read_list_entry : Reader RegisterListEntry
read_list_entry bs = do
  (name, b₁) ← read_short max_name_len bs
  (touched, b₂) ← read_hlc b₁
  (value_size, b₃) ← read_u64 b₂
  (origin, b₄) ← read_host_id b₃
  (flags, b₅) ← read_u8 b₄
  (preview, b₆) ← read_short max_preview_len b₅
  (origin_name, b₇) ← read_short max_origin_name_len b₆
  some (
    record {
      name = name;
      touched = touched;
      value_size = value_size;
      origin_host_id = origin;
      flags = flags;
      preview = preview;
      origin_host_name = origin_name;
    },
    b₇,
  )

unfoldable pub try_decode_list : Bytes → Option (List RegisterListEntry)
try_decode_list body = try_decode_entries read_list_entry body
