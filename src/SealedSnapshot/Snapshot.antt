-- ===== src/SealedSnapshot/Snapshot.antt =====
-- The snapshot of the registers: SealSnapshot and TryOpenSnapshot of src/RegisterPersistence.cpp, and
-- LoadIntoStore of src/RegisterPersistenceRuntime.cpp.
use clipp.Prelude.{
  ℕ, ◌≤◌, ◌≡◌, refl, sym, ap, ◌∙◌, Bool, not, Option, none, some, List, [], ◌∷◌, is_empty,
  if◌then◌else◌, ◌>>=◌, keep_if, length, All, arith, Bool-cases, inl, inr, subst, ◌<◌, ◌^◌,
  length-append,
}
use clipp.Bytes.{Bytes, put_u16, put_u32}
use clipp.Clock.Wire.{length-pack}
use clipp.Register.{RegisterRecord}
use clipp.RegisterWire.{put_hlc, encode_record, try_decode_record, FitsFrame}
use clipp.RegisterWire.RecordFrame.{try_decode-encode_record}
use clipp.SealedSnapshot.{Cipher, IsCipher, max_records, seal_key_bytes, nonce_size, seal, try_open}
use clipp.SealedSnapshot.RoundTrip.{non_empty, try_open-seal}

-- "CLPR"
abbrev pub snapshot_magic : Bytes
snapshot_magic = b'C' ∷ b'L' ∷ b'P' ∷ b'R' ∷ []

abbrev pub snapshot_version : ℕ
snapshot_version = 1

unfoldable pub encode_records : List RegisterRecord → List Bytes
encode_records [] = []
encode_records (r ∷ rs) = encode_record r 0 ∷ encode_records rs

unfoldable pub keep_decoded :
    Option (RegisterRecord × ℕ) → List RegisterRecord → List RegisterRecord
keep_decoded none rest = rest
keep_decoded (some (r, transport)) rest = if is_empty r.name then rest else r ∷ rest

-- DecodeRecords: a body that does not decode, or has the empty name, is skipped.
unfoldable pub decode_records : List Bytes → List RegisterRecord
unfolding keep_decoded
decode_records [] = []
decode_records (body ∷ raw) = keep_decoded (try_decode_record body) (decode_records raw)

unfoldable pub seal_snapshot : Cipher → Bytes → List RegisterRecord → Bytes → Bytes
seal_snapshot c nonce records key =
    seal c snapshot_magic snapshot_version nonce (encode_records records) key

unfoldable pub try_open_snapshot : Cipher → Bytes → Bytes → Option (List RegisterRecord)
try_open_snapshot c blob key = do
  raw ← try_open c snapshot_magic snapshot_version blob key
  some (decode_records raw)

abbrev pub named : RegisterRecord → Bool
named r = not (is_empty r.name)

decode-encode_records :
    (rs : List RegisterRecord)
    → All FitsFrame rs
    → decode_records (encode_records rs) ≡ keep_if named rs
unfolding decode_records encode_records keep_if
decode-encode_records [] v = refl
decode-encode_records (r ∷ rs) (v, vs) =
    ap (λ d. keep_decoded d (decode_records (encode_records rs))) (try_decode-encode_record r 0 v)
    ∙ rw (decode-encode_records rs vs)
        (elim (Bool-cases (is_empty r.name)) [ inl e ↦ rw e refl | inr e ↦ rw e refl ])

encoded_kept :
    (rs : List RegisterRecord) → keep_if non_empty (encode_records rs) ≡ encode_records rs
unfolding keep_if encode_records encode_record
encoded_kept [] = refl
encoded_kept (r ∷ rs) = rw (encoded_kept rs) refl

length-encode_records : (rs : List RegisterRecord) → length (encode_records rs) ≡ length rs
unfolding encode_records
length-encode_records [] = refl
length-encode_records (r ∷ rs) = omega (arith, length-encode_records rs)

length-encode_record : (r : RegisterRecord) → FitsFrame r → length (encode_record r 0) < 2 ^ 32
unfolding encode_record put_hlc put_u16 put_u32
length-encode_record r v =
    simp (length-append, length-pack) (omega (arith, v.name_fits, v.value_fits, v.origin_size))

encoded_sizes :
    (rs : List RegisterRecord) → All FitsFrame rs → All (λ b. length b < 2 ^ 32) (encode_records rs)
unfolding encode_records
encoded_sizes [] v = tt
encoded_sizes (r ∷ rs) (v, vs) = (length-encode_record r v, encoded_sizes rs vs)

-- A snapshot of at most 65535 records that fit a frame, opened with the key with which it was sealed,
-- gives back the records, in their order, without those of the empty name.
pub try_open-seal_snapshot :
    (c : Cipher) (nonce key : Bytes) (records : List RegisterRecord)
    → IsCipher c
    → length nonce ≡ nonce_size
    → length key ≡ seal_key_bytes
    → length records ≤ max_records
    → All FitsFrame records
    → try_open_snapshot c (seal_snapshot c nonce records key) key ≡ some (keep_if named records)
unfolding try_open_snapshot seal_snapshot
try_open-seal_snapshot c nonce key records v n k count fits =
    let same = encoded_kept records in
    let opened =
      try_open-seal c snapshot_magic snapshot_version nonce key (encode_records records) v refl n k
        (subst (λ l. length l ≤ max_records) (sym same)
          (subst (λ m. m ≤ max_records) (sym (length-encode_records records)) count))
        (subst (All (λ b. length b < 2 ^ 32)) (sym same) (encoded_sizes records fits)) in
    rw (opened, same) (ap some (decode-encode_records records fits))
