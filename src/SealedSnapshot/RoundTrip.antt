-- ===== src/SealedSnapshot/RoundTrip.antt =====
-- Seal and then TryOpen of src/SealedSnapshot.cpp.
use clipp.Prelude.{
  ℕ, ◌%◌, ◌^◌, ◌≤◌, ◌<◌, ◌≡◌, refl, ap, ◌∙◌, Bool, false, not, some, List, [], ◌∷◌, ◌++◌, ltb,
  le→leb, list_order, ℕ_order, is_empty, keep_if, ◌>>=◌, length, take, drop, map, All, arith,
  append_assoc, length-append, take-append_length, drop-append_length, subst,
}
use clipp.Bytes.{Bytes, put_u32}
use clipp.Bytes.RoundTrip.{read_u32_put, read_string-append}
use clipp.OrderedMap.Laws.{beq_refl}
use clipp.RegisterWire.{encode_entries}
use clipp.RegisterWire.Fields.{read_entries-put}
use clipp.SealedSnapshot.{
  Cipher, IsCipher, max_records, seal_key_bytes, tag_size, nonce_size, put_sized, read_sized_record,
  plain_of, seal, read_plain, try_open,
}

abbrev pub non_empty : Bytes → Bool
non_empty r = not (is_empty r)

read_sized_record_put :
    (r rest : Bytes) → length r < 2 ^ 32 → read_sized_record (put_sized r ++ rest) ≡ some (r, rest)
unfolding read_sized_record put_sized
read_sized_record_put r rest h =
    let same : length r % 2 ^ 32 ≡ length r = omega arith in
    rw (append_assoc, same, read_u32_put (length r) (r ++ rest) h) (read_string-append r rest)

map_same {ℓ} : {A : Type ℓ} (xs : List A) → map (λ x. x) xs ≡ xs
map_same [] = refl
map_same (x ∷ xs) = ap (λ l. x ∷ l) (map_same xs)

All-readable :
    (rs : List Bytes)
    → All (λ r. length r < 2 ^ 32) rs
    → All (λ r. (more : Bytes) → read_sized_record (put_sized r ++ more) ≡ some (r, more)) rs
All-readable [] h = tt
All-readable (r ∷ rs) (h, hs) = ((λ more. read_sized_record_put r more h), All-readable rs hs)

read_plain-put :
    (kept : List Bytes)
    → length kept ≤ max_records
    → All (λ r. length r < 2 ^ 32) kept
    → read_plain (put_u32 (length kept % 2 ^ 32) ++ encode_entries put_sized kept) ≡ some kept
unfolding read_plain
read_plain-put kept n h =
    let same : length kept % 2 ^ 32 ≡ length kept = omega arith in
    rw
      (
        same,
        read_u32_put (length kept) (encode_entries put_sized kept) (omega arith),
        le→leb (length kept) max_records n,
        read_entries-put read_sized_record put_sized (λ r. r) kept (All-readable kept h),
      )
      (ap some (map_same kept))

take_sized :
    (n : ℕ) (xs ys : Bytes) → length xs ≡ n → (take n (xs ++ ys) ≡ xs) × (drop n (xs ++ ys) ≡ ys)
take_sized n xs ys e = (
  subst (λ k. take k (xs ++ ys) ≡ xs) e (take-append_length xs ys),
  subst (λ k. drop k (xs ++ ys) ≡ ys) e (drop-append_length xs ys),
)

-- The envelope comes apart.
unwrapped :
    (c : Cipher) (magic : Bytes) (version : ℕ) (nonce key text : Bytes)
    → length magic ≡ 4
    → length nonce ≡ nonce_size
    → tag_size ≤ length text
    → try_open c magic version ((magic ++ version ∷ []) ++ (nonce ++ text)) key
      ≡ (do plain ← c.decrypt nonce key (magic ++ version ∷ []) text; read_plain plain)
unfolding try_open
unwrapped c [] version nonce key text m n h = ground arith
unwrapped c (a₁ ∷ []) version nonce key text m n h = ground arith
unwrapped c (a₁ ∷ a₂ ∷ []) version nonce key text m n h = ground arith
unwrapped c (a₁ ∷ a₂ ∷ a₃ ∷ []) version nonce key text m n h = ground arith
unwrapped c (a₁ ∷ a₂ ∷ a₃ ∷ a₄ ∷ []) version nonce key text m n h =
    let (front, back) = take_sized nonce_size nonce text n in
    let long_enough : ltb (length (a₁ ∷ a₂ ∷ a₃ ∷ a₄ ∷ version ∷ (nonce ++ text))) 45 ≡ false =
      ground (arith, length-append nonce text) in
    rw (long_enough, beq_refl (a₁ ∷ a₂ ∷ a₃ ∷ a₄ ∷ []), beq_refl version, front, back) refl
unwrapped c (a₁ ∷ a₂ ∷ a₃ ∷ a₄ ∷ a₅ ∷ more) version nonce key text m n h = ground arith

-- A snapshot that is opened with the magic, version and key with which it was sealed gives back the
-- records that are not empty, if these are at most 65535 and each is shorter than 2 ^ 32 bytes.
pub try_open-seal :
    (c : Cipher) (magic : Bytes) (version : ℕ) (nonce key : Bytes) (records : List Bytes)
    → IsCipher c
    → length magic ≡ 4
    → length nonce ≡ nonce_size
    → length key ≡ seal_key_bytes
    → length (keep_if non_empty records) ≤ max_records
    → All (λ r. length r < 2 ^ 32) (keep_if non_empty records)
    → try_open c magic version (seal c magic version nonce records key) key
      ≡ some (keep_if non_empty records)
unfolding seal plain_of
try_open-seal c magic version nonce key records v m n k count sizes =
    let kept = keep_if non_empty records in
    let plain = put_u32 (length kept % 2 ^ 32) ++ encode_entries put_sized kept in
    let header = magic ++ version ∷ [] in
    unwrapped c magic version nonce key (c.encrypt nonce key header plain) m n
      (omega (arith, v.grows nonce key header plain n k))
    ∙ rw (v.opens nonce key header plain n k) (read_plain-put kept count sizes)
