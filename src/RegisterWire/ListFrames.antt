-- ===== src/RegisterWire/ListFrames.antt =====
-- RSYN, RLST and RGET frames: digests, lists and names.
use clipp.Prelude.{
  ◌^◌, ◌%◌, ◌≤◌, ◌<◌, ◌≡◌, refl, ap, ◌∙◌, Option, some, List, [], ◌∷◌, ◌++◌, length, take, map, All,
  All-take, arith, append_assoc, append-nil, length-take, le→leb,
}
use clipp.Bytes.{Bytes, put_u16, u64_mod}
use clipp.Bytes.RoundTrip.{read_u8_put, read_u16_put, read_u64_put}
use clipp.Clock.{IsHlc}
use clipp.Register.{RegisterDigestEntry}
use clipp.RegisterWire.{
  version, max_name_len, max_digest_entries, max_preview_len, max_origin_name_len, host_id_size,
  cap, encode_entries, read_short, try_decode_entries, encode_digest_entry, encode_digest,
  read_digest_entry, try_decode_digest, encode_name, try_decode_name, RegisterListEntry,
  encode_list_entry, encode_list, read_list_entry, try_decode_list,
}
use clipp.RegisterWire.Fields.{
  read_hlc_put, read_host_id_put, read_short_put, read_short-put_capped, read_entries-put, take-cap,
  cap-length,
}

-- A digest entry whose fields fit the frame.
pub record FitsDigest (e : RegisterDigestEntry) : Type 0 where
  pub name_fits : length e.name ≤ max_name_len
  pub written_fits : IsHlc e.written
  pub touched_fits : IsHlc e.touched

read_digest_entry_put :
    (e : RegisterDigestEntry)
    → FitsDigest e
    → (rest : Bytes) → read_digest_entry (encode_digest_entry e ++ rest) ≡ some (e, rest)
unfolding read_digest_entry encode_digest_entry
read_digest_entry_put e v rest = rw (
  append_assoc (put_u16 (length e.name % 2 ^ 16)) _ rest,
  append_assoc e.name _ rest,
  append_assoc _ _ rest,
  read_short_put max_name_len e.name _ v.name_fits (omega arith),
  read_hlc_put e.written _ v.written_fits,
  read_hlc_put e.touched rest v.touched_fits,
)

-- A list entry whose fields fit the frame; the preview and the origin's name may be longer.
pub record FitsList (e : RegisterListEntry) : Type 0 where
  pub name_fits : length e.name ≤ max_name_len
  pub touched_fits : IsHlc e.touched
  pub size_fits : e.value_size < u64_mod
  pub origin_size : length e.origin_host_id ≡ host_id_size

-- What a list entry becomes on the wire: the two texts are cut to their bounds.
abbrev pub cut_entry : RegisterListEntry → RegisterListEntry
cut_entry e = record e {
  preview = take max_preview_len e.preview;
  origin_host_name = take max_origin_name_len e.origin_host_name;
}

read_list_entry_put :
    (e : RegisterListEntry)
    → FitsList e
    → (rest : Bytes) → read_list_entry (encode_list_entry e ++ rest) ≡ some (cut_entry e, rest)
unfolding read_list_entry encode_list_entry
read_list_entry_put e v rest = simp append_assoc (
    rw (
      read_short_put max_name_len e.name _ v.name_fits (omega arith),
      read_hlc_put e.touched _ v.touched_fits,
      read_u64_put e.value_size _ v.size_fits,
      read_host_id_put e.origin_host_id _ v.origin_size,
      read_u8_put e.flags _,
      read_short-put_capped max_preview_len e.preview _ (omega arith),
      read_short-put_capped max_origin_name_len e.origin_host_name rest (omega arith),
    ))

All-each {ℓ κ} :
    {A : Type ℓ} (P Q : A → Type κ) (xs : List A) → ((a : A) → P a → Q a) → All P xs → All Q xs
All-each P Q [] f h = tt
All-each P Q (x ∷ xs) f (p, h) = (f x p, All-each P Q xs f h)

module _ {A : Type 0} (read : Bytes → Option (A × Bytes)) (put : A → Bytes) (cut : A → A) where
  exact_entries :
      (es : List A)
      → length es ≤ max_digest_entries
      → All (λ e. (more : Bytes) → read (put e ++ more) ≡ some (cut e, more)) es
      → try_decode_entries read (version ∷ (put_u16 (length es) ++ encode_entries put es))
        ≡ some (map cut es)
  unfolding try_decode_entries
  exact_entries es n h = rw (
    read_u8_put version _,
    read_u16_put (length es) _ (omega arith),
    le→leb (length es) max_digest_entries n,
    read_entries-put read put cut es h,
  )

  -- A frame of entries gives back the first 1024 entries, as the reader sees each.
  try_decode_entries-put :
      (entries : List A)
      → All (λ e. (more : Bytes) → read (put e ++ more) ≡ some (cut e, more)) entries
      → try_decode_entries read (
          version
          ∷ (put_u16 (cap max_digest_entries (length entries))
              ++ encode_entries put (take (cap max_digest_entries (length entries)) entries)))
        ≡ some (map cut (take max_digest_entries entries))
  try_decode_entries-put entries h =
      (λ i. try_decode_entries read (
        version
        ∷ (put_u16 (cap-length max_digest_entries entries i)
            ++ encode_entries put (take-cap max_digest_entries entries i))))
      ∙ exact_entries (take max_digest_entries entries)
          (omega (arith, length-take max_digest_entries entries))
          (All-take _ max_digest_entries entries h)

map_id {ℓ} : {A : Type ℓ} (xs : List A) → map (λ x. x) xs ≡ xs
map_id [] = refl
map_id (x ∷ xs) = ap (λ l. x ∷ l) (map_id xs)

-- Decoding an encoded digest, whose entries all fit, gives back its first 1024 entries.
pub try_decode-encode_digest :
    (entries : List RegisterDigestEntry)
    → All FitsDigest entries
    → try_decode_digest (encode_digest entries) ≡ some (take max_digest_entries entries)
unfolding try_decode_digest encode_digest
try_decode-encode_digest entries h =
    try_decode_entries-put read_digest_entry encode_digest_entry (λ e. e) entries
      (All-each FitsDigest _ entries read_digest_entry_put h)
    ∙ ap some (map_id (take max_digest_entries entries))

-- Decoding an encoded list, whose entries all fit, gives back its first 1024 entries, with each
-- preview cut to 256 bytes and each name of an origin to 128.
pub try_decode-encode_list :
    (entries : List RegisterListEntry)
    → All FitsList entries
    → try_decode_list (encode_list entries) ≡ some (map cut_entry (take max_digest_entries entries))
unfolding try_decode_list encode_list
try_decode-encode_list entries h =
    try_decode_entries-put read_list_entry encode_list_entry cut_entry entries
      (All-each FitsList _ entries read_list_entry_put h)

-- A name of at most 64 bytes is read back.
pub try_decode-encode_name :
    (name : Bytes) → length name ≤ max_name_len → try_decode_name (encode_name name) ≡ some name
unfolding try_decode_name encode_name
try_decode-encode_name name h = rw (read_u8_put version _) (rw (alone) refl)
  where
    alone : read_short max_name_len (put_u16 (length name % 2 ^ 16) ++ name) ≡ some (name, [])
    alone = rw append-nil at (read_short_put max_name_len name [] h (omega arith))
