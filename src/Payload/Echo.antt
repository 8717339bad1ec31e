-- ===== src/Payload/Echo.antt =====
-- The guard of src/ClipboardHashGuard.cpp, on what SetUncompressedBytes of src/ClipboardPayload.h stores.
use clipp.Prelude.{
  ◌≡◌, refl, sym, ◌∙◌, true, false, ◌++◌, list_order, ℕ_order, list_beq_iff, arith, Bool-cases,
  Option-cases, inl, inr,
}
use clipp.Bytes.{Bytes}
use clipp.Payload.{ClipboardPayload, clipp_format_utf8}
use clipp.Payload.Lines.{canonicalize_crlf_to_lf}
use clipp.Payload.Plain.{
  Codec, canonical, worth_compressing, hashed, stored, zeros, set_uncompressed_bytes,
}
use clipp.Payload.Guard.{HashGuard, matches, accept_current, holding}

module _ (c : Codec) (p : ClipboardPayload) (text : Bytes) where
  abbrev hash_of : Bytes
  hash_of = c.digest (canonical p.meta.format_id text) p.meta.format_id ++ zeros 48

  -- However the bytes are stored, the payload has their hash.
  set_uncompressed_bytes-hash :
      ((set_uncompressed_bytes c p text).0.meta.hash_alg ≡ 1)
      × ((set_uncompressed_bytes c p text).0.meta.hash_bytes ≡ hash_of)
  unfolding set_uncompressed_bytes hashed stored
  set_uncompressed_bytes-hash =
      elim (Bool-cases (worth_compressing p.meta.format_id (canonical p.meta.format_id text))) [
        | inr plain ↦ rw plain (refl, refl)
        | inl long ↦ rw long (elim (Option-cases (c.compress (canonical p.meta.format_id text))) [
          | inl failed ↦ rw failed (refl, refl)
          | inr (frame, done) ↦ rw done (refl, refl)
        ])
      ]

accept_current-accept_current :
    (g : HashGuard) (x y : ClipboardPayload)
    → x.meta.hash_alg ≡ 1
    → y.meta.hash_alg ≡ 1
    → x.meta.hash_bytes ≡ y.meta.hash_bytes
    → (accept_current (accept_current g x).0 y).1 ≡ false
unfolding accept_current
accept_current-accept_current g x y a b h =
    let same : matches (holding x) y ≡ true =
      (list_beq_iff x.meta.hash_bytes y.meta.hash_bytes).1 h in
    elim (Bool-cases (matches g x)) [
      | inl known ↦
          let also : matches g y ≡ true =
            (list_beq_iff g.current_hash y.meta.hash_bytes).1
              ((list_beq_iff g.current_hash x.meta.hash_bytes).0 known ∙ h) in
          ground (arith, a, b, same, also)
      | inr other ↦ ground (arith, a, b, same, other)
    ]

-- A text that comes back with other line endings is an echo: when two texts have the same canonical
-- form, and the guard has been asked to accept a payload of the one, it refuses a payload of the other.
pub accept_current-canonicalize :
    (c : Codec) (g : HashGuard) (p q : ClipboardPayload) (text back : Bytes)
    → p.meta.format_id ≡ clipp_format_utf8
    → q.meta.format_id ≡ clipp_format_utf8
    → canonicalize_crlf_to_lf text ≡ canonicalize_crlf_to_lf back
    → let x = (set_uncompressed_bytes c p text).0 in
      let y = (set_uncompressed_bytes c q back).0 in
      (accept_current (accept_current g x).0 y).1 ≡ false
accept_current-canonicalize c g p q text back e f h =
    let (ax, hx) = set_uncompressed_bytes-hash c p text in
    let (ay, hy) = set_uncompressed_bytes-hash c q back in
    accept_current-accept_current g _ _ ax ay (hx ∙ same ∙ sym hy)
  where
    same : hash_of c p text ≡ hash_of c q back
    same = rw (e, f, h) refl
