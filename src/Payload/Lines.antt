-- ===== src/Payload/Lines.antt =====
-- CanonicalizeCrlfToLf and ExpandLfToCrlf of src/ClipboardPayload.h. Where the loops skip the line
-- feed behind a carriage return, a flag says that the last byte was a carriage return.
use clipp.Prelude.{
  ℕ, ◌≡◌, refl, sym, ap, ◌∙◌, Bool, true, false, ◌&&◌, ◌||◌, [], ◌∷◌, ◌==◌, any_of, if◌then◌else◌,
  arith, Bool-cases, inl, inr,
}
use clipp.Bytes.{Bytes}

abbrev pub is_cr : ℕ → Bool
is_cr c = c == 13

unfoldable pub fold_to_lf : Bool → Bytes → Bytes
fold_to_lf after_cr [] = []
fold_to_lf after_cr (c ∷ cs) =
    let plain = fold_to_lf false cs in
    let behind = fold_to_lf true cs in
    if after_cr && c == 10 then plain else if is_cr c then 10 ∷ behind else c ∷ plain

unfoldable pub canonicalize_crlf_to_lf : Bytes → Bytes
canonicalize_crlf_to_lf bytes = if any_of is_cr bytes then fold_to_lf false bytes else bytes

abbrev pub is_line_end : ℕ → Bool
is_line_end c = c == 13 || c == 10

unfoldable pub unfold_to_crlf : Bool → Bytes → Bytes
unfold_to_crlf after_cr [] = []
unfold_to_crlf after_cr (c ∷ cs) =
    let plain = unfold_to_crlf false cs in
    let behind = unfold_to_crlf true cs in
    if after_cr && c == 10
    then plain
    else if is_line_end c
    then 13 ∷ 10 ∷ (if is_cr c then behind else plain)
    else c ∷ plain

unfoldable pub expand_lf_to_crlf : Bytes → Bytes
expand_lf_to_crlf bytes = if any_of is_line_end bytes then unfold_to_crlf false bytes else bytes

-- Without an ending to change, the loops copy.
fold_to_lf-same : (bs : Bytes) → any_of is_cr bs ≡ false → fold_to_lf false bs ≡ bs
unfolding fold_to_lf any_of
fold_to_lf-same [] h = refl
fold_to_lf-same (c ∷ cs) h = ground (arith, fold_to_lf-same cs)

unfold_to_crlf-same : (bs : Bytes) → any_of is_line_end bs ≡ false → unfold_to_crlf false bs ≡ bs
unfolding unfold_to_crlf any_of
unfold_to_crlf-same [] h = refl
unfold_to_crlf-same (c ∷ cs) h = ground (arith, unfold_to_crlf-same cs)

pub canonicalize_crlf_to_lf_lem : (bs : Bytes) → canonicalize_crlf_to_lf bs ≡ fold_to_lf false bs
unfolding canonicalize_crlf_to_lf
canonicalize_crlf_to_lf_lem bs = elim (Bool-cases (any_of is_cr bs)) [
  | inl there ↦ rw there refl
  | inr absent ↦ rw absent (sym (fold_to_lf-same bs absent))
]

pub expand_lf_to_crlf_lem : (bs : Bytes) → expand_lf_to_crlf bs ≡ unfold_to_crlf false bs
unfolding expand_lf_to_crlf
expand_lf_to_crlf_lem bs = elim (Bool-cases (any_of is_line_end bs)) [
  | inl there ↦ rw there refl
  | inr absent ↦ rw absent (sym (unfold_to_crlf-same bs absent))
]

fold_to_lf-unfold_to_crlf :
    (after_cr : Bool) (bs : Bytes)
    → fold_to_lf false (unfold_to_crlf after_cr bs) ≡ fold_to_lf after_cr bs
unfolding fold_to_lf unfold_to_crlf
fold_to_lf-unfold_to_crlf after_cr [] = refl
fold_to_lf-unfold_to_crlf after_cr (c ∷ cs) =
    ground (arith, fold_to_lf-unfold_to_crlf false cs, fold_to_lf-unfold_to_crlf true cs)

unfold_to_crlf-fold_to_lf :
    (after_cr : Bool) (bs : Bytes)
    → unfold_to_crlf false (fold_to_lf after_cr bs) ≡ unfold_to_crlf after_cr bs
unfolding fold_to_lf unfold_to_crlf
unfold_to_crlf-fold_to_lf after_cr [] = refl
unfold_to_crlf-fold_to_lf after_cr (c ∷ cs) =
    ground (arith, unfold_to_crlf-fold_to_lf false cs, unfold_to_crlf-fold_to_lf true cs)

fold_to_lf-any_of : (after_cr : Bool) (bs : Bytes) → any_of is_cr (fold_to_lf after_cr bs) ≡ false
unfolding fold_to_lf any_of
fold_to_lf-any_of after_cr [] = refl
fold_to_lf-any_of after_cr (c ∷ cs) =
    ground (arith, fold_to_lf-any_of false cs, fold_to_lf-any_of true cs)

-- The two line endings of one text: the canonical form has no carriage return, and it does not depend
-- on whether the text was expanded before; nor does the expanded form on whether it was canonical.
pub canonicalize-expand :
    (bs : Bytes)
    → (canonicalize_crlf_to_lf (expand_lf_to_crlf bs) ≡ canonicalize_crlf_to_lf bs)
      × ((expand_lf_to_crlf (canonicalize_crlf_to_lf bs) ≡ expand_lf_to_crlf bs)
          × (any_of is_cr (canonicalize_crlf_to_lf bs) ≡ false))
canonicalize-expand bs = (
  canonicalize_crlf_to_lf_lem (expand_lf_to_crlf bs)
      ∙ ap (fold_to_lf false) (expand_lf_to_crlf_lem bs)
      ∙ fold_to_lf-unfold_to_crlf false bs
      ∙ sym (canonicalize_crlf_to_lf_lem bs),
  (
    expand_lf_to_crlf_lem (canonicalize_crlf_to_lf bs)
        ∙ ap (unfold_to_crlf false) (canonicalize_crlf_to_lf_lem bs)
        ∙ unfold_to_crlf-fold_to_lf false bs
        ∙ sym (expand_lf_to_crlf_lem bs),
    ap (any_of is_cr) (canonicalize_crlf_to_lf_lem bs) ∙ fold_to_lf-any_of false bs,
  ),
)
