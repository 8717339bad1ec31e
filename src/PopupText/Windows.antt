-- ===== src/PopupText/Windows.antt =====
-- What the rows and previews of src/PopupTextMatch.h show.
use clipp.Prelude.{
  ℕ, zero, suc, ◌+◌, ◌-◌, ◌≤◌, ◌≡◌, refl, ap, subst, ◌∙◌, Bool, true, false, not, List, [], ◌∷◌,
  ◌++◌, ltb, leb, length, is_empty, drop, take, if◌then◌else◌, arith, Bool-cases, inl, inr,
}
use clipp.PopupText.{
  WString, contains_insensitive, starts_insensitive, find_matches, row_match_lead_chars, ellipsis,
  shift_row, re_window_row_text, preview_window_chars, window_begin, clip_markers,
  window_around_first_match,
}
use clipp.PopupText.Contains.{occurs, starts-occurs, occurs-append, contains_insensitive-occurs}
use clipp.PopupText.Hits.{HitsAt, find_matches-contains_insensitive}

drop-drop : (n m k : ℕ) (xs : WString) → k ≡ m + n → drop n (drop m xs) ≡ drop k xs
drop-drop n zero k xs e = ap (λ i. drop i xs) {x = n} {y = k} (omega (arith, e))
drop-drop n (suc m) zero xs e = absurd (omega (arith, e))
drop-drop zero (suc m) (suc k) [] e = refl
drop-drop (suc n) (suc m) (suc k) [] e = refl
drop-drop n (suc m) (suc k) (x ∷ xs) e = drop-drop n m k xs (omega (arith, e))

first_hit :
    (text filter : WString) (m : ℕ) (ms : List ℕ)
    → is_empty filter ≡ false
    → find_matches text filter ≡ m ∷ ms
    → starts_insensitive (drop m text) filter ≡ true
first_hit text filter m ms z e =
    (subst (HitsAt text filter 0) e (find_matches-contains_insensitive text filter z).0).1.0

-- A row shows its first match: where the filter is found in its text, it stands within the first 13
-- characters of the text that the row is given, or at its old place if that is nearer.
pub find_matches-re_window_row_text :
    (text filter : WString) (m : ℕ) (ms : List ℕ)
    → is_empty filter ≡ false
    → find_matches text filter ≡ m ∷ ms
    → starts_insensitive (drop (if leb m 12 then m else 13) (re_window_row_text text filter)) filter
      ≡ true
unfolding re_window_row_text shift_row
find_matches-re_window_row_text text filter m ms z e = elim (Bool-cases (leb m 12)) [
  | inl near ↦ rw near (rw z (rw e (rw (not_beyond m near) (first_hit text filter m ms z e))))
  | inr far ↦ rw far (
      rw z (
        rw e (
          rw (beyond m far) (
            ap (λ l. starts_insensitive l filter)
              (drop-drop 12 (m - 12) m text (ground (arith, far)))
            ∙ first_hit text filter m ms z e))))
]
  where
    not_beyond : (k : ℕ) → leb k 12 ≡ true → ltb row_match_lead_chars k ≡ false
    not_beyond k h = ground (arith, h)

    beyond : (k : ℕ) → leb k 12 ≡ false → ltb row_match_lead_chars k ≡ true
    beyond k h = ground (arith, h)

starts-take :
    (k : ℕ) (text needle : WString)
    → length needle ≤ k
    → starts_insensitive text needle ≡ true
    → starts_insensitive (take k text) needle ≡ true
unfolding starts_insensitive
starts-take k text [] h s = refl
starts-take k [] (n ∷ ns) h s = ground arith
starts-take zero (t ∷ ts) (n ∷ ns) h s = absurd (omega arith)
starts-take (suc k) (t ∷ ts) (n ∷ ns) h s = ground (arith, starts-take k ts ns)

-- The window of a text from `j` characters before a hit shows the hit.
occurs-take :
    (j k : ℕ) (text needle : WString)
    → j + length needle ≤ k
    → starts_insensitive (drop j text) needle ≡ true
    → occurs (take k text) needle ≡ true
unfolding occurs
occurs-take zero k text needle h s =
    starts-occurs (take k text) needle (starts-take k text needle (omega arith) s)
occurs-take (suc j) zero text needle h s = absurd (omega arith)
occurs-take (suc j) (suc k) [] needle h s = s
occurs-take (suc j) (suc k) (t ∷ ts) needle h s =
    ground (arith, occurs-take j k ts needle (omega arith) s)

starts-append_right :
    (text more needle : WString)
    → starts_insensitive text needle ≡ true
    → starts_insensitive (text ++ more) needle ≡ true
unfolding starts_insensitive
starts-append_right text more [] s = refl
starts-append_right [] more (n ∷ ns) s = ground arith
starts-append_right (t ∷ ts) more (n ∷ ns) s = ground (arith, starts-append_right ts more ns)

occurs-append_right :
    (text more needle : WString) → occurs text needle ≡ true → occurs (text ++ more) needle ≡ true
unfolding occurs
occurs-append_right [] more needle s =
    starts-occurs more needle (starts-append_right [] more needle s)
occurs-append_right (t ∷ ts) more needle s =
    ground (arith, starts-append_right (t ∷ ts) more needle, occurs-append_right ts more needle)

-- The preview of a text that the filter passes shows a match: for a filter of at most 2,100
-- characters that is not empty, the filter passes the preview too.
pub contains_insensitive-window_around_first_match :
    (full filter : WString)
    → is_empty filter ≡ false
    → length filter ≤ 2100
    → contains_insensitive full filter ≡ true
    → contains_insensitive (window_around_first_match full filter) filter ≡ true
unfolding window_around_first_match clip_markers
contains_insensitive-window_around_first_match full filter z h c =
    contains_insensitive-occurs (window_around_first_match full filter) filter
    ∙ rw z (go (find_matches full filter) refl)
  where
    clash : {b : Bool} → b ≡ true → b ≡ not (contains_insensitive full filter) → ⊥
    clash p q = ground (arith, p, q, c)

    go :
        (ms : List ℕ)
        → find_matches full filter ≡ ms
        → occurs
            (clip_markers full
              (window_begin ms)
              (take preview_window_chars (drop (window_begin ms) full)))
            filter
          ≡ true
    go [] e = absurd (clash (ap is_empty e) ((find_matches-contains_insensitive full filter z).1.1))
    go (m ∷ ms) e =
        let b = window_begin (m ∷ ms) in
        let shown = take preview_window_chars (drop b full) in
        let near : (b ≤ m) × (m ≤ b + 400) = (ground arith, ground arith) in
        let hit = first_hit full filter m ms z e in
        let found =
          occurs-take (m - b) preview_window_chars (drop b full) filter (omega (arith, near, h)) (
            ap (λ l. starts_insensitive l filter) (drop-drop (m - b) b m full (omega (arith, near)))
            ∙ hit) in
        occurs-append (if ltb 0 b then ellipsis ∷ 32 ∷ [] else []) _ filter
          (occurs-append_right shown _ filter found)
