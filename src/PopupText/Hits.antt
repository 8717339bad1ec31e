-- ===== src/PopupText/Hits.antt =====
-- FindMatches of src/PopupTextMatch.h.
use clipp.Prelude.{
  ℕ, zero, suc, ◌+◌, ◌-◌, ◌≤◌, ◌≡◌, refl, sym, ap, subst, ◌∙◌, Bool, true, false, not, List, [],
  ◌∷◌, ltb, leb, length, is_empty, drop, if◌then◌else◌, arith, Bool-cases, inl, inr,
}
use clipp.PopupText.{
  WString, starts_insensitive, contains_insensitive, max_highlight_ranges, matches_from,
  find_matches,
}
use clipp.PopupText.Contains.{occurs, starts-length, occurs-length, contains_insensitive-occurs}

-- Each position is a hit, and lies behind the whole of the hit before it.
abbrev pub HitsAt : WString → WString → ℕ → List ℕ → Type 0
HitsAt text needle from [] = Unit
HitsAt text needle from (m ∷ ms) =
    (from ≤ m)
    × ((starts_insensitive (drop m text) needle ≡ true) × HitsAt text needle (m + length needle) ms)

drop-next :
    (n : ℕ) (xs : WString) (t : ℕ) (ts : WString) → drop n xs ≡ t ∷ ts → drop (n + 1) xs ≡ ts
drop-next n xs t ts e =
    subst (λ k. drop k xs ≡ ts) {x = suc n} {y = n + 1} (omega arith) (drop-suc n xs e)
  where
    drop-suc : (k : ℕ) (ys : WString) → drop k ys ≡ t ∷ ts → drop (suc k) ys ≡ ts
    drop-suc zero [] f = ground arith
    drop-suc zero (y ∷ ys) f = ap (drop 1) f
    drop-suc (suc k) [] f = ground arith
    drop-suc (suc k) (y ∷ ys) f = drop-suc k ys f

HitsAt-le :
    (text needle : WString) (lo hi : ℕ) (ms : List ℕ)
    → lo ≤ hi
    → HitsAt text needle hi ms
    → HitsAt text needle lo ms
HitsAt-le text needle lo hi [] h a = tt
HitsAt-le text needle lo hi (m ∷ ms) h (p, a) = (omega arith, a)

matches_from-HitsAt :
    (full text needle : WString) (start skip room : ℕ)
    → is_empty needle ≡ false
    → drop start full ≡ text
    → HitsAt full needle (start + skip) (matches_from text needle start skip room)
unfolding matches_from
matches_from-HitsAt full [] needle start skip room z e = tt
matches_from-HitsAt full (t ∷ ts) needle start (suc skip) room z e =
    HitsAt-le full needle (start + suc skip) (start + 1 + skip) _ (omega arith)
      (matches_from-HitsAt full ts needle (start + 1) skip room z (drop-next start full t ts e))
matches_from-HitsAt full (t ∷ ts) needle start zero room z e =
    elim (Bool-cases (leb (length needle) (length (t ∷ ts)))) [
      | inr short ↦ rw short tt
      | inl fits ↦ rw fits (elim (Bool-cases (starts_insensitive (t ∷ ts) needle)) [
        | inr miss ↦ rw miss (
            HitsAt-le full needle (start + 0) (start + 1 + 0) _ (omega arith) (
              matches_from-HitsAt full ts needle (start + 1) 0 room z
                (drop-next start full t ts e)))
        | inl hit ↦ rw hit (
          omega arith,
          (
            ap (λ l. starts_insensitive l needle) e ∙ hit,
            HitsAt-if (start + length needle) (leb room 1) _ (
                HitsAt-le full needle (start + length needle) (start + 1 + (length needle - 1)) _
                  (omega arith)
                  (matches_from-HitsAt full ts needle (start + 1) (length needle - 1) (room - 1) z
                    (drop-next start full t ts e))),
          ),
        )
      ])
    ]
  where
    HitsAt-if :
        (from : ℕ) (b : Bool) (ms : List ℕ)
        → HitsAt full needle from ms
        → HitsAt full needle from (if b then [] else ms)
    HitsAt-if from true ms a = tt
    HitsAt-if from false ms a = a

matches_from-length :
    (text needle : WString) (start skip room : ℕ)
    → 1 ≤ room
    → length (matches_from text needle start skip room) ≤ room
unfolding matches_from
matches_from-length [] needle start skip room h = omega arith
matches_from-length (t ∷ ts) needle start (suc skip) room h =
    matches_from-length ts needle (start + 1) skip room h
matches_from-length (t ∷ ts) needle start zero room h = ground (
  arith,
  matches_from-length ts needle (start + 1) 0 room h,
  matches_from-length ts needle (start + 1) (length needle - 1) (room - 1),
)

matches_from-occurs :
    (text needle : WString) (start room : ℕ)
    → is_empty needle ≡ false
    → is_empty (matches_from text needle start 0 room) ≡ not (occurs text needle)
unfolding matches_from occurs
matches_from-occurs [] [] start room z = ground arith
matches_from-occurs [] (n ∷ ns) start room z = unfold starts_insensitive in refl
matches_from-occurs (t ∷ ts) needle start room z = ground (
  arith,
  starts-length (t ∷ ts) needle,
  occurs-length ts needle,
  matches_from-occurs ts needle (start + 1) room z,
)

-- FindMatches finds what the filter passes, and what it finds are hits: each of its positions starts
-- with the needle, they do not overlap and go up, there are at most 200, and for a needle that is not
-- empty there is one exactly if the filter passes the text.
pub find_matches-contains_insensitive :
    (text needle : WString)
    → is_empty needle ≡ false
    → HitsAt text needle 0 (find_matches text needle)
      × ((length (find_matches text needle) ≤ max_highlight_ranges)
          × (is_empty (find_matches text needle) ≡ not (contains_insensitive text needle)))
unfolding find_matches
find_matches-contains_insensitive text needle z =
    elim (Bool-cases (ltb (length text) (length needle))) [
      | inl short ↦
          rw z (rw short (tt, (omega arith, unfold contains_insensitive in rw z (rw short refl))))
      | inr fits ↦ rw z (
          rw fits (
            HitsAt-le text needle 0 (0 + 0) _ (omega arith)
                (matches_from-HitsAt text text needle 0 0 max_highlight_ranges z refl),
            (
              matches_from-length text needle 0 0 max_highlight_ranges (omega arith),
              matches_from-occurs text needle 0 max_highlight_ranges z
                  ∙ ap not (sym (contains_insensitive-occurs text needle)),
            ),
          ))
    ]
