-- ===== src/PopupText/Contains.antt =====
-- ContainsInsensitive of src/PopupModel.cpp against a description.
use clipp.Prelude.{
  ℕ, ◌+◌, ◌⊎◌, ◌≤◌, ◌≡◌, refl, sym, ap, ◌∙◌, ◌↔◌, Bool, true, false, ◌||◌, [], ◌∷◌, ◌++◌, ◌==◌,
  &&-eq-true, length, is_empty, arith, Bool-cases, inl, inr,
}
use clipp.PopupText.{WString, fold_ascii, starts_insensitive, contains_from, contains_insensitive}

-- The same character, or one an ASCII capital letter and the other the small letter of it.
abbrev pub Alike : ℕ → ℕ → Type 0
Alike a b = (a ≡ b) ⊎ (((65 ≤ a) × (a ≤ 90) × (b ≡ a + 32)) ⊎ ((65 ≤ b) × (b ≤ 90) × (a ≡ b + 32)))

-- Texts of one length, alike in each place.
abbrev pub AllAlike : WString → WString → Type 0
AllAlike [] [] = Unit
AllAlike [] (b ∷ bs) = ⊥
AllAlike (a ∷ rest) [] = ⊥
AllAlike (a ∷ rest) (b ∷ bs) = Alike a b × AllAlike rest bs

-- A part of the text is the needle, but for the case of ASCII letters.
pub record Occurs (text needle : WString) : Type 0 where
  pub before : WString
  pub part : WString
  pub after : WString
  pub split : text ≡ before ++ (part ++ after)
  pub same : AllAlike part needle

-- The same, as a test: some end of the text starts with the needle.
unfoldable pub occurs : WString → WString → Bool
occurs [] needle = starts_insensitive [] needle
occurs (t ∷ text) needle = starts_insensitive (t ∷ text) needle || occurs text needle

pub starts-length :
    (text needle : WString) → starts_insensitive text needle ≡ true → length needle ≤ length text
unfolding starts_insensitive
starts-length text [] h = omega arith
starts-length [] (n ∷ ns) h = ground arith
starts-length (t ∷ ts) (n ∷ ns) h = ground (arith, starts-length ts ns)

pub occurs-length :
    (text needle : WString) → occurs text needle ≡ true → length needle ≤ length text
unfolding occurs
occurs-length [] needle h = starts-length [] needle h
occurs-length (t ∷ ts) needle h =
    ground (arith, starts-length (t ∷ ts) needle, occurs-length ts needle)

occurs-nil : (text : WString) → occurs text [] ≡ true
unfolding occurs starts_insensitive
occurs-nil [] = refl
occurs-nil (t ∷ ts) = refl

contains_from-occurs :
    (text needle : WString)
    → is_empty needle ≡ false
    → contains_from text needle ≡ occurs text needle
unfolding contains_from occurs starts_insensitive
contains_from-occurs [] [] e = ground arith
contains_from-occurs [] (n ∷ ns) e = refl
contains_from-occurs (t ∷ ts) needle e =
    ground (
      arith,
      starts-length (t ∷ ts) needle,
      occurs-length ts needle,
      contains_from-occurs ts needle,
    )

pub contains_insensitive-occurs :
    (text needle : WString) → contains_insensitive text needle ≡ occurs text needle
unfolding contains_insensitive
contains_insensitive-occurs text needle = elim (Bool-cases (is_empty needle)) [
  | inl empty ↦ rw empty (sym (empty_occurs needle empty))
  | inr full ↦
      rw full (ground (arith, contains_from-occurs text needle full, occurs-length text needle))
]
  where
    empty_occurs : (n : WString) → is_empty n ≡ true → occurs text n ≡ true
    empty_occurs [] e = occurs-nil text
    empty_occurs (c ∷ cs) e = absurd (ground arith)

folded-Alike : (a b : ℕ) → (fold_ascii a == fold_ascii b) ≡ true → Alike a b
folded-Alike a b h = ground (arith, h)

Alike-folded : (a b : ℕ) → Alike a b → (fold_ascii a == fold_ascii b) ≡ true
Alike-folded a b h = ground (arith, h)

-- A text that starts with the needle.
Begins : WString → WString → Type 0
Begins text needle =
    (part : WString) × ((after : WString) × ((text ≡ part ++ after) × AllAlike part needle))

starts-Begins : (text needle : WString) → starts_insensitive text needle ≡ true → Begins text needle
unfolding starts_insensitive Begins
starts-Begins text [] h = ([], (text, (refl, tt)))
starts-Begins [] (n ∷ ns) h = absurd (ground arith)
starts-Begins (t ∷ ts) (n ∷ ns) h =
    let (same, rest) = &&-eq-true (fold_ascii t == fold_ascii n) (starts_insensitive ts ns) h in
    let (part, (after, (e, f))) = starts-Begins ts ns rest in
    (t ∷ part, (after, (ap (λ l. t ∷ l) e, (folded-Alike t n same, f))))

starts-append :
    (part after needle : WString)
    → AllAlike part needle
    → starts_insensitive (part ++ after) needle ≡ true
unfolding starts_insensitive
starts-append part after [] h = refl
starts-append [] after (n ∷ ns) h = absurd h
starts-append (p ∷ ps) after (n ∷ ns) (a, h) = rw (Alike-folded p n a) (starts-append ps after ns h)

occurs-Occurs : (text needle : WString) → occurs text needle ≡ true → Occurs text needle
unfolding occurs Begins
occurs-Occurs [] needle h =
    let (part, (after, (e, f))) = starts-Begins [] needle h in
    record { before = []; part = part; after = after; split = e; same = f }
occurs-Occurs (t ∷ ts) needle h = elim (Bool-cases (starts_insensitive (t ∷ ts) needle)) [
  | inl here ↦
      let (part, (after, (e, f))) = starts-Begins (t ∷ ts) needle here in
      record { before = []; part = part; after = after; split = e; same = f }
  | inr there ↦
      let o = occurs-Occurs ts needle (rw there at h) in
      record {
        before = t ∷ o.before;
        part = o.part;
        after = o.after;
        split = ap (λ l. t ∷ l) o.split;
        same = o.same;
      }
]

pub starts-occurs :
    (text needle : WString) → starts_insensitive text needle ≡ true → occurs text needle ≡ true
unfolding occurs
starts-occurs [] needle h = h
starts-occurs (t ∷ ts) needle h = rw h refl

pub occurs-append :
    (before text needle : WString)
    → occurs text needle ≡ true
    → occurs (before ++ text) needle ≡ true
unfolding occurs
occurs-append [] text needle h = h
occurs-append (b ∷ bs) text needle h = ground (arith, occurs-append bs text needle h)

-- The filter of the popup passes a text exactly if some part of the text is the filter, where ASCII
-- letters are the same in both cases, and all other characters only the same as themselves.
pub contains_insensitive-Occurs :
    (text needle : WString) → (contains_insensitive text needle ≡ true) ↔ Occurs text needle
contains_insensitive-Occurs text needle = (
  λ h. occurs-Occurs text needle (sym (contains_insensitive-occurs text needle) ∙ h),
  λ o.
      contains_insensitive-occurs text needle
      ∙ ap (λ l. occurs l needle) o.split
      ∙ occurs-append o.before (o.part ++ o.after) needle
          (starts-occurs (o.part ++ o.after) needle (starts-append o.part o.after needle o.same)),
)
