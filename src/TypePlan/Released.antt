-- ===== src/TypePlan/Released.antt =====
-- The state of the keyboard under the events of src/TypePlan.cpp.
use clipp.Prelude.{
  ℕ, fun_ext, ◌≡◌, refl, sym, ap, subst, ◌∙◌, Bool, true, false, ◌||◌, List, [], ◌∷◌, ◌++◌, ◌==◌,
  any_of, if◌then◌else◌, Bool-cases, inl, inr, arith,
}
use clipp.TypePlan.{
  KeyChord, TypePlan, TypeKeyEvent, contains, release_unwanted, press_wanted, type_chords,
  build_type_schedule, press_of, release_of,
}

-- The keyboard: whether each key is down, after one event and after a list of them.
unfoldable pub key_state : List TypeKeyEvent → (ℕ → Bool) → ℕ → Bool
key_state [] down k = down k
key_state (e ∷ es) down k = key_state es (λ j. if j == e.key then e.down else down j) k

key_state-append :
    (xs ys : List TypeKeyEvent) (down : ℕ → Bool) (k : ℕ)
    → key_state (xs ++ ys) down k ≡ key_state ys (key_state xs down) k
unfolding key_state
key_state-append [] ys down k = refl
key_state-append (x ∷ xs) ys down k = key_state-append xs ys _ k

-- Every key that is down is held.
abbrev Held : List ℕ → (ℕ → Bool) → Type 0
Held held down = (k : ℕ) → down k ≡ true → contains held k ≡ true

-- A key that is down after the releases was down before them, and is kept if it was held.
release_unwanted_lem :
    (modifiers held : List ℕ) (down : ℕ → Bool) (k : ℕ)
    → key_state (release_unwanted modifiers held).0 down k ≡ true
    → (down k ≡ true)
      × (contains held k ≡ true → contains (release_unwanted modifiers held).1 k ≡ true)
unfolding release_unwanted key_state contains any_of
release_unwanted_lem modifiers [] down k e = (e, λ h. h)
release_unwanted_lem modifiers (oldest ∷ newer) down k e =
    elim (Bool-cases (contains modifiers oldest)) [
      | inl wanted ↦ ground (arith, wanted, e, release_unwanted_lem modifiers newer down k)
      | inr unwanted ↦ ground (
        arith,
        unwanted,
        e,
        key_state-append (release_unwanted modifiers newer).0 (release_of oldest ∷ []) down k,
        release_unwanted_lem modifiers newer down k,
      )
    ]

Held-release_unwanted :
    (modifiers held : List ℕ) (down : ℕ → Bool)
    → Held held down
    → Held (release_unwanted modifiers held).1 (key_state (release_unwanted modifiers held).0 down)
Held-release_unwanted modifiers held down h k e =
    let (before, kept) = release_unwanted_lem modifiers held down k e in kept (h k before)

release_unwanted-none : (held : List ℕ) → (release_unwanted [] held).1 ≡ []
unfolding release_unwanted contains any_of
release_unwanted-none [] = refl
release_unwanted-none (oldest ∷ newer) = release_unwanted-none newer

contains-append :
    (held : List ℕ) (m k : ℕ) → contains (held ++ m ∷ []) k ≡ (contains held k || m == k)
unfolding contains any_of
contains-append [] m k = ground arith
contains-append (x ∷ xs) m k = ground (arith, contains-append xs m k)

Held-press_wanted :
    (modifiers held : List ℕ) (down : ℕ → Bool)
    → Held held down
    → Held (press_wanted modifiers held).1 (key_state (press_wanted modifiers held).0 down)
unfolding press_wanted key_state
Held-press_wanted [] held down h = h
Held-press_wanted (m ∷ ms) held down h = elim (Bool-cases (contains held m)) [
  | inl there ↦ rw there (Held-press_wanted ms held down h)
  | inr away ↦ rw away (
      Held-press_wanted ms (held ++ m ∷ []) _
        (λ k e. ground (arith, e, h k, contains-append held m k)))
]

-- A key that is pressed and released is up.
abbrev struck : ℕ → (ℕ → Bool) → ℕ → Bool
struck key down k = if k == key then false else down k

stroke :
    (key : ℕ) (rest : List TypeKeyEvent) (down : ℕ → Bool) (k : ℕ)
    → key_state (press_of key ∷ release_of key ∷ rest) down k ≡ key_state rest (struck key down) k
unfolding key_state
stroke key rest down k = ap (λ d. key_state rest d k) (fun_ext (λ j. ground arith))

struck_lem : (key : ℕ) (down : ℕ → Bool) (j : ℕ) → struck key down j ≡ true → down j ≡ true
struck_lem key down j e = ground (arith, e)

type_chords-all_up :
    (chords : List KeyChord) (held : List ℕ) (down : ℕ → Bool)
    → Held held down
    → (k : ℕ) → key_state (type_chords chords held) down k ≡ false
unfolding type_chords
type_chords-all_up [] held down h k =
    let still = Held-release_unwanted [] held down h k in
    let gone : contains (release_unwanted [] held).1 k ≡ false =
      subst (λ l. contains l k ≡ false) (sym (release_unwanted-none held))
        (unfold contains any_of in refl) in
    elim (Bool-cases (key_state (release_unwanted [] held).0 down k)) [
      | inl stuck ↦ ground (arith, still stuck, gone)
      | inr up ↦ up
    ]
type_chords-all_up (c ∷ cs) held down h k =
    let (up, kept) = release_unwanted c.modifiers held in
    let (pressed, held') = press_wanted c.modifiers kept in
    let ready =
      Held-press_wanted c.modifiers kept (key_state up down)
        (Held-release_unwanted c.modifiers held down h) in
    key_state-append up _ down k
    ∙ key_state-append pressed _ (key_state up down) k
    ∙ stroke c.key (type_chords cs held') (key_state pressed (key_state up down)) k
    ∙ type_chords-all_up cs held' (struck c.key (key_state pressed (key_state up down)))
        (λ j e. ready j (struck_lem c.key (key_state pressed (key_state up down)) j e)) k

-- After the events of a schedule no key is down, whatever chords the plan has: the keyboard starts
-- with no key down.
pub build_type_schedule-all_up :
    (plan : TypePlan) (k : ℕ) → key_state (build_type_schedule plan).events (λ j. false) k ≡ false
unfolding build_type_schedule
build_type_schedule-all_up plan k =
    type_chords-all_up plan.chords [] (λ j. false) (λ j e. ground arith) k
