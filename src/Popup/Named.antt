-- ===== src/Popup/Named.antt =====
-- NextAutoRegisterName of src/PopupModel.cpp. The counter is a uint64_t, and does not wrap while there
-- are fewer than 2 ^ 64 - 1 names.
use clipp.Prelude.{
  ℕ, zero, suc, ◌+◌, ◌-◌, ◌*◌, ◌/◌, ◌%◌, ◌≤◌, ◌<◌, ◌≡◌, ◌≢◌, refl, sym, ap, subst, ◌∙◌, Bool, true,
  false, not, ◌&&◌, ◌||◌, Option, none, some, List, [], ◌∷◌, ◌++◌, ltb, beq, list_order, ℕ_order,
  list_beq_iff, length, drop, keep_if, length-keep_if, any_of, if◌then◌else◌, arith, Bool-cases,
  Option-cases, inl, inr,
}
use clipp.Bytes.{Bytes, u64_mod}

-- std::to_string of a uint64_t, which has at most 20 digits.
unfoldable pub digits : ℕ → ℕ → Bytes
digits zero n = []
digits (suc room) n =
    let rest = digits room (n / 10) in
    if ltb n 10 then (48 + n) ∷ [] else rest ++ (48 + n % 10) ∷ []

abbrev pub to_string : ℕ → Bytes
to_string n = digits 20 n

abbrev pub candidate : ℕ → Bytes
candidate n = 105 ∷ 116 ∷ 101 ∷ 109 ∷ 45 ∷ to_string n

-- The loop from `n` on, with fuel.
unfoldable pub first_unused : ℕ → ℕ → List Bytes → Option Bytes
first_unused zero n names = none
first_unused (suc fuel) n names =
    let rest = first_unused fuel (n + 1) names in
    if any_of (λ name. beq name (candidate n)) names then rest else some (candidate n)

unfoldable pub next_auto_register_name : List Bytes → Option Bytes
next_auto_register_name names = first_unused (length names + 1) 1 names

-- 10 ^ room
abbrev pub power : ℕ → ℕ
power zero = 1
power (suc room) = 10 * power room

-- What the digits stand for.
value : ℕ → Bytes → ℕ
value acc [] = acc
value acc (b ∷ bs) = value (acc * 10 + (b - 48)) bs

value-append :
    (acc : ℕ) (bs : Bytes) (b : ℕ) → value acc (bs ++ b ∷ []) ≡ value acc bs * 10 + (b - 48)
unfolding value
value-append acc [] b = refl
value-append acc (c ∷ cs) b = value-append (acc * 10 + (c - 48)) cs b

digits-value : (room n : ℕ) → n < power room → value 0 (digits room n) ≡ n
unfolding digits
digits-value zero n h = unfold value in omega (arith, h)
digits-value (suc room) n h = elim (Bool-cases (ltb n 10)) [
  | inl one ↦ rw one (unfold value in omega arith)
  | inr more ↦ rw more (
      value-append 0 (digits room (n / 10)) (48 + n % 10)
      ∙ (omega (arith, digits-value room (n / 10) (omega (arith, h)))))
]

candidate-inj : (m n : ℕ) → m < power 20 → n < power 20 → candidate m ≡ candidate n → m ≡ n
candidate-inj m n h k e =
    sym (digits-value 20 m h) ∙ ap (λ l. value 0 (drop 5 l)) e ∙ digits-value 20 n k

abbrev pub is_name : Bytes → Bytes → Bool
is_name c name = beq name c

any_of-keep_if :
    (c d : Bytes) (names : List Bytes)
    → c ≢ d
    → any_of (is_name c) (keep_if (λ name. not (is_name d name)) names) ≡ any_of (is_name c) names
unfolding any_of keep_if
any_of-keep_if c d [] h = refl
any_of-keep_if c d (x ∷ xs) h = elim (Bool-cases (beq x d)) [
  | inl gone ↦ rw gone (elim (Bool-cases (beq x c)) [
    | inl here ↦ absurd (h (sym ((list_beq_iff x c).0 here) ∙ (list_beq_iff x d).0 gone))
    | inr elsewhere ↦ rw elsewhere (any_of-keep_if c d xs h)
  ])
  | inr kept ↦ rw kept (ap (λ b. beq x c || b) (any_of-keep_if c d xs h))
]

length-keep_if-any_of :
    (p : Bytes → Bool) (names : List Bytes)
    → any_of p names ≡ true
    → length (keep_if (λ name. not (p name)) names) < length names
unfolding any_of keep_if
length-keep_if-any_of p [] h = ground arith
length-keep_if-any_of p (x ∷ xs) h =
    ground (arith, length-keep_if-any_of p xs, length-keep_if (λ name. not (p name)) xs)

-- A name that the loop has passed is of no use to the rest of it.
first_unused-keep_if :
    (fuel n k : ℕ) (names : List Bytes)
    → k < n
    → n + fuel < power 20
    → first_unused fuel n (keep_if (λ name. not (is_name (candidate k) name)) names)
      ≡ first_unused fuel n names
unfolding first_unused
first_unused-keep_if zero n k names h r = refl
first_unused-keep_if (suc fuel) n k names h r =
    rw
      (any_of-keep_if (candidate n) (candidate k) names (λ e.
        absurd (omega (arith, h, candidate-inj n k (omega (arith, r)) (omega (arith, h, r)) e))))
      (rw (first_unused-keep_if fuel (n + 1) k names (omega arith) (omega (arith, r))) refl)

clash : {A : Type 0} {c : Bytes} → some c ≡ none → A
clash e = absurd (ground (arith, e))

first_unused-next :
    (fuel n : ℕ) (names : List Bytes)
    → any_of (is_name (candidate n)) names ≡ true
    → first_unused (suc fuel) n names ≡ first_unused fuel (n + 1) names
unfolding first_unused
first_unused-next fuel n names taken = rw taken refl

first_unused-here :
    (fuel n : ℕ) (names : List Bytes)
    → any_of (is_name (candidate n)) names ≡ false
    → first_unused (suc fuel) n names ≡ some (candidate n)
unfolding first_unused
first_unused-here fuel n names unused = rw unused refl

-- Each candidate that is taken is one of the names.
first_unused-none :
    (fuel n : ℕ) (names : List Bytes)
    → n + fuel < power 20
    → first_unused fuel n names ≡ none
    → fuel ≤ length names
first_unused-none zero n names r e = omega arith
first_unused-none (suc fuel) n names r e =
    elim (Bool-cases (any_of (is_name (candidate n)) names)) [
      | inl taken ↦
          let others = keep_if (λ name. not (is_name (candidate n) name)) names in
          let rest : first_unused fuel (n + 1) others ≡ none =
            first_unused-keep_if fuel (n + 1) n names (omega arith) (omega (arith, r))
            ∙ (sym (first_unused-next fuel n names taken) ∙ e) in
          omega (
            arith,
            length-keep_if-any_of (is_name (candidate n)) names taken,
            first_unused-none fuel (n + 1) others (omega (arith, r)) rest,
          )
      | inr unused ↦ absurd (clash (sym (first_unused-here fuel n names unused) ∙ e))
    ]

-- The `count` candidates from `n` on are taken.
unfoldable pub all_taken : ℕ → ℕ → List Bytes → Bool
all_taken n zero names = true
all_taken n (suc count) names =
    any_of (is_name (candidate n)) names && all_taken (n + 1) count names

first_unused-some :
    (fuel n : ℕ) (names : List Bytes) (name : Bytes)
    → first_unused fuel n names ≡ some name
    → (m : ℕ) × ((name ≡ candidate (n + m))
        × ((m < fuel) × ((all_taken n m names ≡ true) × (any_of (is_name name) names ≡ false))))
unfolding all_taken
first_unused-some zero n names name e = absurd (unfold first_unused in clash (sym e))
first_unused-some (suc fuel) n names name e =
    elim (Bool-cases (any_of (is_name (candidate n)) names)) [
      | inl taken ↦
          let (m, (p, (q, (before, free)))) =
            first_unused-some fuel (n + 1) names name
              (sym (first_unused-next fuel n names taken) ∙ e) in
          let next : n + 1 + m ≡ n + suc m = omega arith in
          (suc m, (p ∙ ap candidate next, (omega (arith, q), (rw taken before, free))))
      | inr unused ↦
          let same : candidate n ≡ name =
            ap (λ o. elim o [ none ↦ name | some x ↦ x ])
              (sym (first_unused-here fuel n names unused) ∙ e) in
          let start : n ≡ n + 0 = omega arith in
          (
            0,
            (
              sym same ∙ ap candidate start,
              (omega arith, (refl, subst (λ c. any_of (is_name c) names ≡ false) same unused)),
            ),
          )
    ]

-- The search for a name ends: for fewer than 2 ^ 64 - 1 names it returns a name, which none of the
-- names is, and which is "item-" and the least number from 1 on whose candidate is not taken, at most
-- one more than there are names.
pub next_auto_register_name-some :
    (names : List Bytes)
    → length names + 1 < u64_mod
    → (m : ℕ) × ((next_auto_register_name names ≡ some (candidate (1 + m)))
        × ((m ≤ length names)
            × ((all_taken 1 m names ≡ true)
                × (any_of (is_name (candidate (1 + m))) names ≡ false))))
unfolding next_auto_register_name
next_auto_register_name-some names r =
    elim (Option-cases (first_unused (length names + 1) 1 names)) [
      | inl gave_up ↦
          absurd
            (omega (arith, first_unused-none (length names + 1) 1 names (omega (arith, r)) gave_up))
      | inr (name, found) ↦
          let (m, (e, (h, (before, free)))) =
            first_unused-some (length names + 1) 1 names name found in
          (
            m,
            (
              found ∙ ap some e,
              (omega (arith, h), (before, subst (λ c. any_of (is_name c) names ≡ false) e free)),
            ),
          )
    ]
