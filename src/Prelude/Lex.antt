-- ===== src/Prelude/Lex.antt =====
-- Lexicographic orders on pairs and on lists.
use mathlib.Core.Path.{◌≡◌, refl}
use mathlib.Core.Logic.{◌↔◌}
use mathlib.Core.Bool.{Bool, true, false, ◌&&◌}
use mathlib.Core.List.{List, [], ◌∷◌}
use native.Mathlib.Omega.{arith}
use clipp.Prelude.Tests.{if◌then◌else◌}
use clipp.Prelude.Ordered.{Order, less_asymm}

module _ {ℓ κ} {A : Type ℓ} {B : Type κ} ⦃p : Order A⦄ ⦃q : Order B⦄ where
  -- The first components decide unless they are equal.
  abbrev pub pair_less : A × B → A × B → Bool
  pair_less (a, b) (c, d) = if p.beq a c then q.less b d else p.less a c

  abbrev pub pair_beq : A × B → A × B → Bool
  pair_beq (a, b) (c, d) = p.beq a c && q.beq b d

  pub pair_beq_iff : (x y : A × B) → (pair_beq x y ≡ true) ↔ (x ≡ y)
  pair_beq_iff (a, b) (c, d) = ground (arith, p.beq_iff a c, q.beq_iff b d)

  pub pair_irrefl : (x : A × B) → pair_less x x ≡ false
  pair_irrefl (a, b) = ground (arith, p.beq_iff a a, q.irrefl b)

  pub pair_trans :
      (x y z : A × B) → pair_less x y ≡ true → pair_less y z ≡ true → pair_less x z ≡ true
  pair_trans (a, b) (c, d) (e, f) h k = ground (
    arith,
    p.beq_iff a c,
    p.beq_iff c e,
    p.beq_iff a e,
    p.trans a c e,
    q.trans b d f,
    less_asymm a c,
  )

  pub pair_connex : (x y : A × B) → pair_less x y ≡ false → pair_less y x ≡ false → x ≡ y
  pair_connex (a, b) (c, d) h k =
      ground (arith, p.beq_iff a c, p.beq_iff c a, p.connex a c, q.connex b d)

  instance abbrev pub pair_order : Order (A × B)
  pair_order = record {
    less = pair_less;
    beq = pair_beq;
    beq_iff = pair_beq_iff;
    irrefl = pair_irrefl;
    trans = pair_trans;
    connex = pair_connex;
  }

module _ {ℓ} {A : Type ℓ} ⦃p : Order A⦄ where
  -- std::lexicographical_compare; a proper prefix is less.
  unfoldable pub list_less : List A → List A → Bool
  list_less xs [] = false
  list_less [] (y ∷ ys) = true
  list_less (x ∷ xs) (y ∷ ys) =
      let rest = list_less xs ys in if p.less x y then true else if p.less y x then false else rest

  unfoldable pub list_beq : List A → List A → Bool
  list_beq [] [] = true
  list_beq [] (y ∷ ys) = false
  list_beq (x ∷ xs) [] = false
  list_beq (x ∷ xs) (y ∷ ys) = p.beq x y && list_beq xs ys

  pub list_beq_iff : (xs ys : List A) → (list_beq xs ys ≡ true) ↔ (xs ≡ ys)
  unfolding list_beq
  list_beq_iff [] [] = ground arith
  list_beq_iff [] (y ∷ ys) = ground arith
  list_beq_iff (x ∷ xs) [] = ground arith
  list_beq_iff (x ∷ xs) (y ∷ ys) = ground (arith, p.beq_iff x y, list_beq_iff xs ys)

  pub list_irrefl : (xs : List A) → list_less xs xs ≡ false
  unfolding list_less
  list_irrefl [] = refl
  list_irrefl (x ∷ xs) = ground (arith, p.irrefl x, list_irrefl xs)

  pub list_trans :
      (xs ys zs : List A) → list_less xs ys ≡ true → list_less ys zs ≡ true → list_less xs zs ≡ true
  unfolding list_less
  list_trans xs [] zs h k = cc
  list_trans xs (y ∷ ys) [] h k = cc
  list_trans [] (y ∷ ys) (z ∷ zs) h k = refl
  list_trans (x ∷ xs) (y ∷ ys) (z ∷ zs) h k = ground (
    arith,
    p.trans x y z,
    p.connex x y,
    p.connex y z,
    less_asymm x y,
    less_asymm y z,
    less_asymm x z,
    list_trans xs ys zs,
  )

  pub list_connex : (xs ys : List A) → list_less xs ys ≡ false → list_less ys xs ≡ false → xs ≡ ys
  unfolding list_less
  list_connex [] [] h k = refl
  list_connex [] (y ∷ ys) h k = cc
  list_connex (x ∷ xs) [] h k = cc
  list_connex (x ∷ xs) (y ∷ ys) h k =
      ground (arith, p.connex x y, less_asymm y x, list_connex xs ys)

  instance abbrev pub list_order : Order (List A)
  list_order = record {
    less = list_less;
    beq = list_beq;
    beq_iff = list_beq_iff;
    irrefl = list_irrefl;
    trans = list_trans;
    connex = list_connex;
  }
