-- ===== src/Prelude/Ordered.antt =====
-- A strict total order with Boolean tests, and the join (maximum) that it gives.
use Prim.Native.Nat.{ℕ}
use mathlib.Core.Path.{◌≡◌, ap, sym, ◌∙◌}
use mathlib.Core.Logic.{◌↔◌, ◌⊎◌, inl, inr}
use mathlib.Core.Bool.{Bool, true, false}
use native.Mathlib.Omega.{arith}
use clipp.Prelude.Tests.{ltb, ◌==◌, ==_iff, if◌then◌else◌, Bool-cases}

pub record Order {ℓ} (A : Type ℓ) : Type ℓ where
  pub less : A → A → Bool
  pub beq : A → A → Bool
  pub beq_iff : (a b : A) → (beq a b ≡ true) ↔ (a ≡ b)
  pub irrefl : (a : A) → less a a ≡ false
  pub trans : (a b c : A) → less a b ≡ true → less b c ≡ true → less a c ≡ true
  pub connex : (a b : A) → less a b ≡ false → less b a ≡ false → a ≡ b

abbrev pub less {ℓ} : {A : Type ℓ} ⦃o : Order A⦄ → A → A → Bool
less ⦃o⦄ = o.less

abbrev pub beq {ℓ} : {A : Type ℓ} ⦃o : Order A⦄ → A → A → Bool
beq ⦃o⦄ = o.beq

-- std::max: the first argument unless it is less than the second.
abbrev pub max_of {ℓ} : {A : Type ℓ} ⦃o : Order A⦄ → A → A → A
max_of ⦃o⦄ a b = if o.less a b then b else a

module _ {ℓ} {A : Type ℓ} ⦃o : Order A⦄ where
  pub less_asymm : (a b : A) → less a b ≡ true → less b a ≡ false
  less_asymm a b h = ground (arith, o.trans a b a h, o.irrefl a)

  -- the negated order is transitive too
  pub nless_trans : (a b c : A) → less a b ≡ false → less b c ≡ false → less a c ≡ false
  nless_trans a b c h k = ground (
    arith,
    o.connex b c k,
    o.trans c b a,
    o.trans a c b,
    o.connex a b h,
    o.trans b a c,
    less_asymm a c,
    less_asymm b c,
  )

  pub max_of_comm : (a b : A) → max_of a b ≡ max_of b a
  max_of_comm a b = ground (arith, less_asymm a b, o.connex a b)

  pub max_of_idem : (a : A) → max_of a a ≡ a
  max_of_idem a = ground arith

  pub max_of_assoc : (a b c : A) → max_of (max_of a b) c ≡ max_of a (max_of b c)
  max_of_assoc a b c = ground (arith, o.trans a b c, nless_trans a b c)

  pub max_of_right_comm : (a b c : A) → max_of (max_of a b) c ≡ max_of (max_of a c) b
  max_of_right_comm a b c =
      max_of_assoc a b c ∙ ap (λ (x : A). max_of a x) (max_of_comm b c) ∙ sym (max_of_assoc a c b)

  -- Two values and two more may be joined in either order of the pairs.
  pub max_of_pairs_comm :
      (a b c d e : A)
      → max_of (max_of (max_of (max_of a b) c) d) e ≡ max_of (max_of (max_of (max_of a d) e) b) c
  max_of_pairs_comm a b c d e =
      ap (λ (x : A). max_of x e) (max_of_right_comm (max_of a b) c d)
      ∙ ap (λ (x : A). max_of (max_of x c) e) (max_of_right_comm a b d)
      ∙ max_of_right_comm (max_of (max_of a d) b) c e
      ∙ ap (λ (x : A). max_of x c) (max_of_right_comm (max_of a d) b e)

  pub max_of_either : (a b : A) → (max_of a b ≡ a) ⊎ (max_of a b ≡ b)
  max_of_either a b = elim (Bool-cases (less a b)) [ inl h ↦ inr (rw h) | inr h ↦ inl (rw h) ]

  pub less-max_of_left : (a b : A) → less (max_of a b) a ≡ false
  less-max_of_left a b = ground (arith, o.irrefl a, less_asymm a b)

  pub less-max_of_right : (a b : A) → less (max_of a b) b ≡ false
  less-max_of_right a b = ground (arith, o.irrefl b)

pub ℕ_connex : (a b : ℕ) → ltb a b ≡ false → ltb b a ≡ false → a ≡ b
ℕ_connex a b h k = ground arith

pub ℕ_trans : (a b c : ℕ) → ltb a b ≡ true → ltb b c ≡ true → ltb a c ≡ true
ℕ_trans a b c h k = ground arith

pub ℕ_irrefl : (a : ℕ) → ltb a a ≡ false
ℕ_irrefl a = ground arith

instance abbrev pub ℕ_order : Order ℕ
ℕ_order = record {
  less = ltb;
  beq = ◌==◌;
  beq_iff = ==_iff;
  irrefl = ℕ_irrefl;
  trans = ℕ_trans;
  connex = ℕ_connex;
}

-- The order of the images under an injective key.
module _ {ℓ κ} {A : Type ℓ} {B : Type κ} (key : A → B) (inj : (a b : A) → key a ≡ key b → a ≡ b)
    ⦃o : Order B⦄ where
  pub beq_iff_by : (a b : A) → (o.beq (key a) (key b) ≡ true) ↔ (a ≡ b)
  beq_iff_by a b = (
    λ h. inj a b ((o.beq_iff (key a) (key b)).0 h),
    λ e. (o.beq_iff (key a) (key b)).1 (ap key e),
  )

  abbrev pub order_by : Order A
  order_by = record {
    less = λ a b. o.less (key a) (key b);
    beq = λ a b. o.beq (key a) (key b);
    beq_iff = beq_iff_by;
    irrefl = λ a. o.irrefl (key a);
    trans = λ a b c. o.trans (key a) (key b) (key c);
    connex = λ a b h k. inj a b (o.connex (key a) (key b) h k);
  }
