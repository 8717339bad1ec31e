-- ===== src/OrderedMap/Laws.antt =====
-- What a lookup finds after each change, and that each change keeps the keys in order.
use clipp.Prelude.{
  ◌≡◌, refl, Bool, true, false, Option, none, some, List, [], ◌∷◌, Order, less, keep_if, All,
  All-keep_if, if◌then◌else◌, arith, Bool-cases, inl, inr, subst, sym,
}
use clipp.OrderedMap.{find, insert_or_assign, erase, AllAbove, Sorted}

module _ {ℓ} {K : Type ℓ} ⦃o : Order K⦄ where
  pub beq_refl : (k : K) → o.beq k k ≡ true
  beq_refl k = (o.beq_iff k k).1 refl

module _ {ℓ κ} {K : Type ℓ} ⦃o : Order K⦄ {V : Type κ} where
  pub find-insert_or_assign :
      (j k : K) (v : V) (m : List (K × V))
      → find j (insert_or_assign k v m) ≡ (if o.beq j k then some v else find j m)
  unfolding find insert_or_assign
  find-insert_or_assign j k v [] = refl
  find-insert_or_assign j k v ((i, w) ∷ m) =
      ground (arith, find-insert_or_assign j k v m, o.beq_iff j k, o.beq_iff k i, o.beq_iff j i)

  pub AllAbove-trans : (j k : K) (m : List (K × V)) → less j k ≡ true → AllAbove k m → AllAbove j m
  AllAbove-trans j k [] h a = tt
  AllAbove-trans j k ((i, w) ∷ m) h (p, a) = (o.trans j k i h p, AllAbove-trans j k m h a)

  pub AllAbove-insert_or_assign :
      (j k : K) (v : V) (m : List (K × V))
      → less j k ≡ true
      → AllAbove j m
      → AllAbove j (insert_or_assign k v m)
  unfolding insert_or_assign
  AllAbove-insert_or_assign j k v [] h a = (h, tt)
  AllAbove-insert_or_assign j k v ((i, w) ∷ m) h (p, a) =
      ground (arith, AllAbove-insert_or_assign j k v m h a)

  pub Sorted-insert_or_assign :
      (k : K) (v : V) (m : List (K × V)) → Sorted m → Sorted (insert_or_assign k v m)
  unfolding insert_or_assign
  Sorted-insert_or_assign k v [] s = (tt, tt)
  Sorted-insert_or_assign k v ((i, w) ∷ m) (a, s) = ground (
    arith,
    o.beq_iff k i,
    o.connex k i,
    AllAbove-trans k i m,
    AllAbove-insert_or_assign i k v m,
    Sorted-insert_or_assign k v m s,
  )

  -- A key below all others is not in the map.
  pub find_above : (k : K) (m : List (K × V)) → AllAbove k m → find k m ≡ none
  unfolding find
  find_above k [] a = refl
  find_above k ((j, v) ∷ m) (p, a) = ground (arith, find_above k m a, o.beq_iff k j, o.irrefl k)

  pub find-erase :
      (j k : K) (m : List (K × V))
      → Sorted m
      → find j (erase k m) ≡ (if o.beq j k then none else find j m)
  unfolding find erase
  find-erase j k [] s = ground arith
  find-erase j k ((i, v) ∷ m) (a, s) =
      ground
        (arith, find-erase j k m s, o.beq_iff j k, o.beq_iff k i, o.beq_iff j i, find_above i m a)

  pub All-erase {μ} : (P : K × V → Type μ) (k : K) (m : List (K × V)) → All P m → All P (erase k m)
  unfolding erase
  All-erase P k [] h = tt
  All-erase P k ((j, v) ∷ m) (p, h) = All-erase-cons (o.beq k j) (All-erase P k m h)
    where
      All-erase-cons : (b : Bool) → All P (erase k m) → All P (if b then m else (j, v) ∷ erase k m)
      All-erase-cons true r = h
      All-erase-cons false r = (p, r)

  pub Sorted-erase : (k : K) (m : List (K × V)) → Sorted m → Sorted (erase k m)
  unfolding erase
  Sorted-erase k [] s = tt
  Sorted-erase k ((j, v) ∷ m) (a, s) =
      ground (arith, Sorted-erase k m s, All-erase (λ e. less j (e.0) ≡ true) k m a)

  pub All-insert_or_assign {μ} :
      (P : K × V → Type μ) (k : K) (v : V) (m : List (K × V))
      → P (k, v)
      → All P m
      → All P (insert_or_assign k v m)
  unfolding insert_or_assign
  All-insert_or_assign P k v [] q h = (q, tt)
  All-insert_or_assign P k v ((j, w) ∷ m) q (p, h) =
      cases (o.beq k j) (o.less k j) (All-insert_or_assign P k v m q h)
    where
      cases :
          (b c : Bool)
          → All P (insert_or_assign k v m)
          → All P (
              if b
              then (k, v) ∷ m
              else if c
              then (k, v) ∷ (j, w) ∷ m
              else (j, w) ∷ insert_or_assign k v m)
      cases true c r = (q, h)
      cases false true r = (q, (p, h))
      cases false false r = (p, r)

  pub Sorted-keep_if : (p : K × V → Bool) (m : List (K × V)) → Sorted m → Sorted (keep_if p m)
  unfolding keep_if
  Sorted-keep_if p [] s = tt
  Sorted-keep_if p ((j, v) ∷ m) (a, s) =
      ground (arith, Sorted-keep_if p m s, All-keep_if (λ e. less j (e.0) ≡ true) p m a)

  abbrev pub filtered : (K × V → Bool) → K → Option V → Option V
  filtered p k none = none
  filtered p k (some v) = if p (k, v) then some v else none

  -- A lookup in the entries that pass a test.
  pub find-keep_if :
      (j : K) (p : K × V → Bool) (m : List (K × V))
      → Sorted m
      → find j (keep_if p m) ≡ filtered p j (find j m)
  unfolding find keep_if
  find-keep_if j p [] s = refl
  find-keep_if j p ((i, v) ∷ m) (a, s) =
      ground (arith, find-keep_if j p m s, o.beq_iff j i, find_above i m a)

  -- What is found has every property that all entries have.
  pub All-find {μ} :
      (P : K × V → Type μ) (k : K) (m : List (K × V)) {v : V}
      → All P m
      → find k m ≡ some v
      → P (k, v)
  unfolding find
  All-find P k [] h e = cc
  All-find P k ((j, w) ∷ m) {v} (p, h) e = elim (Bool-cases (o.beq k j)) [
    | inl same ↦
        let ekj : k ≡ j = (o.beq_iff k j).0 same in
        let ev : w ≡ v = ground arith in subst P (λ i. (sym ekj i, ev i)) p
    | inr other ↦ All-find P k m h (rw (other, find) at e)
  ]
