-- ===== src/OrderedMap.antt =====
-- std::map: the entries in the order of the keys, which are distinct. `Sorted` says so, and every
-- operation keeps it. Iteration over the map is recursion on the list.
pub mod Laws
pub mod Extensional
use clipp.Prelude.{
  ℕ, Bool, true, false, not, Option, none, some, List, [], ◌∷◌, Order, less, beq, keep_if, All, ◌≡◌,
  if◌then◌else◌,
}

module _ {ℓ κ} {K : Type ℓ} ⦃o : Order K⦄ {V : Type κ} where
  unfoldable pub find : K → List (K × V) → Option V
  find k [] = none
  find k ((j, v) ∷ m) = if o.beq k j then some v else find k m

  unfoldable pub insert_or_assign : K → V → List (K × V) → List (K × V)
  insert_or_assign k v [] = (k, v) ∷ []
  insert_or_assign k v ((j, w) ∷ m) =
      let later = insert_or_assign k v m in
      if o.beq k j then (k, v) ∷ m else if o.less k j then (k, v) ∷ (j, w) ∷ m else (j, w) ∷ later

  -- erase(it) of the entry of a key, if there is one
  unfoldable pub erase : K → List (K × V) → List (K × V)
  erase k [] = []
  erase k ((j, v) ∷ m) = let later = erase k m in if o.beq k j then m else (j, v) ∷ later

  -- Every key of the map is above `k`.
  abbrev pub AllAbove : K → List (K × V) → Type 0
  AllAbove k m = All (λ e. less k (e.0) ≡ true) m

  abbrev pub Sorted : List (K × V) → Type 0
  Sorted [] = Unit {0}
  Sorted ((k, v) ∷ m) = AllAbove k m × Sorted m
