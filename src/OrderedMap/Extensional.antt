-- ===== src/OrderedMap/Extensional.antt =====
-- Two ordered maps in which every lookup agrees are the same list of entries.
use clipp.Prelude.{
  ◌≡◌, refl, false, some, List, [], ◌∷◌, Order, less, arith, Bool-cases, inl, inr, subst, sym,
}
use clipp.OrderedMap.{find, AllAbove, Sorted}
use clipp.OrderedMap.Laws.{beq_refl, find_above, AllAbove-trans}

module _ {ℓ κ} {K : Type ℓ} ⦃o : Order K⦄ {V : Type κ} where
  abbrev pub SameLookups : List (K × V) → List (K × V) → Type (ℓ ⊔ κ)
  SameLookups m n = (k : K) → find k m ≡ find k n

  find_first : (k : K) (v : V) (m : List (K × V)) → find k ((k, v) ∷ m) ≡ some v
  unfolding find
  find_first k v m = rw (beq_refl k)

  module _ (j k : K) (v w : V) (m n : List (K × V)) where
    -- The least key of one side is not below the least key of the other.
    least_key : AllAbove k n → SameLookups ((j, v) ∷ m) ((k, w) ∷ n) → less j k ≡ false
    least_key a h = elim (Bool-cases (less j k)) [
      | inl below ↦
          cc
            (find_first j v m, h j, find_above j ((k, w) ∷ n) (below, AllAbove-trans j k n below a))
      | inr e ↦ e
    ]

  first_value :
      (k : K) (v w : V) (m n : List (K × V)) → SameLookups ((k, v) ∷ m) ((k, w) ∷ n) → v ≡ w
  first_value k v w m n h = cc (find_first k v m, h k, find_first k w n)

  tails :
      (k : K) (v : V) (m n : List (K × V))
      → AllAbove k m
      → AllAbove k n
      → SameLookups ((k, v) ∷ m) ((k, v) ∷ n)
      → SameLookups m n
  unfolding find
  tails k v m n a b h i = ground (arith, h i, o.beq_iff i k, find_above k m a, find_above k n b)

  pub same_entries : (m n : List (K × V)) → Sorted m → Sorted n → SameLookups m n → m ≡ n
  same_entries [] [] s t h = refl
  same_entries [] ((k, w) ∷ n) s t h = cc (h k, find_first k w n, find_above {V = V} k [] tt)
  same_entries ((j, v) ∷ m) [] s t h = cc (h j, find_first j v m, find_above {V = V} j [] tt)
  same_entries ((j, v) ∷ m) ((k, w) ∷ n) (a, s) (b, t) h =
      let e : j ≡ k =
        o.connex j k (least_key j k v w m n b h) (least_key k j w v n m a (λ i. sym (h i))) in
      let ev : v ≡ w =
        first_value j v w m n (subst (λ i. SameLookups ((j, v) ∷ m) ((i, w) ∷ n)) (sym e) h) in
      let same : SameLookups ((j, v) ∷ m) ((j, v) ∷ n) =
        subst (λ (x : K × V). SameLookups ((j, v) ∷ m) (x ∷ n)) (λ i. (sym e i, sym ev i)) h in
      let ih = same_entries m n s t (tails j v m n a (subst (λ i. AllAbove i n) (sym e) b) same) in
      λ i. (e i, ev i) ∷ ih i
