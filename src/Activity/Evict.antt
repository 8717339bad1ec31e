-- ===== src/Activity/Evict.antt =====
-- What the eviction of src/ClipboardActivityStore.cpp keeps, drops and reports.
use clipp.Prelude.{
  ℕ, ◌+◌, ◌-◌, ◌≤◌, ◌≡◌, refl, sym, ap, ◌∙◌, Bool, not, ◌&&◌, ◌||◌, List, [], ◌∷◌, ◌++◌, map, ltb,
  leb, ◌==◌, length, keep_if, count_if, if◌then◌else◌, arith, Bool-cases, inl, inr,
}
use clipp.Activity.{Item, Limits, Update, event_time}
use clipp.Activity.Trim.{
  Trimmed, removal_of, max_supported_age_seconds, is_aged, drop_aged, drop_first, drop_excess,
  drop_heavy, drop_over_memory, trim, estimate_item_bytes, total_bytes,
}

-- The items are in the order of the times of their events, from `from` on.
abbrev pub Ascending : ℕ → List Item → Type 0
Ascending from [] = Unit
Ascending from (i ∷ is) = (from ≤ event_time i) × Ascending (event_time i) is

pub Ascending-le : (lo hi : ℕ) (is : List Item) → lo ≤ hi → Ascending hi is → Ascending lo is
Ascending-le lo hi [] h a = tt
Ascending-le lo hi (i ∷ is) h (p, a) = (omega arith, a)

-- What an eviction does: what it drops it reports, and each item is kept or dropped, in the order.
pub record Evicts (items : List Item) (t : Trimmed) : Type 0 where
  pub dropped : List Item
  pub reported : t.1 ≡ map removal_of dropped
  pub counted : (p : Item → Bool) → count_if p items ≡ count_if p t.0 + count_if p dropped
  pub ordered : (from : ℕ) → Ascending from items → Ascending from t.0

count_if-append :
    (p : Item → Bool) (xs ys : List Item) → count_if p (xs ++ ys) ≡ count_if p xs + count_if p ys
unfolding count_if
count_if-append p [] ys = omega arith
count_if-append p (x ∷ xs) ys = ground (arith, count_if-append p xs ys)

map-append :
    (xs ys : List Item) → map removal_of (xs ++ ys) ≡ map removal_of xs ++ map removal_of ys
map-append [] ys = refl
map-append (x ∷ xs) ys = ap (λ l. removal_of x ∷ l) (map-append xs ys)

pub Evicts-none : (items : List Item) → Evicts items (items, [])
unfolding count_if
Evicts-none items = record {
  dropped = [];
  reported = refl;
  counted = λ p. omega arith;
  ordered = λ from a. a;
}

Evicts-Evicts :
    (items : List Item) (t : Trimmed) (kept : List Item) (updates : List Update)
    → Evicts items t
    → Evicts t.0 (kept, updates)
    → Evicts items (kept, t.1 ++ updates)
Evicts-Evicts items t kept updates e f = record {
  dropped = e.dropped ++ f.dropped;
  reported = (λ i. e.reported i ++ f.reported i) ∙ sym (map-append e.dropped f.dropped);
  counted = λ p. omega (arith, e.counted p, f.counted p, count_if-append p e.dropped f.dropped);
  ordered = λ from a. f.ordered from (e.ordered from a);
}

Evicts-cons :
    (i : Item) (is kept : List Item) (updates : List Update)
    → Evicts is (kept, updates)
    → Evicts (i ∷ is) (kept, removal_of i ∷ updates)
unfolding count_if
Evicts-cons i is kept updates e = record {
  dropped = i ∷ e.dropped;
  reported = ap (λ l. removal_of i ∷ l) e.reported;
  counted = λ p. ground (arith, e.counted p);
  ordered = λ from a. e.ordered from (Ascending-le from (event_time i) is a.0 a.1);
}

keep_if-Ascending :
    (q : Item → Bool) (from : ℕ) (items : List Item)
    → Ascending from items
    → Ascending from (keep_if q items)
unfolding keep_if
keep_if-Ascending q from [] a = tt
keep_if-Ascending q from (i ∷ is) (p, a) = elim (Bool-cases (q i)) [
  | inl yes_kept ↦ rw yes_kept (p, keep_if-Ascending q (event_time i) is a)
  | inr not_kept ↦
      rw not_kept (keep_if-Ascending q from is (Ascending-le from (event_time i) is p a))
]

count_if-split :
    (p q : Item → Bool) (items : List Item)
    → count_if p items ≡ count_if p (keep_if (λ i. not (q i)) items) + count_if p (keep_if q items)
unfolding count_if keep_if
count_if-split p q [] = omega arith
count_if-split p q (i ∷ is) = ground (arith, count_if-split p q is)

drop_aged-Evicts :
    (max_age now : ℕ) (items : List Item) → Evicts items (drop_aged max_age now items)
unfolding drop_aged
drop_aged-Evicts max_age now items =
    elim (Bool-cases (max_age == 0 || ltb max_supported_age_seconds max_age)) [
      | inl unlimited ↦ rw unlimited (Evicts-none items)
      | inr limited ↦ rw limited (record {
        dropped = keep_if (is_aged max_age now) items;
        reported = refl;
        counted = λ p. count_if-split p (is_aged max_age now) items;
        ordered = λ from a. keep_if-Ascending (λ i. not (is_aged max_age now i)) from items a;
      })
    ]

drop_first-Evicts : (max_items : ℕ) (items : List Item) → Evicts items (drop_first max_items items)
unfolding drop_first
drop_first-Evicts max_items [] = Evicts-none []
drop_first-Evicts max_items (i ∷ is) = elim (Bool-cases (ltb max_items (length (i ∷ is)))) [
  | inl over ↦ rw over (Evicts-cons i is _ _ (drop_first-Evicts max_items is))
  | inr fits ↦ rw fits (Evicts-none (i ∷ is))
]

drop_heavy-Evicts :
    (limit total : ℕ) (items : List Item) → Evicts items (drop_heavy limit total items)
unfolding drop_heavy
drop_heavy-Evicts limit total [] = Evicts-none []
drop_heavy-Evicts limit total (i ∷ is) =
    let bytes = estimate_item_bytes i in
    let rest = drop_heavy-Evicts limit (if leb total bytes then 0 else total - bytes) is in
    elim (Bool-cases (ltb 1 (length (i ∷ is)) && ltb limit total)) [
      | inl over ↦ rw over (Evicts-cons i is _ _ rest)
      | inr fits ↦ rw fits (Evicts-none (i ∷ is))
    ]

drop_excess-Evicts :
    (max_items : ℕ) (items : List Item) → Evicts items (drop_excess max_items items)
unfolding drop_excess
drop_excess-Evicts max_items items = elim (Bool-cases (max_items == 0)) [
  | inl unlimited ↦ rw unlimited (Evicts-none items)
  | inr limited ↦ rw limited (drop_first-Evicts max_items items)
]

drop_over_memory-Evicts :
    (limit : ℕ) (items : List Item) → Evicts items (drop_over_memory limit items)
unfolding drop_over_memory
drop_over_memory-Evicts limit items = elim (Bool-cases (limit == 0)) [
  | inl unlimited ↦ rw unlimited (Evicts-none items)
  | inr limited ↦ rw limited (drop_heavy-Evicts limit (total_bytes 0 items) items)
]

pub trim-Evicts :
    (now : ℕ) (limits : Limits) (items : List Item) → Evicts items (trim now limits items)
unfolding trim
trim-Evicts now limits items =
    let young = drop_aged limits.max_age_seconds now items in
    let few = drop_excess limits.max_items young.0 in
    Evicts-Evicts items young _ _ (drop_aged-Evicts limits.max_age_seconds now items) (
      Evicts-Evicts young.0 few _ _ (drop_excess-Evicts limits.max_items young.0)
        (drop_over_memory-Evicts limits.memory_limit_bytes few.0))
