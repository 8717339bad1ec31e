-- ===== src/Activity/Bounds.antt =====
-- ApplyLimitsLocked of src/ClipboardActivityStore.cpp against a description of what it keeps.
use clipp.Prelude.{
  ℕ, ◌*◌, ◌^◌, ◌+◌, ◌-◌, ◌≤◌, ◌<◌, ◌≡◌, refl, sym, ap, ◌∙◌, Bool, true, false, not, ◌&&◌, ◌||◌,
  List, [], ◌∷◌, ltb, leb, ◌==◌, length, keep_if, if◌then◌else◌, arith, Bool-cases, inl, inr,
}
use clipp.Bytes.{u64_mod}
use clipp.Activity.{Item, Limits}
use clipp.Activity.Trim.{
  max_supported_age_seconds, cutoff, is_aged, drop_aged, drop_first, drop_excess, drop_heavy,
  drop_over_memory, trim, estimate_item_bytes, total_bytes,
}

-- The bytes of the items, as they are.
unfoldable pub weight : List Item → ℕ
weight [] = 0
weight (i ∷ is) = estimate_item_bytes i + weight is

abbrev pub fits_count : ℕ → List Item → Bool
fits_count max_items is = max_items == 0 || leb (length is) max_items

abbrev pub fits_memory : ℕ → List Item → Bool
fits_memory limit is = limit == 0 || (leb (weight is) limit || leb (length is) 1)

abbrev pub fits : Limits → List Item → Bool
fits limits is = fits_count limits.max_items is && fits_memory limits.memory_limit_bytes is

-- The longest end of a list that passes a test.
unfoldable pub longest_end : (List Item → Bool) → List Item → List Item
longest_end p [] = []
longest_end p (i ∷ is) = if p (i ∷ is) then i ∷ is else longest_end p is

-- The items that are not too old: where there is an age, no more ticks of a nanosecond ago than it has.
unfoldable pub young : ℕ → ℕ → List Item → List Item
young max_age now items =
    keep_if (λ i. max_age == 0 || leb now (i.header.timestamp + max_age * 1_000_000_000)) items

keep_if-ext :
    (p q : Item → Bool) (items : List Item)
    → ((i : Item) → p i ≡ q i)
    → keep_if p items ≡ keep_if q items
unfolding keep_if
keep_if-ext p q [] h = refl
keep_if-ext p q (i ∷ is) h = ground (arith, h i, keep_if-ext p q is h)

keep_if-true : (items : List Item) → items ≡ keep_if (λ i. true) items
unfolding keep_if
keep_if-true [] = refl
keep_if-true (i ∷ is) = ap (λ l. i ∷ l) (keep_if-true is)

-- The difference of the times does not overflow.
cutoff-difference :
    (max_age now : ℕ)
    → max_age * 1_000_000_000 < 2 ^ 63
    → now < 2 ^ 63
    → cutoff max_age now + max_age * 1_000_000_000 ≡ now + 2 ^ 63
unfolding cutoff
cutoff-difference max_age now h k = omega (arith, h, k)

is_aged-young :
    (max_age now : ℕ) (i : Item)
    → max_age * 1_000_000_000 < 2 ^ 63
    → now < 2 ^ 63
    → not (is_aged max_age now i) ≡ leb now (i.header.timestamp + max_age * 1_000_000_000)
unfolding is_aged
is_aged-young max_age now i h k = ground (arith, cutoff-difference max_age now h k)

drop_aged-young :
    (max_age now : ℕ) (items : List Item)
    → max_age * 1_000_000_000 < 2 ^ 63
    → now < 2 ^ 63
    → (drop_aged max_age now items).0 ≡ young max_age now items
unfolding drop_aged young
drop_aged-young max_age now items h k =
    let within : ltb max_supported_age_seconds max_age ≡ false = ground (arith, h) in
    elim (Bool-cases (max_age == 0)) [
      | inl unlimited ↦ rw unlimited (keep_if-true items)
      | inr limited ↦
          rw (limited, within) (keep_if-ext _ _ items (λ i. is_aged-young max_age now i h k))
    ]

weight-young :
    (max_age now : ℕ) (items : List Item) → weight (young max_age now items) ≤ weight items
unfolding weight young keep_if
weight-young max_age now [] = omega arith
weight-young max_age now (i ∷ is) = ground (arith, weight-young max_age now is)

total_bytes-weight :
    (t : ℕ) (items : List Item)
    → t + weight items < u64_mod
    → total_bytes t items ≡ t + weight items
unfolding total_bytes weight
total_bytes-weight t [] h = omega arith
total_bytes-weight t (i ∷ is) h =
    let fine : ltb (u64_mod - 1 - estimate_item_bytes i) t ≡ false = ground (arith, h) in
    rw fine (total_bytes-weight (t + estimate_item_bytes i) is (omega (arith, h)) ∙ omega arith)

-- With few enough items, the memory decides.
drop_heavy-longest_end :
    (limits : Limits) (items : List Item)
    → (limits.memory_limit_bytes == 0) ≡ false
    → fits_count limits.max_items items ≡ true
    → (drop_heavy limits.memory_limit_bytes (weight items) items).0
      ≡ longest_end (fits limits) items
unfolding drop_heavy longest_end weight
drop_heavy-longest_end limits [] z h = refl
drop_heavy-longest_end limits (i ∷ is) z h =
    let left : (if leb (weight (i ∷ is)) (estimate_item_bytes i)
          then 0
          else weight (i ∷ is) - estimate_item_bytes i)
        ≡ weight is =
      ground arith in
    let rest = drop_heavy-longest_end limits is z (ground (arith, h)) in
    let test : fits limits (i ∷ is)
        ≡ not (ltb 1 (length (i ∷ is)) && ltb limits.memory_limit_bytes (weight (i ∷ is))) =
      ground (arith, z, h) in
    elim (Bool-cases (ltb 1 (length (i ∷ is)) && ltb limits.memory_limit_bytes (weight (i ∷ is)))) [
      | inl over ↦ rw test (rw over (rw left rest))
      | inr light ↦ rw test (rw light refl)
    ]

native_zero : (n : ℕ) → 0 + n ≡ n
native_zero n = omega arith

longest_end-here :
    (p : List Item → Bool) (i : Item) (is : List Item)
    → p (i ∷ is) ≡ true
    → longest_end p (i ∷ is) ≡ i ∷ is
unfolding longest_end
longest_end-here p i is h = rw h refl

longest_end-there :
    (p : List Item → Bool) (i : Item) (is : List Item)
    → p (i ∷ is) ≡ false
    → longest_end p (i ∷ is) ≡ longest_end p is
unfolding longest_end
longest_end-there p i is h = rw h refl

drop_over_memory-longest_end :
    (limits : Limits) (items : List Item)
    → weight items < u64_mod
    → fits_count limits.max_items items ≡ true
    → (drop_over_memory limits.memory_limit_bytes items).0 ≡ longest_end (fits limits) items
unfolding drop_over_memory longest_end
drop_over_memory-longest_end limits items w h = elim (Bool-cases (limits.memory_limit_bytes == 0)) [
  | inl unlimited ↦ rw unlimited (sym (longest_end-all limits items unlimited h))
  | inr limited ↦ rw limited (
      rw (total_bytes-weight 0 items (omega (arith, w)))
        (rw (native_zero (weight items)) (drop_heavy-longest_end limits items limited h)))
]
  where
    longest_end-all :
        (limits : Limits) (items : List Item)
        → (limits.memory_limit_bytes == 0) ≡ true
        → fits_count limits.max_items items ≡ true
        → longest_end (fits limits) items ≡ items
    longest_end-all limits [] z h = refl
    longest_end-all limits (i ∷ is) z h = ground (arith, z, h)

drop_first-longest_end :
    (max_items : ℕ) (items : List Item)
    → (max_items == 0) ≡ false
    → (drop_first max_items items).0 ≡ longest_end (fits_count max_items) items
unfolding drop_first
drop_first-longest_end max_items [] z = unfold longest_end in refl
drop_first-longest_end max_items (i ∷ is) z = elim (Bool-cases (ltb max_items (length (i ∷ is)))) [
  | inl over ↦ rw over (
      drop_first-longest_end max_items is z
      ∙ sym (longest_end-there (fits_count max_items) i is (ground (arith, over, z))))
  | inr few ↦ rw few (sym (longest_end-here (fits_count max_items) i is (ground (arith, few))))
]

drop_excess-longest_end :
    (max_items : ℕ) (items : List Item)
    → (drop_excess max_items items).0 ≡ longest_end (fits_count max_items) items
unfolding drop_excess
drop_excess-longest_end max_items items = elim (Bool-cases (max_items == 0)) [
  | inl unlimited ↦ rw unlimited (longest_end-all items unlimited)
  | inr limited ↦ rw limited (drop_first-longest_end max_items items limited)
]
  where
    longest_end-all :
        (is : List Item) → (max_items == 0) ≡ true → is ≡ longest_end (fits_count max_items) is
    longest_end-all [] z = unfold longest_end in refl
    longest_end-all (i ∷ is) z =
        sym (longest_end-here (fits_count max_items) i is (ground (arith, z)))

-- The count comes first, and what fits it stays with the memory.
longest_end-longest_end :
    (limits : Limits) (items : List Item)
    → longest_end (fits limits) (longest_end (fits_count limits.max_items) items)
      ≡ longest_end (fits limits) items
longest_end-longest_end limits [] = unfold longest_end in refl
longest_end-longest_end limits (i ∷ is) = elim (Bool-cases (fits_count limits.max_items (i ∷ is))) [
  | inl few ↦
      ap (longest_end (fits limits)) (longest_end-here (fits_count limits.max_items) i is few)
  | inr many ↦
      ap (longest_end (fits limits)) (longest_end-there (fits_count limits.max_items) i is many)
      ∙ longest_end-longest_end limits is
      ∙ sym (longest_end-there (fits limits) i is (rw many refl))
]

longest_end-fits_count :
    (max_items : ℕ) (items : List Item)
    → fits_count max_items (longest_end (fits_count max_items) items) ≡ true
unfolding longest_end
longest_end-fits_count max_items [] = ground arith
longest_end-fits_count max_items (i ∷ is) = elim (Bool-cases (fits_count max_items (i ∷ is))) [
  | inl few ↦ rw few few
  | inr many ↦ rw many (longest_end-fits_count max_items is)
]

weight-longest_end :
    (p : List Item → Bool) (items : List Item) → weight (longest_end p items) ≤ weight items
unfolding weight longest_end
weight-longest_end p [] = omega arith
weight-longest_end p (i ∷ is) = ground (arith, weight-longest_end p is)

-- For items of less than 2 ^ 64 bytes, an age whose ticks and a time which are below 2 ^ 63, what is kept
-- is the longest end of the list of the items that are not too old that is within the limits: no more
-- than the largest number of items, and within the memory, or a single item. An item is not too old
-- where it is at most the age's nanoseconds old. A limit of zero is none.
pub trim-longest_end :
    (now : ℕ) (limits : Limits) (items : List Item)
    → weight items < u64_mod
    → limits.max_age_seconds * 1_000_000_000 < 2 ^ 63
    → now < 2 ^ 63
    → (trim now limits items).0 ≡ longest_end (fits limits) (young limits.max_age_seconds now items)
unfolding trim
trim-longest_end now limits items w h k =
    let ys = young limits.max_age_seconds now items in
    let few = longest_end (fits_count limits.max_items) ys in
    rw (drop_aged-young limits.max_age_seconds now items h k) (
      rw (drop_excess-longest_end limits.max_items ys) (
        drop_over_memory-longest_end limits few
          (omega (
            arith,
            w,
            weight-young limits.max_age_seconds now items,
            weight-longest_end (fits_count limits.max_items) ys,
          ))
          (longest_end-fits_count limits.max_items ys)
        ∙ longest_end-longest_end limits ys))
