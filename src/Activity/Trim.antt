-- ===== src/Activity/Trim.antt =====
-- ApplyLimitsLocked of src/ClipboardActivityStore.cpp: by age, by number, by memory.
use clipp.Prelude.{
  ℕ, ◌+◌, ◌-◌, ◌*◌, ◌^◌, ◌%◌, Bool, not, ◌&&◌, ◌||◌, List, [], ◌∷◌, ◌++◌, map, ltb, leb, ◌==◌,
  length, keep_if, if◌then◌else◌,
}
use clipp.Bytes.{u64_mod}
use clipp.Activity.{Item, Limits, Update, removed, ActivityStore}

-- The period of the system clock is up to the implementation; a nanosecond is the finest there is.
abbrev pub ticks_per_second : ℕ
ticks_per_second = 1_000_000_000

abbrev pub max_supported_age_seconds : ℕ
max_supported_age_seconds = 2 ^ 63 - 1

abbrev pub removal_of : Item → Update
removal_of i = removed i.header.id

-- What a step has left, and the updates that it has made.
abbrev pub Trimmed : Type 0
Trimmed = List Item × List Update

-- `now - std::chrono::seconds(age)` in int64_t ticks, which wrap around, with 2 ^ 63 added so that the
-- order is that of the numbers.
unfoldable pub cutoff : ℕ → ℕ → ℕ
cutoff max_age now = (now + 2 ^ 63 + (u64_mod - (max_age * ticks_per_second) % u64_mod)) % u64_mod

-- `item->header.timestamp < cutoff`
unfoldable pub is_aged : ℕ → ℕ → Item → Bool
unfolding cutoff
is_aged max_age now i = ltb (i.header.timestamp + 2 ^ 63) (cutoff max_age now)

unfoldable pub drop_aged : ℕ → ℕ → List Item → Trimmed
drop_aged max_age now items =
    if max_age == 0 || ltb max_supported_age_seconds max_age then (items, []) else (
      keep_if (λ i. not (is_aged max_age now i)) items,
      map removal_of (keep_if (is_aged max_age now) items),
    )

-- `while (items_.size() > maxItems) removeAt(items_.begin())`
unfoldable pub drop_first : ℕ → List Item → Trimmed
drop_first max_items [] = ([], [])
drop_first max_items (i ∷ is) =
    let (kept, updates) = drop_first max_items is in
    if ltb max_items (length (i ∷ is)) then (kept, removal_of i ∷ updates) else (i ∷ is, [])

unfoldable pub drop_excess : ℕ → List Item → Trimmed
drop_excess max_items items = if max_items == 0 then (items, []) else drop_first max_items items

abbrev pub metadata_estimate_bytes : ℕ
metadata_estimate_bytes = 256

unfoldable pub estimate_item_bytes : Item → ℕ
estimate_item_bytes i = metadata_estimate_bytes + length i.payload.encoded

-- The sum, which stops at the largest uint64_t.
unfoldable pub total_bytes : ℕ → List Item → ℕ
total_bytes total [] = total
total_bytes total (i ∷ is) =
    total_bytes
      (if ltb (u64_mod - 1 - estimate_item_bytes i) total
        then u64_mod - 1
        else total + estimate_item_bytes i)
      is

unfoldable pub drop_heavy : ℕ → ℕ → List Item → Trimmed
drop_heavy limit total [] = ([], [])
drop_heavy limit total (i ∷ is) =
    let bytes = estimate_item_bytes i in
    let (kept, updates) = drop_heavy limit (if leb total bytes then 0 else total - bytes) is in
    if ltb 1 (length (i ∷ is)) && ltb limit total
    then (kept, removal_of i ∷ updates)
    else (i ∷ is, [])

unfoldable pub drop_over_memory : ℕ → List Item → Trimmed
drop_over_memory limit items =
    if limit == 0 then (items, []) else drop_heavy limit (total_bytes 0 items) items

-- The three steps in their order.
unfoldable pub trim : ℕ → Limits → List Item → Trimmed
trim now limits items =
    let (young, u₁) = drop_aged limits.max_age_seconds now items in
    let (few, u₂) = drop_excess limits.max_items young in
    let (light, u₃) = drop_over_memory limits.memory_limit_bytes few in (light, u₁ ++ (u₂ ++ u₃))

-- ApplyLimitsLocked; the updates come behind those that the operation has made before.
unfoldable pub apply_limits : ℕ → ActivityStore × List Update → ActivityStore × List Update
apply_limits now (s, updates) =
    let (kept, evictions) = trim now s.limits s.items in
    (record s { items = kept }, updates ++ evictions)
