-- ===== src/Activity/Valid.antt =====
-- The invariant of the store of src/ClipboardActivityStore.cpp.
use clipp.Prelude.{
  ℕ, ◌+◌, ◌≤◌, ◌<◌, ◌≡◌, refl, Bool, true, false, not, ◌&&◌, none, some, List, [], ◌∷◌, ltb,
  list_order, ℕ_order, count_if, if◌then◌else◌, arith, Bool-cases, inl, inr,
}
use clipp.Bytes.{Bytes}
use clipp.Payload.{is_zero}
use clipp.Activity.{
  Item, ActivityStore, event_time, has_id, has_guid, find_if, erase_first, insert_item,
}
use clipp.Activity.Trim.{trim}
use clipp.Activity.Evict.{Ascending, Ascending-le, trim-Evicts}

abbrev pub id_outside : ℕ → Item → Bool
id_outside next i = not (ltb 0 i.header.id && ltb i.header.id next)

-- The items are in the order of their events' times; ids are distinct, not 0, and below the next
-- one; and no two items are of one event, among those that have a guid.
pub record ItemsOk (next : ℕ) (items : List Item) : Type 0 where
  pub ascending : Ascending 0 items
  pub ids_used : count_if (id_outside next) items ≡ 0
  pub ids_distinct : (id : ℕ) → count_if (has_id id) items ≤ 1
  pub events_distinct : (guid : Bytes) → is_zero guid ≡ false → count_if (has_guid guid) items ≤ 1

abbrev pub IsValid : ActivityStore → Type 0
IsValid s = (0 < s.next_item_id) × ItemsOk s.next_item_id s.items

pub trim-ItemsOk :
    (now next : ℕ) (s : ActivityStore)
    → ItemsOk next s.items
    → ItemsOk next (trim now s.limits s.items).0
trim-ItemsOk now next s v =
    let e = trim-Evicts now s.limits s.items in
    record {
      ascending = e.ordered 0 v.ascending;
      ids_used = omega (arith, e.counted (id_outside next), v.ids_used);
      ids_distinct = λ id. omega (arith, e.counted (has_id id), v.ids_distinct id);
      events_distinct =
          λ guid h. omega (arith, e.counted (has_guid guid), v.events_distinct guid h);
    }

pub count_if-insert_item :
    (p : Item → Bool) (x : Item) (items : List Item)
    → count_if p (insert_item x items) ≡ count_if p items + (if p x then 1 else 0)
unfolding count_if insert_item
count_if-insert_item p x [] = ground arith
count_if-insert_item p x (i ∷ is) = ground (arith, count_if-insert_item p x is)

pub count_if-erase_first :
    (p q : Item → Bool) (items : List Item) (e : Item)
    → find_if q items ≡ some e
    → (count_if p items ≡ count_if p (erase_first q items) + (if p e then 1 else 0)) × (q e ≡ true)
unfolding count_if erase_first find_if
count_if-erase_first p q [] e f = ground arith
count_if-erase_first p q (i ∷ is) e f = ground (arith, count_if-erase_first p q is e)

pub find_if-none :
    (q : Item → Bool) (items : List Item) → find_if q items ≡ none → count_if q items ≡ 0
unfolding count_if find_if
find_if-none q [] f = refl
find_if-none q (i ∷ is) f = ground (arith, find_if-none q is)

pub insert_item-Ascending :
    (from : ℕ) (x : Item) (items : List Item)
    → from ≤ event_time x
    → Ascending from items
    → Ascending from (insert_item x items)
unfolding insert_item
insert_item-Ascending from x [] h a = (h, tt)
insert_item-Ascending from x (i ∷ is) h (p, a) =
    elim (Bool-cases (ltb (event_time i) (event_time x))) [
      | inl earlier ↦ rw earlier (p, insert_item-Ascending (event_time i) x is (ground arith) a)
      | inr later ↦ rw later (h, (ground arith, a))
    ]

pub erase_first-Ascending :
    (q : Item → Bool) (from : ℕ) (items : List Item)
    → Ascending from items
    → Ascending from (erase_first q items)
unfolding erase_first
erase_first-Ascending q from [] a = tt
erase_first-Ascending q from (i ∷ is) (p, a) = elim (Bool-cases (q i)) [
  | inl here ↦ rw here (Ascending-le from (event_time i) is p a)
  | inr there ↦ rw there (p, erase_first-Ascending q (event_time i) is a)
]

pub count_if-le :
    (p q : Item → Bool) (items : List Item)
    → ((i : Item) → p i ≡ true → q i ≡ true)
    → count_if p items ≤ count_if q items
unfolding count_if
count_if-le p q [] h = omega arith
count_if-le p q (i ∷ is) h = ground (arith, h i, count_if-le p q is h)
