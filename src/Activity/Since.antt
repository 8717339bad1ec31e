-- ===== src/Activity/Since.antt =====
-- ItemsSince of src/ClipboardActivityStore.cpp: what a peer is given that names the last event it has.
use clipp.Prelude.{
  ℕ, ◌≤◌, ◌≡◌, refl, subst, true, false, some, List, [], ◌∷◌, ◌++◌, map, list_order, ℕ_order,
  list_beq_iff, take, count_if, arith,
}
use clipp.Bytes.{Bytes}
use clipp.Payload.{is_zero}
use clipp.Activity.{Item, ActivityStore, guid_of, has_guid}
use clipp.Activity.Operations.{items_after, payload_of, items_since}
use clipp.Activity.Valid.{IsValid}

items_after-append :
    (guid : Bytes) (before later : List Item) (e : Item)
    → has_guid guid e ≡ true
    → count_if (has_guid guid) (before ++ e ∷ later) ≤ 1
    → items_after guid (before ++ e ∷ later) ≡ some later
unfolding items_after count_if
items_after-append guid [] later e h c = rw h refl
items_after-append guid (i ∷ is) later e h c =
    let here = found (is) in
    let other : has_guid guid i ≡ false = ground (arith, c, here) in
    rw other (items_after-append guid is later e h (ground (arith, c)))
  where
    found : (is : List Item) → 1 ≤ count_if (has_guid guid) (is ++ e ∷ later)
    found [] = ground (arith, h)
    found (j ∷ js) = ground (arith, found js)

-- Of a valid store, a peer that names the event of an item that the store has, and that has a guid,
-- is given the payloads of the items right behind that item, in their order, as many as it asks for.
pub items_since-append :
    (s : ActivityStore) (before later : List Item) (e : Item) (n : ℕ)
    → IsValid s
    → s.items ≡ before ++ e ∷ later
    → is_zero (guid_of e) ≡ false
    → items_since s (guid_of e) n ≡ map payload_of (take n later)
unfolding items_since
items_since-append s before later e n (p, v) q z =
    let found : items_after (guid_of e) s.items ≡ some later = rw q (
      items_after-append (guid_of e) before later e ((list_beq_iff (guid_of e) (guid_of e)).1 refl)
        (subst (λ is. count_if (has_guid (guid_of e)) is ≤ 1) q
          (v.events_distinct (guid_of e) z))) in
    rw z (rw found refl)
