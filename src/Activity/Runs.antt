-- ===== src/Activity/Runs.antt =====
-- The invariant over any sequence of calls of src/ClipboardActivityStore.cpp.
use clipp.Prelude.{
  ℕ, suc, ◌+◌, ◌%◌, ◌<◌, ◌≡◌, refl, Bool, false, Option, none, some, List, [], ◌∷◌, leb, ◌==◌,
  list_order, ℕ_order, length, is_empty, count_if, arith, Bool-cases, inl, inr,
}
use clipp.Bytes.{Bytes, u64_mod}
use clipp.Payload.{ClipboardPayload, is_zero, clipp_format_none}
use clipp.Activity.{
  Item, Update, ActivityStore, has_id, has_guid, find_if, notify_watchers, new_activity,
}
use clipp.Activity.Trim.{apply_limits}
use clipp.Activity.Operations.{
  same_event, place_item, settle_item, add_item, set_limits, snapshot, erase_item, remove,
  remove_by_event_guid, clear, query_and_register, unregister,
}
use clipp.Activity.Calls.{
  ActivityCall, adds, sets_limits, snapshots, removes, removes_event, clears, registers,
  unregisters, act, act_all,
}
use clipp.Activity.Valid.{ItemsOk, IsValid, trim-ItemsOk, find_if-none}
use clipp.Activity.Kept.{new_item-ItemsOk, moved_item-ItemsOk, erased-ItemsOk}

-- The store is valid, and its next id leaves room for `n` new items below 2 ^ 64.
pub record IsReady (n : ℕ) (s : ActivityStore) : Type 0 where
  pub id_used : 0 < s.next_item_id
  pub items_ok : ItemsOk s.next_item_id s.items
  pub room : s.next_item_id + n < u64_mod

trimmed-IsReady :
    (n now : ℕ) (s : ActivityStore) (updates : List Update)
    → IsReady n s
    → IsReady n (notify_watchers (apply_limits now (s, updates)))
unfolding notify_watchers apply_limits
trimmed-IsReady n now s updates v = record {
  id_used = v.id_used;
  items_ok = trim-ItemsOk now s.next_item_id s v.items_ok;
  room = v.room;
}

less_room : (n : ℕ) (s : ActivityStore) → IsReady (suc n) s → IsReady n s
less_room n s v = record {
  id_used = v.id_used;
  items_ok = v.items_ok;
  room = omega (arith, v.room);
}

module _ (n : ℕ) (s : ActivityStore) (v : IsReady (suc n) s) where
  pub same_event-none :
      (guid : Bytes)
      → same_event guid s.items ≡ none
      → is_zero guid ≡ false
      → count_if (has_guid guid) s.items ≡ 0
  unfolding same_event
  same_event-none guid e z = find_if-none (has_guid guid) s.items (rw z at e)

  pub same_event-some :
      (guid : Bytes) (i : Item)
      → same_event guid s.items ≡ some i
      → find_if (has_guid guid) s.items ≡ some i
  unfolding same_event
  same_event-some guid i e = ground (arith, e)

  placed-IsReady :
      (p : ClipboardPayload) (now at_limits : ℕ) (e : Option Item)
      → same_event p.meta.event_guid s.items ≡ e
      → IsReady n (settle_item s at_limits (place_item s p now e).0)
  unfolding settle_item place_item
  placed-IsReady p now at_limits none f =
      let wrapped : (s.next_item_id + 1) % u64_mod ≡ s.next_item_id + 1 = omega (arith, v.room) in
      trimmed-IsReady n at_limits _ _ (record {
        id_used = omega (arith, v.room);
        items_ok = rw wrapped (
            new_item-ItemsOk s.next_item_id now s.items p v.items_ok v.id_used
              (same_event-none p.meta.event_guid f));
        room = omega (arith, v.room);
      })
  placed-IsReady p now at_limits (some i) f =
      elim (Bool-cases (leb p.meta.timestamp i.payload.meta.timestamp)) [
        | inl echo ↦ rw echo (less_room n s v)
        | inr newer ↦ rw newer (
            trimmed-IsReady n at_limits _ _ (record {
              id_used = v.id_used;
              items_ok =
                  moved_item-ItemsOk s.next_item_id now s.items p v.items_ok i
                    (same_event-some p.meta.event_guid i f);
              room = omega (arith, v.room);
            }))
      ]

  add_item-IsReady :
      (p : Option ClipboardPayload) (now at_limits : ℕ) → IsReady n (add_item s p now at_limits).0
  unfolding add_item
  add_item-IsReady none now at_limits = less_room n s v
  add_item-IsReady (some p) now at_limits =
      elim (Bool-cases (p.meta.format_id == clipp_format_none)) [
        | inl empty ↦ rw empty (less_room n s v)
        | inr full ↦
            rw full (placed-IsReady p now at_limits (same_event p.meta.event_guid s.items) refl)
      ]

  erase_item-IsReady :
      (q : Item → Bool) (e : Option Item) → find_if q s.items ≡ e → IsReady n (erase_item s q e).0
  unfolding erase_item notify_watchers
  erase_item-IsReady q none f = less_room n s v
  erase_item-IsReady q (some i) f = record {
    id_used = v.id_used;
    items_ok = erased-ItemsOk s.next_item_id s.items q i v.items_ok f;
    room = omega (arith, v.room);
  }

  remove_by_event_guid-IsReady : (guid : Bytes) → IsReady n (remove_by_event_guid s guid).0
  unfolding remove_by_event_guid
  remove_by_event_guid-IsReady guid = elim (Bool-cases (is_zero guid)) [
    | inl zeros ↦ rw zeros (less_room n s v)
    | inr stamped ↦
        rw stamped (erase_item-IsReady (has_guid guid) (find_if (has_guid guid) s.items) refl)
  ]

  clear-IsReady : IsReady n (clear s)
  unfolding clear notify_watchers count_if
  clear-IsReady = elim (Bool-cases (is_empty s.items)) [
    | inl nothing ↦ rw nothing (less_room n s v)
    | inr some_items ↦ rw some_items (record {
      id_used = v.id_used;
      items_ok = record {
        ascending = tt;
        ids_used = refl;
        ids_distinct = λ id. omega arith;
        events_distinct = λ guid h. omega arith;
      };
      room = omega (arith, v.room);
    })
  ]

  pub act-IsReady : (c : ActivityCall) → IsReady n (act s c)
  unfolding act set_limits snapshot remove query_and_register unregister
  act-IsReady (adds p now at_limits) = add_item-IsReady p now at_limits
  act-IsReady (sets_limits memory age count now) =
      trimmed-IsReady n now _ []
        (record { id_used = v.id_used; items_ok = v.items_ok; room = omega (arith, v.room) })
  act-IsReady (snapshots now) = trimmed-IsReady n now s [] (less_room n s v)
  act-IsReady (removes id) = erase_item-IsReady (has_id id) _ refl
  act-IsReady (removes_event guid) = remove_by_event_guid-IsReady guid
  act-IsReady clears = clear-IsReady
  act-IsReady (registers watcher user_data now) =
      let w = trimmed-IsReady n now s [] (less_room n s v) in
      record { id_used = w.id_used; items_ok = w.items_ok; room = w.room }
  act-IsReady (unregisters id) = record {
    id_used = v.id_used;
    items_ok = v.items_ok;
    room = omega (arith, v.room);
  }

-- From a valid store every sequence of calls leads to a valid store, if the ids leave room for one
-- new item a call below 2 ^ 64: the items stay in the order of their events' times, their ids are
-- distinct and below the next one, and no two items are of one event.
pub act_all-IsValid :
    (s : ActivityStore) (cs : List ActivityCall)
    → s.next_item_id + length cs < u64_mod
    → IsValid s
    → IsValid (act_all s cs)
unfolding act_all
act_all-IsValid s [] h v = v
act_all-IsValid s (c ∷ cs) h (p, v) =
    let w =
      act-IsReady (length cs) s (record { id_used = p; items_ok = v; room = omega (arith, h) }) c in
    act_all-IsValid (act s c) cs w.room (w.id_used, w.items_ok)

pub new_activity-IsValid : IsValid new_activity
unfolding new_activity count_if
new_activity-IsValid = (
  omega arith,
  record {
    ascending = tt;
    ids_used = refl;
    ids_distinct = λ id. omega arith;
    events_distinct = λ guid h. omega arith;
  },
)
