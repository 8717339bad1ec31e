-- ===== src/Activity/Mirror/Steps.antt =====
-- The ids that a watcher has, under each operation of src/ClipboardActivityStore.cpp.
use clipp.Prelude.{
  ℕ, suc, ◌≤◌, ◌≡◌, ◌≢◌, refl, Bool, Option, none, some, List, [], ◌∷◌, leb, ◌==◌, is_empty,
  count_if, arith, Bool-cases, inl, inr,
}
use clipp.Bytes.{Bytes}
use clipp.Payload.{ClipboardPayload, is_zero, clipp_format_none}
use clipp.Activity.{
  Item, Update, cleared, ActivityStore, has_id, has_guid, find_if, erase_first, notify_watchers,
}
use clipp.Activity.Trim.{apply_limits}
use clipp.Activity.Operations.{
  same_event, item_of, place_item, settle_item, add_item, erase_item, remove_by_event_guid, clear,
}
use clipp.Activity.Calls.{ActivityCall, unregisters}
use clipp.Activity.Valid.{count_if-insert_item, count_if-erase_first}
use clipp.Activity.Kept.{new_item-ItemsOk, moved_item-ItemsOk}
use clipp.Activity.Runs.{IsReady, same_event-none, same_event-some}
use clipp.Activity.Mirror.{shows, Tells, apply_limits-Tells, Tracks, notify_watchers-Tracks}

-- The call does not take the watcher off.
abbrev pub Spares : ℕ → ActivityCall → Type 0
Spares w (unregisters id) = id ≢ w
Spares w c = Unit

module _ (base : ℕ → Bool) (w n : ℕ) (s : ActivityStore) (v : IsReady (suc n) s)
    (t : Tracks base w s) where
  pub limited-Tracks :
      (now : ℕ) (s' : ActivityStore) (us : List Update)
      → ((k : ℕ) → count_if (has_id k) s'.items ≤ 1)
      → Tells s (s', us)
      → Tracks base w (notify_watchers (apply_limits now (s', us)))
  limited-Tracks now s' us h e =
      notify_watchers-Tracks base w s (apply_limits now (s', us))
        (apply_limits-Tells now s s' us h e) t

  pub unchanged-Tells : Tells s (s, [])
  unfolding shows
  unchanged-Tells = record {
    same_watchers = refl;
    same_next = refl;
    same_log = refl;
    told = λ k. refl;
  }

  placed-Tracks :
      (p : ClipboardPayload) (now at_limits : ℕ) (e : Option Item)
      → same_event p.meta.event_guid s.items ≡ e
      → Tracks base w (settle_item s at_limits (place_item s p now e).0)
  unfolding settle_item place_item shows
  placed-Tracks p now at_limits none f =
      let x = item_of s.next_item_id now p in
      let ok =
        new_item-ItemsOk s.next_item_id now s.items p v.items_ok v.id_used
          (same_event-none n s v p.meta.event_guid f) in
      limited-Tracks at_limits _ _ ok.ids_distinct (record {
        same_watchers = refl;
        same_next = refl;
        same_log = refl;
        told = λ k. ground (arith, count_if-insert_item (has_id k) x s.items);
      })
  placed-Tracks p now at_limits (some i) f =
      elim (Bool-cases (leb p.meta.timestamp i.payload.meta.timestamp)) [
        | inl echo ↦ rw echo t
        | inr newer ↦
            let g = p.meta.event_guid in
            let x = item_of i.header.id now p in
            let found = same_event-some n s v g i f in
            let ok = moved_item-ItemsOk s.next_item_id now s.items p v.items_ok i found in
            rw newer (
              limited-Tracks at_limits _ _ ok.ids_distinct (record {
                same_watchers = refl;
                same_next = refl;
                same_log = refl;
                told = λ k. ground (
                  arith,
                  count_if-insert_item (has_id k) x (erase_first (has_guid g) s.items),
                  (count_if-erase_first (has_id k) (has_guid g) s.items i found).0,
                );
              }))
      ]

  pub add_item-Tracks :
      (p : Option ClipboardPayload) (now at_limits : ℕ)
      → Tracks base w (add_item s p now at_limits).0
  unfolding add_item
  add_item-Tracks none now at_limits = t
  add_item-Tracks (some p) now at_limits =
      elim (Bool-cases (p.meta.format_id == clipp_format_none)) [
        | inl empty ↦ rw empty t
        | inr full ↦
            rw full (placed-Tracks p now at_limits (same_event p.meta.event_guid s.items) refl)
      ]

  pub erase_item-Tracks :
      (q : Item → Bool) (e : Option Item)
      → find_if q s.items ≡ e
      → Tracks base w (erase_item s q e).0
  unfolding erase_item shows
  erase_item-Tracks q none f = t
  erase_item-Tracks q (some i) f =
      notify_watchers-Tracks base w s _
        (record {
          same_watchers = refl;
          same_next = refl;
          same_log = refl;
          told = λ k.
              ground (
                arith,
                (count_if-erase_first (has_id k) q s.items i f).0,
                v.items_ok.ids_distinct k,
              );
        })
        t

  pub remove_by_event_guid-Tracks : (guid : Bytes) → Tracks base w (remove_by_event_guid s guid).0
  unfolding remove_by_event_guid
  remove_by_event_guid-Tracks guid = elim (Bool-cases (is_zero guid)) [
    | inl zeros ↦ rw zeros t
    | inr stamped ↦
        rw stamped (erase_item-Tracks (has_guid guid) (find_if (has_guid guid) s.items) refl)
  ]

  pub clear-Tracks : Tracks base w (clear s)
  unfolding clear shows count_if
  clear-Tracks = elim (Bool-cases (is_empty s.items)) [
    | inl nothing ↦ rw nothing t
    | inr some_items ↦ rw some_items (
        notify_watchers-Tracks base w s (record s { items = [] }, cleared ∷ [])
          (record { same_watchers = refl; same_next = refl; same_log = refl; told = λ k. refl }) t)
  ]
