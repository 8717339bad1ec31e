-- ===== src/Activity/Mirror/Follow.antt =====
-- A watcher of src/ClipboardActivityStore.cpp from its registration on.
use clipp.Prelude.{
  ℕ, suc, ◌+◌, ◌≤◌, ◌<◌, ◌≡◌, ◌≢◌, refl, ◌∙◌, Bool, not, Option, none, some, List, [], ◌∷◌, ◌++◌,
  leb, ◌==◌, length, keep_if, count_if, All, arith, Bool-cases, inl, inr,
}
use clipp.Bytes.{u64_mod}
use clipp.Activity.{
  Item, WatcherRegistration, ActivityStore, has_id, has_guid, find_if, notify_watchers,
}
use clipp.Activity.Trim.{apply_limits}
use clipp.Payload.{ClipboardPayload, clipp_format_none}
use clipp.Activity.Operations.{
  same_event, place_item, settle_item, add_item, erase_item, remove_by_event_guid, clear,
  set_limits, snapshot, remove, query_and_register, unregister,
}
use clipp.Activity.Calls.{
  ActivityCall, adds, sets_limits, snapshots, removes, removes_event, clears, registers,
  unregisters, act, act_all,
}
use clipp.Activity.Runs.{IsReady, act-IsReady}
use clipp.Activity.Mirror.{shows, listens, Tracks}
use clipp.Activity.Mirror.Steps.{
  Spares, limited-Tracks, unchanged-Tells, add_item-Tracks, erase_item-Tracks,
  remove_by_event_guid-Tracks, clear-Tracks,
}

pub count_if-append :
    {A : Type 0} (p : A → Bool) (xs ys : List A)
    → count_if p (xs ++ ys) ≡ count_if p xs + count_if p ys
unfolding count_if
count_if-append p [] ys = omega arith
count_if-append p (x ∷ xs) ys = ground (arith, count_if-append p xs ys)

-- Another watcher's registration goes, this one stays.
listens-keep_if :
    (w id : ℕ) (ws : List WatcherRegistration)
    → id ≢ w
    → count_if (listens w) (keep_if (λ (r : WatcherRegistration). not (r.watcher_id == id)) ws)
      ≡ count_if (listens w) ws
unfolding keep_if count_if
listens-keep_if w id [] h = refl
listens-keep_if w id (r ∷ ws) h = ground (arith, listens-keep_if w id ws h, h)

module _ (base : ℕ → Bool) (w n : ℕ) (s : ActivityStore) (v : IsReady (suc n) s)
    (t : Tracks base w s) where
  remaining-Tracks : (id : ℕ) → id ≢ w → Tracks base w (unregister s id)
  unfolding unregister
  remaining-Tracks id h = record {
    listening = listens-keep_if w id s.watchers h ∙ t.listening;
    older = t.older;
    mirrored = t.mirrored;
  }

  joined-Tracks :
      (watcher : Option ℕ) (user_data now : ℕ)
      → s.next_watcher_id + 1 < u64_mod
      → Tracks base w (query_and_register s watcher user_data now).0
  unfolding query_and_register notify_watchers apply_limits count_if
  joined-Tracks watcher user_data now room =
      let u =
        limited-Tracks base w n s v t now s [] v.items_ok.ids_distinct
          (unchanged-Tells base w n s v t) in
      let r : WatcherRegistration = record {
        watcher_id = s.next_watcher_id;
        watcher = watcher;
        user_data = user_data;
      } in
      record {
        listening =
            ground (arith, count_if-append (listens w) s.watchers (r ∷ []), t.listening, t.older);
        older = omega (arith, t.older, room);
        mirrored = u.mirrored;
      }

  act-Tracks :
      (c : ActivityCall) → Spares w c → s.next_watcher_id + 1 < u64_mod → Tracks base w (act s c)
  unfolding act set_limits snapshot remove
  act-Tracks (adds p now at_limits) k r = add_item-Tracks base w n s v t p now at_limits
  act-Tracks (sets_limits memory age count now) k r =
      limited-Tracks base w n s v t now _ [] v.items_ok.ids_distinct (record {
        same_watchers = refl;
        same_next = refl;
        same_log = refl;
        told = λ j. unfold shows in refl;
      })
  act-Tracks (snapshots now) k r =
      limited-Tracks base w n s v t now s [] v.items_ok.ids_distinct
        (unchanged-Tells base w n s v t)
  act-Tracks (removes id) k r = erase_item-Tracks base w n s v t (has_id id) _ refl
  act-Tracks (removes_event guid) k r = remove_by_event_guid-Tracks base w n s v t guid
  act-Tracks clears k r = clear-Tracks base w n s v t
  act-Tracks (registers watcher user_data now) k r = joined-Tracks watcher user_data now r
  act-Tracks (unregisters id) k r = remaining-Tracks id k

-- The next id of a watcher, after each operation.
module _ (s : ActivityStore) where
  settled-next_watcher_id :
      (p : ClipboardPayload) (now at_limits : ℕ) (e : Option Item)
      → (settle_item s at_limits (place_item s p now e).0).next_watcher_id ≡ s.next_watcher_id
  unfolding settle_item place_item notify_watchers apply_limits
  settled-next_watcher_id p now at_limits none = refl
  settled-next_watcher_id p now at_limits (some i) =
      elim (Bool-cases (leb p.meta.timestamp i.payload.meta.timestamp)) [
        | inl echo ↦ rw echo refl
        | inr newer ↦ rw newer refl
      ]

  added-next_watcher_id :
      (p : Option ClipboardPayload) (now at_limits : ℕ)
      → (add_item s p now at_limits).0.next_watcher_id ≡ s.next_watcher_id
  unfolding add_item
  added-next_watcher_id none now at_limits = refl
  added-next_watcher_id (some p) now at_limits =
      elim (Bool-cases (p.meta.format_id == clipp_format_none)) [
        | inl empty ↦ rw empty refl
        | inr full ↦
            rw full (settled-next_watcher_id p now at_limits (same_event p.meta.event_guid s.items))
      ]

  erased-next_watcher_id :
      (q : Item → Bool) (e : Option Item) → (erase_item s q e).0.next_watcher_id ≡ s.next_watcher_id
  unfolding erase_item notify_watchers
  erased-next_watcher_id q none = refl
  erased-next_watcher_id q (some i) = refl

  pub act-next_watcher_id :
      (c : ActivityCall)
      → s.next_watcher_id + 1 < u64_mod
      → (act s c).next_watcher_id ≤ s.next_watcher_id + 1
  unfolding act set_limits snapshot remove remove_by_event_guid clear query_and_register unregister
      notify_watchers apply_limits
  act-next_watcher_id (adds p now at_limits) r =
      omega (arith, added-next_watcher_id p now at_limits)
  act-next_watcher_id (sets_limits memory age count now) r = omega arith
  act-next_watcher_id (snapshots now) r = omega arith
  act-next_watcher_id (removes id) r =
      omega (arith, erased-next_watcher_id (has_id id) (find_if (has_id id) s.items))
  act-next_watcher_id (removes_event guid) r =
      ground (arith, erased-next_watcher_id (has_guid guid) (find_if (has_guid guid) s.items))
  act-next_watcher_id clears r = ground arith
  act-next_watcher_id (registers watcher user_data now) r = omega arith
  act-next_watcher_id (unregisters id) r = omega arith

pub act_all-Tracks :
    (base : ℕ → Bool) (w : ℕ) (s : ActivityStore) (cs : List ActivityCall)
    → IsReady (length cs) s
    → s.next_watcher_id + length cs < u64_mod
    → All (Spares w) cs
    → Tracks base w s
    → Tracks base w (act_all s cs)
unfolding act_all
act_all-Tracks base w s [] v r a t = t
act_all-Tracks base w s (c ∷ cs) v r (h, a) t =
    act_all-Tracks base w (act s c) cs (act-IsReady (length cs) s v c)
      (omega (arith, r, act-next_watcher_id s c (omega (arith, r)))) a
      (act-Tracks base w (length cs) s v t c h (omega (arith, r)))
