-- ===== src/Activity/Watched.antt =====
-- When the watchers of src/ClipboardActivityStore.cpp are called: NotifyWatchers runs when the mutex is
-- released, so that the calls of one operation wait while other threads are under the mutex, and threads
-- may overtake each other.
use clipp.Prelude.{
  ℕ, zero, suc, ◌≡◌, refl, ap, sym, ◌∙◌, Bool, Option, none, some, List, [], ◌∷◌, ◌++◌,
  append_assoc, append-nil, subst, length, drop, leb, ◌==◌, is_empty, All, Bool-cases, inl, inr,
}
use clipp.Bytes.{Bytes}
use clipp.Payload.{ClipboardPayload, clipp_format_none, is_zero}
use clipp.Activity.{Item, Delivery, ActivityStore, has_id, has_guid, find_if, notify_watchers}
use clipp.Activity.Trim.{apply_limits}
use clipp.Activity.Operations.{
  same_event, place_item, settle_item, add_item, set_limits, snapshot, erase_item, remove,
  remove_by_event_guid, clear, query_and_register, unregister,
}
use clipp.Activity.Calls.{
  ActivityCall, adds, sets_limits, snapshots, removes, removes_event, clears, registers,
  unregisters, act, act_all,
}

-- The store, the calls of watchers that are still to be made, and those that were.
pub record Stream : Type 0 where
  pub store : ActivityStore
  pub waiting : List Delivery
  pub made : List Delivery

-- An operation under the mutex, or one of the waiting calls.
pub data StreamStep : Type 0 where
  calls : ActivityCall → StreamStep
  delivers : ℕ → StreamStep

unfoldable pub take_at : ℕ → List Delivery → List Delivery × List Delivery
take_at k [] = ([], [])
take_at zero (d ∷ ds) = (d ∷ [], ds)
take_at (suc k) (d ∷ ds) = let (x, rest) = take_at k ds in (x, d ∷ rest)

unfoldable pub stream_step : Stream → StreamStep → Stream
unfolding take_at
stream_step r (calls c) =
    let after = act r.store c in
    record r { store = after; waiting = r.waiting ++ drop (length r.store.owed) after.owed }
stream_step r (delivers k) =
    let (x, rest) = take_at k r.waiting in record r { waiting = rest; made = r.made ++ x }

unfoldable pub stream_steps : Stream → List StreamStep → Stream
stream_steps r [] = r
stream_steps r (e ∷ es) = stream_steps (stream_step r e) es

unfoldable pub calls_in : List StreamStep → List ActivityCall
calls_in [] = []
calls_in (calls c ∷ es) = c ∷ calls_in es
calls_in (delivers k ∷ es) = calls_in es

-- The calls are made in the order of the mutex.
abbrev pub InOrder : StreamStep → Type 0
InOrder (calls c) = Unit
InOrder (delivers k) = k ≡ 0

-- What was owed stays, in front.
Owes : ActivityStore → ActivityStore → Type 0
Owes s t = (x : List Delivery) × (t.owed ≡ s.owed ++ x)

module _ (s : ActivityStore) where
  nothing-Owes : Owes s s
  unfolding Owes
  nothing-Owes = ([], sym (append-nil s.owed))

  settled-Owes :
      (p : ClipboardPayload) (now at_limits : ℕ) (e : Option Item)
      → Owes s (settle_item s at_limits (place_item s p now e).0)
  unfolding Owes settle_item place_item notify_watchers apply_limits
  settled-Owes p now at_limits none = (_, refl)
  settled-Owes p now at_limits (some i) =
      elim (Bool-cases (leb p.meta.timestamp i.payload.meta.timestamp)) [
        | inl echo ↦ rw echo nothing-Owes
        | inr newer ↦ rw newer (_, refl)
      ]

  added-Owes :
      (p : Option ClipboardPayload) (now at_limits : ℕ) → Owes s (add_item s p now at_limits).0
  unfolding add_item
  added-Owes none now at_limits = nothing-Owes
  added-Owes (some p) now at_limits = elim (Bool-cases (p.meta.format_id == clipp_format_none)) [
    | inl empty ↦ rw (add_item, empty) nothing-Owes
    | inr full ↦
        rw (add_item, full) (settled-Owes p now at_limits (same_event p.meta.event_guid s.items))
  ]

  erased-Owes : (q : Item → Bool) (e : Option Item) → Owes s (erase_item s q e).0
  unfolding Owes erase_item notify_watchers
  erased-Owes q none = nothing-Owes
  erased-Owes q (some i) = (_, refl)

  unsent-Owes : (guid : Bytes) → Owes s (remove_by_event_guid s guid).0
  unfolding remove_by_event_guid
  unsent-Owes guid = elim (Bool-cases (is_zero guid)) [
    | inl zeros ↦ rw (remove_by_event_guid, zeros) nothing-Owes
    | inr stamped ↦
        rw (remove_by_event_guid, stamped)
          (erased-Owes (has_guid guid) (find_if (has_guid guid) s.items))
  ]

  cleared-Owes : Owes s (clear s)
  unfolding Owes clear notify_watchers
  cleared-Owes = elim (Bool-cases (is_empty s.items)) [
    | inl nothing ↦ rw nothing nothing-Owes
    | inr some_items ↦ rw some_items (_, refl)
  ]

  act-Owes : (c : ActivityCall) → Owes s (act s c)
  unfolding Owes act set_limits snapshot remove query_and_register unregister notify_watchers
      apply_limits
  act-Owes (adds p now at_limits) = added-Owes p now at_limits
  act-Owes (sets_limits memory age count now) = (_, refl)
  act-Owes (snapshots now) = (_, refl)
  act-Owes (removes id) = erased-Owes (has_id id) (find_if (has_id id) s.items)
  act-Owes (removes_event guid) = unsent-Owes guid
  act-Owes clears = cleared-Owes
  act-Owes (registers watcher user_data now) = (_, refl)
  act-Owes (unregisters id) = nothing-Owes

drop-append : (xs ys : List Delivery) → drop (length xs) (xs ++ ys) ≡ ys
drop-append [] ys = refl
drop-append (x ∷ xs) ys = drop-append xs ys

-- The calls that were made and those that wait are all that are owed, in the order of the mutex.
abbrev pub IsInStep : Stream → Type 0
IsInStep r = r.made ++ r.waiting ≡ r.store.owed

pub stream_step-IsInStep :
    (r : Stream) (e : StreamStep) → InOrder e → IsInStep r → IsInStep (stream_step r e)
unfolding stream_step Owes
stream_step-IsInStep r (calls c) o v =
    let (x, more) = act-Owes r.store c in
    sym (append_assoc r.made r.waiting (drop (length r.store.owed) (act r.store c).owed))
    ∙ ap (λ l. l ++ drop (length r.store.owed) (act r.store c).owed) v
    ∙ ap (λ l. r.store.owed ++ drop (length r.store.owed) l) more
    ∙ ap (λ l. r.store.owed ++ l) (drop-append r.store.owed x)
    ∙ sym more
stream_step-IsInStep r (delivers k) o v =
    subst (λ j. IsInStep (stream_step r (delivers j))) (sym o) (first r.waiting v)
  where
    first :
        (ds : List Delivery)
        → r.made ++ ds ≡ r.store.owed
        → (r.made ++ (take_at 0 ds).0) ++ (take_at 0 ds).1 ≡ r.store.owed
    first [] h = append_assoc r.made [] [] ∙ h
    first (d ∷ ds) h = append_assoc r.made (d ∷ []) ds ∙ h

pub stream_steps-IsInStep :
    (r : Stream) (es : List StreamStep) → All InOrder es → IsInStep r → IsInStep (stream_steps r es)
unfolding stream_steps
stream_steps-IsInStep r [] o v = v
stream_steps-IsInStep r (e ∷ es) (o, os) v =
    stream_steps-IsInStep (stream_step r e) es os (stream_step-IsInStep r e o v)

pub stream_steps-store :
    (r : Stream) (es : List StreamStep) → (stream_steps r es).store ≡ act_all r.store (calls_in es)
unfolding stream_steps stream_step calls_in act_all
stream_steps-store r [] = refl
stream_steps-store r (calls c ∷ es) = stream_steps-store (stream_step r (calls c)) es
stream_steps-store r (delivers k ∷ es) = stream_steps-store (stream_step r (delivers k)) es
