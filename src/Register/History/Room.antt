-- ===== src/Register/History/Room.antt =====
-- How far the counter of the clock can rise over a sequence of calls, and the invariant over one.
use clipp.Prelude.{ℕ, suc, Bool, List, [], ◌∷◌, All, length, arith, true, false}
use clipp.Bytes.{Bytes}
use clipp.Clock.{hlc_order, now, witness, seed_floor}
use clipp.Clock.Advance.{HasRoom, HasRoom-le}
use clipp.Register.{RegisterRecord}
use clipp.Register.Store.{
  RegisterStore, WriteResult, ok, DeleteResult, deleted, not_found, prune_expired, notify_changed,
  write, seed_clock_floor, set_local_host, set_limits, add_change_listener,
}
use clipp.Register.Originate.{
  upsert_locked, upsert, upsert_from, upsert_with_flags, read, delete_locked, delete, delete_from,
  mirror_default, notify_if_ok, notify_if_deleted,
}
use clipp.Register.Inspect.{
  list_names, list_records, digest, snapshot_for_sync, get_for_broadcast, records_to_push,
  plan_push, apply_remote_locked, apply_remote, notify_if_changed,
}
use clipp.Register.Invariant.{IsValid}
use clipp.Register.History.{
  StoreCall, upserts, upserts_from, upserts_with_flags, reads, deletes, deletes_from, mirrors, gets,
  applies, seeds, perform, perform_all,
}
use clipp.Register.History.Valid.{perform-IsValid}

-- The timestamps that a call brings in leave room for `n` more ticks.
abbrev pub CallHasRoom : ℕ → StoreCall → Type 0
CallHasRoom n (applies r t) = HasRoom n r.written × HasRoom n r.touched
CallHasRoom n (seeds floor) = HasRoom n floor
CallHasRoom n c = Unit

module _ (n : ℕ) (s : RegisterStore) (h : HasRoom (suc n) s.clock.last) where
  stay : HasRoom n s.clock.last
  stay = omega arith

  tick : (t : ℕ) → HasRoom n (now s.clock t).last
  unfolding now
  tick t = ground arith

  upsert_locked-HasRoom :
      (name value : Bytes) (flags : ℕ) (origin : Bytes) (t u w : ℕ)
      → HasRoom n (upsert_locked s name value flags origin t u w).0.clock.last
  unfolding upsert_locked prune_expired write
  upsert_locked-HasRoom name value flags origin t u w = ground (arith, stay, tick w)

  read-HasRoom : (name : Bytes) (t u : ℕ) → HasRoom n (read s name t u).0.clock.last
  unfolding read notify_changed
  read-HasRoom name t u = ground (arith, stay, tick u)

  delete_locked-HasRoom :
      (name origin : Bytes) (t u : ℕ) → HasRoom n (delete_locked s name origin t u).0.clock.last
  unfolding delete_locked
  delete_locked-HasRoom name origin t u = ground (arith, stay, tick u)

  get-HasRoom : (name : Bytes) (t : ℕ) → HasRoom n (get_for_broadcast s name t).0.clock.last
  unfolding get_for_broadcast
  get-HasRoom name t = ground (arith, stay)

  witness-HasRoom :
      (r : RegisterRecord)
      → HasRoom (suc n) r.written
      → HasRoom (suc n) r.touched
      → HasRoom n (witness (witness s.clock r.written) r.touched).last
  unfolding witness
  witness-HasRoom r a b = ground arith

  apply_remote_locked-HasRoom :
      (r : RegisterRecord) (t : ℕ)
      → HasRoom (suc n) r.written
      → HasRoom (suc n) r.touched
      → HasRoom n (apply_remote_locked s r t).0.clock.last
  unfolding apply_remote_locked
  apply_remote_locked-HasRoom r t a b = ground (arith, stay, witness-HasRoom r a b)

abbrev RoomAfter : ℕ → RegisterStore → Type 0
RoomAfter n s = HasRoom n s.clock.last

notify_if_ok-HasRoom :
    (n : ℕ) (p : RegisterStore × WriteResult) → RoomAfter n (p.0) → RoomAfter n (notify_if_ok p).0
unfolding notify_changed
notify_if_ok-HasRoom n (s, ok) h = h
notify_if_ok-HasRoom n (s, r) h = h

notify_if_deleted-HasRoom :
    (n : ℕ) (p : RegisterStore × DeleteResult)
    → RoomAfter n (p.0)
    → RoomAfter n (notify_if_deleted p).0
unfolding notify_changed
notify_if_deleted-HasRoom n (s, deleted) h = h
notify_if_deleted-HasRoom n (s, not_found) h = h

notify_if_changed-HasRoom :
    (n : ℕ) (p : RegisterStore × Bool) → RoomAfter n (p.0) → RoomAfter n (notify_if_changed p).0
unfolding notify_changed
notify_if_changed-HasRoom n (s, true) h = h
notify_if_changed-HasRoom n (s, false) h = h

perform-HasRoom :
    (n : ℕ) (s : RegisterStore) (c : StoreCall)
    → HasRoom (suc n) s.clock.last
    → CallHasRoom (suc n) c
    → HasRoom n (perform s c).clock.last
unfolding perform upsert upsert_from upsert_with_flags delete delete_from mirror_default list_names
    list_records digest snapshot_for_sync records_to_push plan_push apply_remote seed_clock_floor
    set_local_host set_limits add_change_listener prune_expired write seed_floor
perform-HasRoom n s (upserts name value p t u w) h k =
    notify_if_ok-HasRoom n _ (upsert_locked-HasRoom n s h name value _ s.local_host t u w)
perform-HasRoom n s (upserts_from name value p origin t u w) h k =
    notify_if_ok-HasRoom n _ (upsert_locked-HasRoom n s h name value _ origin t u w)
perform-HasRoom n s (upserts_with_flags name value flags origin t u w) h k =
    notify_if_ok-HasRoom n _ (upsert_locked-HasRoom n s h name value flags origin t u w)
perform-HasRoom n s (reads name t u) h k = read-HasRoom n s h name t u
perform-HasRoom n s (deletes name t u) h k =
    notify_if_deleted-HasRoom n _ (delete_locked-HasRoom n s h name s.local_host t u)
perform-HasRoom n s (deletes_from name origin t u) h k =
    notify_if_deleted-HasRoom n _ (delete_locked-HasRoom n s h name origin t u)
perform-HasRoom n s (mirrors value t) h k = tick n s h t
perform-HasRoom n s (gets name t) h k = get-HasRoom n s h name t
perform-HasRoom n s (applies r t) h k =
    notify_if_changed-HasRoom n _ (apply_remote_locked-HasRoom n s h r t k.0 k.1)
perform-HasRoom n s (seeds floor) h k = ground arith
perform-HasRoom n s c h k = stay n s h

CallHasRoom-suc : (n : ℕ) (c : StoreCall) → CallHasRoom (suc n) c → CallHasRoom n c
CallHasRoom-suc n (applies r t) h = omega arith
CallHasRoom-suc n (seeds floor) h = omega arith
CallHasRoom-suc n c h = tt

AllHasRoom-suc :
    (n : ℕ) (cs : List StoreCall) → All (CallHasRoom (suc n)) cs → All (CallHasRoom n) cs
AllHasRoom-suc n [] h = tt
AllHasRoom-suc n (c ∷ cs) (k, h) = (CallHasRoom-suc n c k, AllHasRoom-suc n cs h)

-- From a valid store every sequence of calls leads to a valid store, if the counters of its clock
-- and of the timestamps that come in leave room below 2 ^ 64 for one tick a call.
pub perform_all-IsValid :
    (s : RegisterStore) (cs : List StoreCall)
    → HasRoom (length cs) s.clock.last
    → All (CallHasRoom (length cs)) cs
    → IsValid s
    → IsValid (perform_all s cs)
unfolding perform_all
perform_all-IsValid s [] h k v = v
perform_all-IsValid s (c ∷ cs) h (kc, k) v =
    perform_all-IsValid (perform s c) cs (perform-HasRoom (length cs) s c h kc)
      (AllHasRoom-suc (length cs) cs k)
      (perform-IsValid s c (HasRoom-le 1 (length (c ∷ cs)) s.clock.last (omega arith) h) v)
