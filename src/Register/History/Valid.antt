-- ===== src/Register/History/Valid.antt =====
-- The invariant of the store over any sequence of calls.
use clipp.Prelude.{[], less-max_of_left}
use clipp.Clock.{hlc_order, seed_floor}
use clipp.Clock.Advance.{HasRoom}
use clipp.Register.Store.{
  RegisterStore, seed_clock_floor, set_local_host, set_limits, add_change_listener,
}
use clipp.Register.Originate.{
  upsert, upsert_from, upsert_with_flags, delete, delete_from, mirror_default,
}
use clipp.Register.Inspect.{
  list_names, list_records, digest, snapshot_for_sync, records_to_push, plan_push, apply_remote,
}
use clipp.Register.Invariant.{IsValid, prune_expired-IsValid, clock-IsValid}
use clipp.Register.Invariant.Steps.{
  write-IsValid, upsert_locked-IsValid, notify_if_ok-IsValid, read-IsValid, delete_locked-IsValid,
  notify_if_deleted-IsValid, get_for_broadcast-IsValid, apply_remote_locked-IsValid,
  notify_if_changed-IsValid,
}
use clipp.Register.History.{
  StoreCall, upserts, upserts_from, upserts_with_flags, reads, deletes, deletes_from, mirrors,
  lists_names, lists_records, digests, snapshots, gets, plans, pushes, applies, sets_host,
  sets_limits, seeds, listens, perform,
}

-- Every call keeps the names in order, every record under its own name, and the clock at or above
-- every timestamp that is held, if the counter of the clock is not at its maximum.
pub perform-IsValid :
    (s : RegisterStore) (c : StoreCall) → HasRoom 1 s.clock.last → IsValid s → IsValid (perform s c)
unfolding perform upsert upsert_from upsert_with_flags delete delete_from mirror_default list_names
    list_records digest snapshot_for_sync records_to_push plan_push apply_remote seed_clock_floor
    set_local_host set_limits add_change_listener
perform-IsValid s (upserts name value p t u w) h v =
    notify_if_ok-IsValid _ (upsert_locked-IsValid s name value _ s.local_host t u w v h)
perform-IsValid s (upserts_from name value p origin t u w) h v =
    notify_if_ok-IsValid _ (upsert_locked-IsValid s name value _ origin t u w v h)
perform-IsValid s (upserts_with_flags name value flags origin t u w) h v =
    notify_if_ok-IsValid _ (upsert_locked-IsValid s name value flags origin t u w v h)
perform-IsValid s (reads name t u) h v = read-IsValid s name t u v h
perform-IsValid s (deletes name t u) h v =
    notify_if_deleted-IsValid _ (delete_locked-IsValid s name s.local_host t u v h)
perform-IsValid s (deletes_from name origin t u) h v =
    notify_if_deleted-IsValid _ (delete_locked-IsValid s name origin t u v h)
perform-IsValid s (mirrors value t) h v = write-IsValid s [] value 0 s.local_host t v h
perform-IsValid s (lists_names t u) h v = prune_expired-IsValid s t v
perform-IsValid s (lists_records t u) h v = prune_expired-IsValid s t v
perform-IsValid s (digests t) h v = prune_expired-IsValid s t v
perform-IsValid s (snapshots t) h v = prune_expired-IsValid s t v
perform-IsValid s (gets name t) h v = get_for_broadcast-IsValid s name t v
perform-IsValid s (plans remote t) h v = prune_expired-IsValid s t v
perform-IsValid s (pushes remote t) h v = prune_expired-IsValid s t v
perform-IsValid s (applies r t) h v =
    notify_if_changed-IsValid _ (apply_remote_locked-IsValid s r v t)
perform-IsValid s (sets_host host) h v = record { sorted = v.sorted; entries = v.entries }
perform-IsValid s (sets_limits ttl count bytes) h v = record {
  sorted = v.sorted;
  entries = v.entries;
}
perform-IsValid s (seeds floor) h v =
    clock-IsValid s _ v (unfold seed_floor in less-max_of_left s.clock.last floor)
perform-IsValid s (listens l) h v = record { sorted = v.sorted; entries = v.entries }
