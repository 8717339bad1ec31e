-- ===== src/Register/History.antt =====
-- Sequences of calls on one RegisterStore: its public operations as events, with the wall-clock
-- readings that each call makes. The mutex makes every interleaving of threads such a sequence.
pub mod Valid
pub mod Room
use clipp.Prelude.{ℕ, Bool, Option, List, [], ◌∷◌}
use clipp.Bytes.{Bytes}
use clipp.Clock.{Hlc}
use clipp.Register.{RegisterRecord, RegisterDigestEntry}
use clipp.Register.Store.{
  RegisterStore, set_local_host, set_limits, add_change_listener, seed_clock_floor,
}
use clipp.Register.Originate.{
  upsert, upsert_from, upsert_with_flags, read, delete, delete_from, mirror_default,
}
use clipp.Register.Inspect.{
  list_names, list_records, digest, snapshot_for_sync, get_for_broadcast, records_to_push,
  plan_push, apply_remote,
}

pub data StoreCall : Type 0 where
  upserts : Bytes → Bytes → Bool → ℕ → ℕ → ℕ → StoreCall
  upserts_from : Bytes → Bytes → Bool → Bytes → ℕ → ℕ → ℕ → StoreCall
  upserts_with_flags : Bytes → Bytes → ℕ → Bytes → ℕ → ℕ → ℕ → StoreCall
  reads : Bytes → ℕ → ℕ → StoreCall
  deletes : Bytes → ℕ → ℕ → StoreCall
  deletes_from : Bytes → Bytes → ℕ → ℕ → StoreCall
  mirrors : Bytes → ℕ → StoreCall
  lists_names lists_records : ℕ → ℕ → StoreCall
  digests snapshots : ℕ → StoreCall
  gets : Bytes → ℕ → StoreCall
  plans pushes : List RegisterDigestEntry → ℕ → StoreCall
  applies : RegisterRecord → ℕ → StoreCall
  sets_host : Bytes → StoreCall
  sets_limits : ℕ → ℕ → ℕ → StoreCall
  seeds : Hlc → StoreCall
  listens : Option ℕ → StoreCall

unfoldable pub perform : RegisterStore → StoreCall → RegisterStore
perform s (upserts name value p t u w) = (upsert s name value p t u w).0
perform s (upserts_from name value p origin t u w) = (upsert_from s name value p origin t u w).0
perform s (upserts_with_flags name value flags origin t u w) =
    (upsert_with_flags s name value flags origin t u w).0
perform s (reads name t u) = (read s name t u).0
perform s (deletes name t u) = (delete s name t u).0
perform s (deletes_from name origin t u) = (delete_from s name origin t u).0
perform s (mirrors value t) = mirror_default s value t
perform s (lists_names t u) = (list_names s t u).0
perform s (lists_records t u) = (list_records s t u).0
perform s (digests t) = (digest s t).0
perform s (snapshots t) = (snapshot_for_sync s t).0
perform s (gets name t) = (get_for_broadcast s name t).0
perform s (plans remote t) = (plan_push s remote t).0
perform s (pushes remote t) = (records_to_push s remote t).0
perform s (applies r t) = (apply_remote s r t).0
perform s (sets_host host) = set_local_host s host
perform s (sets_limits ttl count bytes) = set_limits s ttl count bytes
perform s (seeds floor) = seed_clock_floor s floor
perform s (listens l) = add_change_listener s l

unfoldable pub perform_all : RegisterStore → List StoreCall → RegisterStore
perform_all s [] = s
perform_all s (c ∷ cs) = perform_all (perform s c) cs
