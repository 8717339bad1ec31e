-- ===== src/Register/Originate.antt =====
-- The operations of RegisterStore (src/RegisterStore.cpp) that originate local changes, and Read.
use clipp.Prelude.{
  ℕ, Bool, not, ◌&&◌, Option, none, some, [], ltb, leb, length, list_order, ℕ_order, if◌then◌else◌,
}
use clipp.Bytes.{Bytes}
use clipp.Clock.{now}
use clipp.OrderedMap.{find, insert_or_assign, erase}
use clipp.Register.{RegisterRecord, is_tombstone, is_expired, tombstone_flag, private_flag}
use clipp.Register.Name.{is_valid_register_name}
use clipp.Register.Store.{
  RegisterStore, WriteResult, ok, invalid_name, value_too_large, cap_exceeded, DeleteResult,
  deleted, not_found, notify_changed, prune_expired, live_count, is_live_value, write,
}

-- UpsertLocked. The clock is read for the pruning, for the live count and for the timestamp.
unfoldable pub upsert_locked :
    RegisterStore → Bytes → Bytes → ℕ → Bytes → ℕ → ℕ → ℕ → RegisterStore × WriteResult
upsert_locked s name value value_flags origin at_prune at_count at_write =
    if not (is_valid_register_name name)
    then (s, invalid_name)
    else if ltb s.max_value_bytes (length value)
    then (s, value_too_large)
    else let p = prune_expired s at_prune in
      if not (is_live_value (find name p.records)) && leb p.max_count (live_count p at_count)
      then (p, cap_exceeded)
      else (write p name value value_flags origin at_write, ok)

abbrev pub notify_if_ok : RegisterStore × WriteResult → RegisterStore × WriteResult
notify_if_ok (s, ok) = (notify_changed s, ok)
notify_if_ok (s, r) = (s, r)

-- UpsertWithFlags
unfoldable pub upsert_with_flags :
    RegisterStore → Bytes → Bytes → ℕ → Bytes → ℕ → ℕ → ℕ → RegisterStore × WriteResult
upsert_with_flags s name value value_flags origin at_prune at_count at_write =
    notify_if_ok (upsert_locked s name value value_flags origin at_prune at_count at_write)

abbrev pub private_bits : Bool → ℕ
private_bits is_private = if is_private then private_flag else 0

-- The two overloads of Upsert.
unfoldable pub upsert_from :
    RegisterStore → Bytes → Bytes → Bool → Bytes → ℕ → ℕ → ℕ → RegisterStore × WriteResult
upsert_from s name value is_private origin at_prune at_count at_write =
    notify_if_ok
      (upsert_locked s name value (private_bits is_private) origin at_prune at_count at_write)

unfoldable pub upsert :
    RegisterStore → Bytes → Bytes → Bool → ℕ → ℕ → ℕ → RegisterStore × WriteResult
upsert s name value is_private at_prune at_count at_write =
    notify_if_ok
      (upsert_locked s name value (private_bits is_private) s.local_host at_prune at_count at_write)

abbrev pub drop_record : RegisterStore → Bytes → RegisterStore
drop_record s name = record s { records = erase name s.records }

-- Read: an expired record is dropped, a live one is touched.
unfoldable pub read : RegisterStore → Bytes → ℕ → ℕ → RegisterStore × Option RegisterRecord
read s name at_check at_touch = elim (find name s.records) [
  | none ↦ (s, none)
  | some r ↦
      if is_expired r at_check s.ttl_ms
      then (drop_record s name, none)
      else if is_tombstone r
      then (s, none)
      else let c = now s.clock at_touch in
        let touched_record = record r { touched = c.last } in
        (
          notify_changed
              (record s { clock = c; records = insert_or_assign name touched_record s.records }),
          some touched_record,
        )
]

-- DeleteLocked: a live value becomes a tombstone.
unfoldable pub delete_locked : RegisterStore → Bytes → Bytes → ℕ → ℕ → RegisterStore × DeleteResult
delete_locked s name origin at_check at_write = elim (find name s.records) [
  | none ↦ (s, not_found)
  | some r ↦
      if is_expired r at_check s.ttl_ms
      then (drop_record s name, not_found)
      else if is_tombstone r
      then (s, not_found)
      else let c = now s.clock at_write in
        let tombstone = record r {
          value = [];
          written = c.last;
          touched = c.last;
          origin_host_id = origin;
          flags = tombstone_flag;
        } in
        (record s { clock = c; records = insert_or_assign name tombstone s.records }, deleted)
]

abbrev pub notify_if_deleted : RegisterStore × DeleteResult → RegisterStore × DeleteResult
notify_if_deleted (s, deleted) = (notify_changed s, deleted)
notify_if_deleted (s, not_found) = (s, not_found)

-- The two overloads of Delete.
unfoldable pub delete_from : RegisterStore → Bytes → Bytes → ℕ → ℕ → RegisterStore × DeleteResult
delete_from s name origin at_check at_write =
    notify_if_deleted (delete_locked s name origin at_check at_write)

unfoldable pub delete : RegisterStore → Bytes → ℕ → ℕ → RegisterStore × DeleteResult
delete s name at_check at_write =
    notify_if_deleted (delete_locked s name s.local_host at_check at_write)

-- MirrorDefault: the record under the empty name.
unfoldable pub mirror_default : RegisterStore → Bytes → ℕ → RegisterStore
mirror_default s value now_ms = write s [] value 0 s.local_host now_ms
