-- ===== src/Register/Inspect.antt =====
-- The inspection and replication surfaces of RegisterStore (src/RegisterStore.cpp). Those that prune
-- return the store as well.
use clipp.Prelude.{
  ℕ, Bool, true, false, not, ◌&&◌, ◌||◌, Option, none, some, List, [], ◌∷◌, is_empty, keep_if, map,
  less, beq, list_order, ℕ_order, if◌then◌else◌,
}
use clipp.Bytes.{Bytes}
use clipp.Clock.{hlc_order, witness}
use clipp.OrderedMap.{find, insert_or_assign}
use clipp.Register.{
  RegisterRecord, RegisterDigestEntry, is_tombstone, is_expired, merge_records, same_record,
}
use clipp.Register.Store.{RegisterStore, notify_changed, prune_expired}
use clipp.Register.Originate.{drop_record}

abbrev pub lists : ℕ → ℕ → Bytes × RegisterRecord → Bool
lists now_ms ttl (name, r) = not (is_tombstone r) && not (is_expired r now_ms ttl)

-- ListNames
unfoldable pub list_names : RegisterStore → ℕ → ℕ → RegisterStore × List Bytes
list_names s at_prune now_ms =
    let p = prune_expired s at_prune in
    (p, map (λ e. e.0) (keep_if (lists now_ms p.ttl_ms) p.records))

-- List
unfoldable pub list_records : RegisterStore → ℕ → ℕ → RegisterStore × List RegisterRecord
list_records s at_prune now_ms =
    let p = prune_expired s at_prune in
    (p, map (λ e. e.1) (keep_if (lists now_ms p.ttl_ms) p.records))

-- `if (name.empty()) continue;`
abbrev pub replicates : Bytes × RegisterRecord → Bool
replicates (name, r) = not (is_empty name)

abbrev pub digest_entry : Bytes × RegisterRecord → RegisterDigestEntry
digest_entry (name, r) = record { name = name; written = r.written; touched = r.touched }

-- Digest
unfoldable pub digest : RegisterStore → ℕ → RegisterStore × List RegisterDigestEntry
digest s at_prune =
    let p = prune_expired s at_prune in (p, map digest_entry (keep_if replicates p.records))

-- SnapshotForSync
unfoldable pub snapshot_for_sync : RegisterStore → ℕ → RegisterStore × List RegisterRecord
snapshot_for_sync s at_prune =
    let p = prune_expired s at_prune in (p, map (λ e. e.1) (keep_if replicates p.records))

-- GetForBroadcast
unfoldable pub get_for_broadcast : RegisterStore → Bytes → ℕ → RegisterStore × Option RegisterRecord
get_for_broadcast s name now_ms = elim (find name s.records) [
  | none ↦ (s, none)
  | some r ↦ if is_expired r now_ms s.ttl_ms then (drop_record s name, none) else (s, some r)
]

-- The map built with `emplace`, which keeps the first entry of a name.
unfoldable pub find_entry : Bytes → List RegisterDigestEntry → Option RegisterDigestEntry
find_entry name [] = none
find_entry name (e ∷ es) = if beq name e.name then some e else find_entry name es

-- Whether a record goes to a peer with this entry for its name.
unfoldable pub is_newer : RegisterRecord → Option RegisterDigestEntry → Bool
is_newer r none = true
is_newer r (some their) =
    less their.written r.written || (beq r.written their.written && less their.touched r.touched)

abbrev pub to_push : List RegisterDigestEntry → Bytes × RegisterRecord → Bool
to_push remote (name, r) = not (is_empty name) && is_newer r (find_entry name remote)

-- RecordsToPush
unfoldable pub records_to_push :
    RegisterStore → List RegisterDigestEntry → ℕ → RegisterStore × List RegisterRecord
unfolding find_entry is_newer
records_to_push s remote at_prune =
    let p = prune_expired s at_prune in (p, map (λ e. e.1) (keep_if (to_push remote) p.records))

-- PlanPush
unfoldable pub plan_push : RegisterStore → List RegisterDigestEntry → ℕ → RegisterStore × List Bytes
plan_push s remote at_prune =
    let (p, out) = records_to_push s remote at_prune in
    (p, map (λ (r : RegisterRecord). r.name) out)

-- ApplyRemoteLocked. One reading of the clock serves both expiry tests.
unfoldable pub apply_remote_locked : RegisterStore → RegisterRecord → ℕ → RegisterStore × Bool
apply_remote_locked s incoming now_ms =
    if is_empty incoming.name
    then (s, false)
    else let w = record s { clock = witness (witness s.clock incoming.written) incoming.touched } in
      let place =
        λ (r : RegisterRecord). record w { records = insert_or_assign incoming.name r w.records } in
      if is_expired incoming now_ms s.ttl_ms
      then (w, false)
      else elim (find incoming.name w.records) [
        | none ↦ (place incoming, true)
        | some mine ↦
            if is_expired mine now_ms s.ttl_ms
            then (place incoming, true)
            else let merged = merge_records mine incoming in
              if same_record merged mine then (w, false) else (place merged, true)
      ]

abbrev pub notify_if_changed : RegisterStore × Bool → RegisterStore × Bool
notify_if_changed (s, changed) = (if changed then notify_changed s else s, changed)

-- ApplyRemote
unfoldable pub apply_remote : RegisterStore → RegisterRecord → ℕ → RegisterStore × Bool
apply_remote s incoming now_ms = notify_if_changed (apply_remote_locked s incoming now_ms)
