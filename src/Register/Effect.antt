-- ===== src/Register/Effect.antt =====
-- What ApplyRemote of src/RegisterStore.cpp does to the record of each name.
use clipp.Prelude.{
  ℕ, ◌≡◌, refl, ap, ◌∙◌, Bool, true, false, ◌||◌, Option, none, some, is_empty, beq, list_order,
  ℕ_order, list_beq_iff, Option-cases, inl, inr, if◌then◌else◌, arith,
}
use clipp.Bytes.{Bytes}
use clipp.Clock.{hlc_order, witness}
use clipp.OrderedMap.{find}
use clipp.OrderedMap.Laws.{find-insert_or_assign}
use clipp.Register.{RegisterRecord, is_expired, merge_records, same_record}
use clipp.Register.Store.{RegisterStore, notify_changed}
use clipp.Register.Inspect.{apply_remote_locked, apply_remote, notify_if_changed}

-- operator== on records decides equality.
pub same_record_sound : (a b : RegisterRecord) → same_record a b ≡ true → a ≡ b
unfolding same_record
same_record_sound a b h = ground (
  arith,
  list_beq_iff a.name b.name,
  list_beq_iff a.value b.value,
  list_beq_iff a.origin_host_id b.origin_host_id,
  hlc_order.beq_iff a.written b.written,
  hlc_order.beq_iff a.touched b.touched,
)

-- The record of a name after a record for that name has come in at time `now_ms`.
unfoldable pub absorb : ℕ → ℕ → Option RegisterRecord → RegisterRecord → Option RegisterRecord
absorb now_ms ttl mine x = if is_empty x.name || is_expired x now_ms ttl then mine else elim mine [
  | none ↦ some x
  | some m ↦ if is_expired m now_ms ttl then some x else some (merge_records m x)
]

abbrev pub entry_after : Bytes → RegisterStore → RegisterRecord → ℕ → Option RegisterRecord
entry_after j s x now_ms =
    if beq j x.name then absorb now_ms s.ttl_ms (find x.name s.records) x else find j s.records

module _ (s : RegisterStore) (x : RegisterRecord) (t : ℕ) (j : Bytes) where
  find-apply_remote_locked : find j (apply_remote_locked s x t).0.records ≡ entry_after j s x t
  find-apply_remote_locked = elim (Option-cases (find x.name s.records)) [
    | inl e ↦
        unfold apply_remote_locked absorb in
        ground (arith, e, find-insert_or_assign j x.name x s.records, list_beq_iff j x.name)
    | inr (m, e) ↦
        unfold apply_remote_locked absorb in
        ground (
          arith,
          e,
          find-insert_or_assign j x.name x s.records,
          find-insert_or_assign j x.name (merge_records m x) s.records,
          list_beq_iff j x.name,
          same_record_sound (merge_records m x) m,
        )
  ]

module _ (s : RegisterStore) (x : RegisterRecord) (t : ℕ) where
  notified : (p : RegisterStore × Bool) → (notify_if_changed p).0.records ≡ p.0.records
  unfolding notify_changed
  notified (p, true) = refl
  notified (p, false) = refl

  -- After ApplyRemote every name but the incoming record's own holds what it held before. The
  -- record's own name holds the merge of the two records, or the incoming record where there was
  -- none or only an expired one; an incoming record that is expired or has no name changes nothing.
  pub find-apply_remote : (j : Bytes) → find j (apply_remote s x t).0.records ≡ entry_after j s x t
  unfolding apply_remote
  find-apply_remote j =
      ap (find j) (notified (apply_remote_locked s x t)) ∙ find-apply_remote_locked s x t j

  pub ttl-apply_remote : (apply_remote s x t).0.ttl_ms ≡ s.ttl_ms
  unfolding apply_remote apply_remote_locked notify_changed
  ttl-apply_remote = ground arith

  -- The clock witnesses both timestamps of a record that has a name.
  pub clock-apply_remote :
      (apply_remote s x t).0.clock
      ≡ (if is_empty x.name then s.clock else witness (witness s.clock x.written) x.touched)
  unfolding apply_remote apply_remote_locked notify_changed
  clock-apply_remote = ground arith
