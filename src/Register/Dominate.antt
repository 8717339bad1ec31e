-- ===== src/Register/Dominate.antt =====
-- A local write or delete against what it replaces: UpsertLocked and DeleteLocked of
-- src/RegisterStore.cpp with the merge.
pub mod Sticky
use clipp.Prelude.{
  ℕ, ◌≡◌, refl, sym, subst, ap, ◌∙◌, Bool, true, false, not, ◌&&◌, ◌/◌, ◌*◌, Option, none, some,
  List, [], ◌∷◌, is_empty, less, beq, max_of, list_order, ℕ_order, Option-cases, Bool-cases, inl,
  inr, if◌then◌else◌, arith, less_asymm,
}
use clipp.Bytes.{Bytes}
use clipp.Clock.{Hlc, HlcClock, hlc_order, now}
use clipp.Clock.Advance.{HasRoom, less-now, less_of_nless}
use clipp.OrderedMap.{find, insert_or_assign}
use clipp.OrderedMap.Laws.{beq_refl, find-insert_or_assign, find-keep_if}
use clipp.Register.{
  RegisterRecord, is_expired, is_tombstone, merge_records, value_less, tombstone_flag,
}
use clipp.Register.Store.{
  RegisterStore, WriteResult, ok, invalid_name, value_too_large, cap_exceeded, DeleteResult,
  deleted, not_found, prune_expired, write, without_tombstone, unexpired,
}
use clipp.Register.Originate.{upsert_locked, delete_locked, read}
use clipp.Register.Invariant.{IsValid, find-EntryOk}

-- The record that a write files.
abbrev pub fresh_record : Bytes → Bytes → ℕ → Bytes → Hlc → RegisterRecord
fresh_record name value flags origin ts = record {
  name = name;
  value = value;
  written = ts;
  touched = ts;
  origin_host_id = origin;
  flags = without_tombstone flags;
}

-- The record that a delete files.
abbrev pub tombstone : Bytes → Bytes → Hlc → RegisterRecord
tombstone name origin ts = record {
  name = name;
  value = [];
  written = ts;
  touched = ts;
  origin_host_id = origin;
  flags = tombstone_flag;
}

-- A record with later timestamps swallows the other in a merge, on either side.
pub merge_later :
    (old new : RegisterRecord)
    → old.name ≡ new.name
    → less old.written new.written ≡ true
    → less old.touched new.touched ≡ true
    → (merge_records old new ≡ new) × (merge_records new old ≡ new)
unfolding merge_records value_less
merge_later old new e w t = (
  ground (arith, hlc_order.irrefl old.written, hlc_order.beq_iff old.written new.written),
  ground (
    arith,
    hlc_order.irrefl old.written,
    hlc_order.beq_iff new.written old.written,
    less_asymm old.written new.written,
    less_asymm old.touched new.touched,
  ),
)

module _ (s : RegisterStore) (v : IsValid s) (room : HasRoom 1 s.clock.last) (t : ℕ) where
  -- A fresh timestamp is above those of every record that the store holds.
  pub fresh_is_later :
      (name : Bytes) (old : RegisterRecord)
      → find name s.records ≡ some old
      → (less old.written (now s.clock t).last ≡ true)
        × (less old.touched (now s.clock t).last ≡ true)
  fresh_is_later name old e =
      let (_, w, x) = find-EntryOk s name v e in
      let up = less-now s.clock t room in
      (
        less_of_nless old.written s.clock.last (now s.clock t).last w up,
        less_of_nless old.touched s.clock.last (now s.clock t).last x up,
      )

module _ (s : RegisterStore) (name value : Bytes) (flags : ℕ) (origin : Bytes) (t u w : ℕ) where
  upsert_locked-eq-ok :
      (s' : RegisterStore)
      → upsert_locked s name value flags origin t u w ≡ (s', ok)
      → write (prune_expired s t) name value flags origin w ≡ s'
  unfolding upsert_locked
  upsert_locked-eq-ok s' e = ground arith

  find-write :
      find name (write (prune_expired s t) name value flags origin w).records
      ≡ some (fresh_record name value flags origin (now s.clock w).last)
  unfolding write prune_expired
  find-write = find-insert_or_assign name name _ _ ∙ rw (beq_refl name)

  -- After an accepted write to a valid store whose clock's counter has room for one tick, the store
  -- holds the new value under the name, with the timestamp that the clock generated; and a merge of
  -- the new record with what the name held before gives the new record, on either side.
  pub upsert-wins :
      (s' : RegisterStore)
      → IsValid s
      → HasRoom 1 s.clock.last
      → upsert_locked s name value flags origin t u w ≡ (s', ok)
      → let new = fresh_record name value flags origin (now s.clock w).last in
        (find name s'.records ≡ some new)
        × (s'.clock.last ≡ new.written)
        × ((old : RegisterRecord)
            → find name s.records ≡ some old
            → (merge_records old new ≡ new) × (merge_records new old ≡ new))
  upsert-wins s' v room e =
      let done = upsert_locked-eq-ok s' e in
      (
        subst
            (λ z.
              find name z.records
              ≡ some (fresh_record name value flags origin (now s.clock w).last))
            done find-write,
        subst (λ z. z.clock.last ≡ (now s.clock w).last) done (unfold write prune_expired in refl),
        λ old f.
            let (x, y) = fresh_is_later s v room w name old f in
            merge_later old _ (find-EntryOk s name v f).0 x y,
      )

module _ (s : RegisterStore) (name origin : Bytes) (t u : ℕ) where
  delete_locked-eq-deleted :
      (s' : RegisterStore)
      → delete_locked s name origin t u ≡ (s', deleted)
      → (r : RegisterRecord) × (find name s.records ≡ some r)
        × (s'.records
            ≡ insert_or_assign name (tombstone r.name origin (now s.clock u).last) s.records)
        × (s'.clock ≡ now s.clock u)
  delete_locked-eq-deleted s' e = elim (Option-cases (find name s.records)) [
    | inl f ↦ unfold delete_locked in ground (arith, f)
    | inr (r, f) ↦
        (r, f, unfold delete_locked in ground (arith, f), unfold delete_locked in ground (arith, f))
  ]

  -- After a delete that found a value in a valid store whose clock's counter has room for one tick,
  -- the store holds a tombstone under the name, with no value and the timestamp that the clock
  -- generated; and a merge of it with the deleted record gives the tombstone, on either side.
  pub delete-wins :
      (s' : RegisterStore)
      → IsValid s
      → HasRoom 1 s.clock.last
      → delete_locked s name origin t u ≡ (s', deleted)
      → let tomb = tombstone name origin (now s.clock u).last in
        (find name s'.records ≡ some tomb)
        × (s'.clock.last ≡ tomb.written)
        × ((old : RegisterRecord)
            → find name s.records ≡ some old
            → (merge_records old tomb ≡ tomb) × (merge_records tomb old ≡ tomb))
  delete-wins s' v room e =
      let (r, f, recs, clk) = delete_locked-eq-deleted s' e in
      let n : r.name ≡ name = (find-EntryOk s name v f).0 in
      (
        ap (find name) recs
            ∙ find-insert_or_assign name name _ s.records
            ∙ rw (beq_refl name) (ap (λ k. some (tombstone k origin (now s.clock u).last)) n),
        ap (λ (c : HlcClock). c.last) clk,
        λ old g.
            let (x, y) = fresh_is_later s v room u name old g in
            merge_later old _ (find-EntryOk s name v g).0 x y,
      )
