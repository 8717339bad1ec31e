-- ===== src/Register/Invariant/Steps.antt =====
-- The invariant of the store under each operation of src/RegisterStore.cpp.
use clipp.Prelude.{
  ℕ, ◌≡◌, refl, Bool, true, false, some, [], less, max_of, list_order, ℕ_order, nless_trans,
  less-max_of_left, less-max_of_right, Option-cases, inl, inr, arith,
}
use clipp.Bytes.{Bytes}
use clipp.Clock.{Hlc, HlcClock, hlc_order, now, witness}
use clipp.Clock.Advance.{HasRoom}
use clipp.OrderedMap.{find, insert_or_assign}
use clipp.Register.{RegisterRecord, merge_records}
use clipp.Register.Store.{
  RegisterStore, ok, prune_expired, write, DeleteResult, deleted, not_found, WriteResult,
}
use clipp.Register.Originate.{upsert_locked, read, delete_locked, notify_if_ok, notify_if_deleted}
use clipp.Register.Inspect.{get_for_broadcast, apply_remote_locked, notify_if_changed}
use clipp.Register.Invariant.{
  IsValid, EntryOk, place-IsValid, clock-IsValid, erase-IsValid, prune_expired-IsValid,
  notify_changed-IsValid, now_not_behind, find-EntryOk,
}

pub write-IsValid :
    (s : RegisterStore) (name value : Bytes) (flags : ℕ) (origin : Bytes) (t : ℕ)
    → IsValid s
    → HasRoom 1 s.clock.last
    → IsValid (write s name value flags origin t)
unfolding write
write-IsValid s name value flags origin t v h =
    let c = now s.clock t in
    place-IsValid s c name _ v (now_not_behind s.clock t h)
      (refl, hlc_order.irrefl c.last, hlc_order.irrefl c.last)

pruned_write-IsValid :
    (s : RegisterStore) (name value : Bytes) (flags : ℕ) (origin : Bytes) (p t : ℕ)
    → IsValid s
    → HasRoom 1 s.clock.last
    → IsValid (write (prune_expired s p) name value flags origin t)
pruned_write-IsValid s name value flags origin p t v h =
    write-IsValid (prune_expired s p) name value flags origin t (prune_expired-IsValid s p v)
      (unfold prune_expired in h)

pub upsert_locked-IsValid :
    (s : RegisterStore) (name value : Bytes) (flags : ℕ) (origin : Bytes) (t u w : ℕ)
    → IsValid s
    → HasRoom 1 s.clock.last
    → IsValid (upsert_locked s name value flags origin t u w).0
unfolding upsert_locked
upsert_locked-IsValid s name value flags origin t u w v h =
    ground
      (arith, prune_expired-IsValid s t v, pruned_write-IsValid s name value flags origin t w v h)

pub notify_if_ok-IsValid :
    (p : RegisterStore × WriteResult) → IsValid (p.0) → IsValid (notify_if_ok p).0
notify_if_ok-IsValid (s, ok) v = notify_changed-IsValid s v
notify_if_ok-IsValid (s, r) v = v

touch-IsValid :
    (s : RegisterStore) (name : Bytes) (r : RegisterRecord) (t : ℕ)
    → IsValid s
    → HasRoom 1 s.clock.last
    → find name s.records ≡ some r
    → IsValid (record s {
      clock = now s.clock t;
      records = insert_or_assign name (record r { touched = (now s.clock t).last }) s.records;
    })
touch-IsValid s name r t v h e =
    let c = now s.clock t in
    let (n, w, x) = find-EntryOk s name v e in
    place-IsValid s c name _ v (now_not_behind s.clock t h) (
      n,
      nless_trans c.last s.clock.last r.written (now_not_behind s.clock t h) w,
      hlc_order.irrefl c.last,
    )

pub read-IsValid :
    (s : RegisterStore) (name : Bytes) (t u : ℕ)
    → IsValid s
    → HasRoom 1 s.clock.last
    → IsValid (read s name t u).0
read-IsValid s name t u v h = elim (Option-cases (find name s.records)) [
  | inl e ↦ unfold read in rw (e, read) v
  | inr (r, e) ↦
      unfold read in
      rw (e, read)
        (ground (
          arith,
          erase-IsValid s name v,
          notify_changed-IsValid _ (touch-IsValid s name r u v h e),
        ))
]

bury-IsValid :
    (s : RegisterStore) (name origin : Bytes) (r : RegisterRecord) (t flags : ℕ)
    → IsValid s
    → HasRoom 1 s.clock.last
    → find name s.records ≡ some r
    → let c = now s.clock t in
      IsValid (record s {
        clock = c;
        records =
            insert_or_assign name
              (record r {
                value = [];
                written = c.last;
                touched = c.last;
                origin_host_id = origin;
                flags = flags;
              })
              s.records;
      })
bury-IsValid s name origin r t flags v h e =
    let c = now s.clock t in
    place-IsValid s c name _ v (now_not_behind s.clock t h)
      ((find-EntryOk s name v e).0, hlc_order.irrefl c.last, hlc_order.irrefl c.last)

pub delete_locked-IsValid :
    (s : RegisterStore) (name origin : Bytes) (t u : ℕ)
    → IsValid s
    → HasRoom 1 s.clock.last
    → IsValid (delete_locked s name origin t u).0
delete_locked-IsValid s name origin t u v h = elim (Option-cases (find name s.records)) [
  | inl e ↦ unfold delete_locked in rw (e, delete_locked) v
  | inr (r, e) ↦
      unfold delete_locked in
      rw (e, delete_locked)
        (ground (arith, erase-IsValid s name v, bury-IsValid s name origin r u 1 v h e))
]

pub notify_if_deleted-IsValid :
    (p : RegisterStore × DeleteResult) → IsValid (p.0) → IsValid (notify_if_deleted p).0
notify_if_deleted-IsValid (s, deleted) v = notify_changed-IsValid s v
notify_if_deleted-IsValid (s, not_found) v = v

pub get_for_broadcast-IsValid :
    (s : RegisterStore) (name : Bytes) (t : ℕ) → IsValid s → IsValid (get_for_broadcast s name t).0
get_for_broadcast-IsValid s name t v = elim (Option-cases (find name s.records)) [
  | inl e ↦ unfold get_for_broadcast in rw (e, get_for_broadcast) v
  | inr (r, e) ↦
      unfold get_for_broadcast in rw (e, get_for_broadcast) (ground (arith, erase-IsValid s name v))
]

-- The clock after both timestamps of an incoming record.
abbrev witnessed : HlcClock → RegisterRecord → HlcClock
witnessed c r = witness (witness c r.written) r.touched

witnessed_covers :
    (c : HlcClock) (r : RegisterRecord)
    → (less (witnessed c r).last c.last ≡ false)
      × (less (witnessed c r).last r.written ≡ false)
      × (less (witnessed c r).last r.touched ≡ false)
unfolding witness
witnessed_covers c r =
    let m = max_of c.last r.written in
    let top = max_of m r.touched in
    let up : less top m ≡ false = less-max_of_left m r.touched in
    (
      nless_trans top m c.last up (less-max_of_left c.last r.written),
      nless_trans top m r.written up (less-max_of_right c.last r.written),
      less-max_of_right m r.touched,
    )

merged-EntryOk :
    (last : Hlc) (mine r : RegisterRecord)
    → EntryOk last (r.name, mine)
    → EntryOk last (r.name, r)
    → EntryOk last (r.name, merge_records mine r)
unfolding merge_records
merged-EntryOk last mine r h k = ground arith

module _ (s : RegisterStore) (r : RegisterRecord) (v : IsValid s) where
  incoming-EntryOk : EntryOk (witnessed s.clock r).last (r.name, r)
  incoming-EntryOk = let (_, w, t) = witnessed_covers s.clock r in (refl, w, t)

  witnessed-IsValid : IsValid (record s { clock = witnessed s.clock r })
  witnessed-IsValid = clock-IsValid s (witnessed s.clock r) v (witnessed_covers s.clock r).0

  placed-IsValid :
      (x : RegisterRecord)
      → EntryOk (witnessed s.clock r).last (r.name, x)
      → IsValid
          (record s { clock = witnessed s.clock r; records = insert_or_assign r.name x s.records })
  placed-IsValid x k =
      place-IsValid s (witnessed s.clock r) r.name x v (witnessed_covers s.clock r).0 k

  merged-IsValid :
      (mine : RegisterRecord)
      → find r.name s.records ≡ some mine
      → IsValid (record s {
        clock = witnessed s.clock r;
        records = insert_or_assign r.name (merge_records mine r) s.records;
      })
  merged-IsValid mine e = placed-IsValid (merge_records mine r) (
      merged-EntryOk (witnessed s.clock r).last mine r (find-EntryOk _ r.name witnessed-IsValid e)
        incoming-EntryOk)

  pub apply_remote_locked-IsValid : (t : ℕ) → IsValid (apply_remote_locked s r t).0
  apply_remote_locked-IsValid t = elim (Option-cases (find r.name s.records)) [
    | inl e ↦
        unfold apply_remote_locked in
        rw (e, apply_remote_locked)
          (ground (arith, witnessed-IsValid, placed-IsValid r incoming-EntryOk))
    | inr (mine, e) ↦
        unfold apply_remote_locked in
        rw (e, apply_remote_locked)
          (ground
            (arith, witnessed-IsValid, placed-IsValid r incoming-EntryOk, merged-IsValid mine e))
  ]

pub notify_if_changed-IsValid :
    (p : RegisterStore × Bool) → IsValid (p.0) → IsValid (notify_if_changed p).0
notify_if_changed-IsValid (s, true) v = notify_changed-IsValid s v
notify_if_changed-IsValid (s, false) v = v
