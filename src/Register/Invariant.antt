-- ===== src/Register/Invariant.antt =====
-- What every state of a register store satisfies, and the changes that keep it.
pub mod Steps
use clipp.Prelude.{
  ℕ, ◌+◌, ◌^◌, ◌<◌, ◌≡◌, refl, Bool, true, false, not, ◌&&◌, Option, none, some, List, [], ◌∷◌, All,
  All-keep_if, Order, less, max_of, list_order, ℕ_order, nless_trans, less_asymm, less-max_of_left,
  less-max_of_right, if◌then◌else◌, arith,
}
use clipp.Bytes.{Bytes}
use clipp.Clock.{Hlc, HlcClock, hlc_order, now, witness, seed_floor}
use clipp.Clock.Advance.{HasRoom, less-now}
use clipp.OrderedMap.{find, insert_or_assign, erase, Sorted}
use clipp.OrderedMap.Laws.{
  Sorted-insert_or_assign, Sorted-erase, Sorted-keep_if, All-insert_or_assign, All-erase, All-find,
}
use clipp.Register.{RegisterRecord}
use clipp.Register.Store.{
  RegisterStore, Records, new_store, prune_expired, unexpired, notify_changed,
}

-- A record is filed under its own name, and the clock is not behind its timestamps.
abbrev pub EntryOk : Hlc → Bytes × RegisterRecord → Type 0
EntryOk last (name, r) =
    (r.name ≡ name) × (less last r.written ≡ false) × (less last r.touched ≡ false)

-- The names are in order, and every entry is in order.
pub record IsValid (s : RegisterStore) : Type 0 where
  pub sorted : Sorted s.records
  pub entries : All (EntryOk s.clock.last) s.records

EntryOk-mono :
    (last later : Hlc) (e : Bytes × RegisterRecord)
    → less later last ≡ false
    → EntryOk last e
    → EntryOk later e
EntryOk-mono last later (name, r) h (n, w, t) =
    (n, nless_trans later last r.written h w, nless_trans later last r.touched h t)

AllOk-mono :
    (last later : Hlc) (m : Records)
    → less later last ≡ false
    → All (EntryOk last) m
    → All (EntryOk later) m
AllOk-mono last later [] h a = tt
AllOk-mono last later (e ∷ m) h (p, a) =
    (EntryOk-mono last later e h p, AllOk-mono last later m h a)

-- A later clock and one record filed under its name.
pub place-IsValid :
    (s : RegisterStore) (c : HlcClock) (name : Bytes) (r : RegisterRecord)
    → IsValid s
    → less c.last s.clock.last ≡ false
    → EntryOk c.last (name, r)
    → IsValid (record s { clock = c; records = insert_or_assign name r s.records })
place-IsValid s c name r v h ok = record {
  sorted = Sorted-insert_or_assign name r s.records v.sorted;
  entries =
      All-insert_or_assign (EntryOk c.last) name r s.records ok
        (AllOk-mono s.clock.last c.last s.records h v.entries);
}

pub clock-IsValid :
    (s : RegisterStore) (c : HlcClock)
    → IsValid s
    → less c.last s.clock.last ≡ false
    → IsValid (record s { clock = c })
clock-IsValid s c v h = record {
  sorted = v.sorted;
  entries = AllOk-mono s.clock.last c.last s.records h v.entries;
}

pub erase-IsValid :
    (s : RegisterStore) (name : Bytes)
    → IsValid s
    → IsValid (record s { records = erase name s.records })
erase-IsValid s name v = record {
  sorted = Sorted-erase name s.records v.sorted;
  entries = All-erase (EntryOk s.clock.last) name s.records v.entries;
}

pub prune_expired-IsValid : (s : RegisterStore) (t : ℕ) → IsValid s → IsValid (prune_expired s t)
unfolding prune_expired
prune_expired-IsValid s t v = record {
  sorted = Sorted-keep_if (unexpired t s.ttl_ms) s.records v.sorted;
  entries = All-keep_if (EntryOk s.clock.last) (unexpired t s.ttl_ms) s.records v.entries;
}

pub notify_changed-IsValid : (s : RegisterStore) → IsValid s → IsValid (notify_changed s)
unfolding notify_changed
notify_changed-IsValid s v = record { sorted = v.sorted; entries = v.entries }

pub new_store-IsValid :
    (host : Bytes) (ttl count bytes : ℕ) → IsValid (new_store host ttl count bytes)
unfolding new_store
new_store-IsValid host ttl count bytes = record { sorted = tt; entries = tt }

-- The clock of a fresh timestamp is not behind, and covers that timestamp.
pub now_not_behind : (c : HlcClock) (t : ℕ) → HasRoom 1 c.last → less (now c t).last c.last ≡ false
now_not_behind c t h = less_asymm c.last (now c t).last (less-now c t h)

-- What is filed in a valid store is in order.
pub find-EntryOk :
    (s : RegisterStore) (name : Bytes) {r : RegisterRecord}
    → IsValid s
    → find name s.records ≡ some r
    → EntryOk s.clock.last (name, r)
find-EntryOk s name v e = All-find (EntryOk s.clock.last) name s.records v.entries e
