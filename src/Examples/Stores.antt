-- ===== src/Examples/Stores.antt =====
-- Runs of one RegisterStore (src/RegisterStore.cpp).
use clipp.Prelude.{
  ◌≡◌, refl, false, none, some, List, [], ◌∷◌, list_order, ℕ_order, keep_if, list_beq, arith,
}
use clipp.Bytes.{Bytes}
use clipp.Clock.{now}
use clipp.OrderedMap.{find}
use clipp.Register.{RegisterRecord, merge_records, is_expired}
use clipp.Register.Name.{is_valid_register_name, all_accepted}
use clipp.Utf8.{decode_code_point}
use clipp.Register.Store.{RegisterStore, new_store, ok, deleted, prune_expired, live_count}
use clipp.Register.Originate.{upsert_locked, delete_locked, read}
use clipp.Register.Invariant.{IsValid, new_store-IsValid}
use clipp.Register.History.{StoreCall, upserts, reads, deletes, applies, digests, perform_all}
use clipp.Register.History.Room.{perform_all-IsValid}
use clipp.Register.Dominate.{fresh_record, tombstone, upsert-wins, delete-wins}
use clipp.Register.Dominate.Sticky.{Buried, delete-sticks}
use clipp.Register.Converge.{deliver}
use clipp.Examples.Records.{key, left, right, late}

abbrev host : Bytes
host = 9 ∷ []

abbrev pub empty_store : RegisterStore
empty_store = new_store host 1000 4 16

-- The store that holds one record of the register `k`.
abbrev pub holding : RegisterRecord → RegisterStore
holding r = record {
  change_listeners = some 1 ∷ [];
  fired = [];
  clock = record { last = record { wall_ms = 160; counter = 3 } };
  records = (key, r) ∷ [];
  local_host = host;
  ttl_ms = 1000;
  max_count = 4;
  max_value_bytes = 16;
}

pub holding-left : IsValid (holding left)
holding-left = record { sorted = (tt, tt); entries = ((refl, refl, refl), tt) }

pub holding-right : IsValid (holding right)
holding-right = record { sorted = (tt, tt); entries = ((refl, refl, refl), tt) }

abbrev calls : List StoreCall
calls =
    upserts key (1 ∷ []) false 10 10 10
    ∷ applies late 131
    ∷ reads key 140 141
    ∷ digests 150
    ∷ deletes key 160 161
    ∷ []

perform_all-IsValid_example : IsValid (perform_all empty_store calls)
perform_all-IsValid_example =
    perform_all-IsValid empty_store calls (unfold new_store in omega arith) (omega arith)
      (new_store-IsValid host 1000 4 16)

abbrev rewritten : RegisterStore
rewritten = (upsert_locked (holding left) key (5 ∷ []) 3 host 170 170 170).0

accepted : upsert_locked (holding left) key (5 ∷ []) 3 host 170 170 170 ≡ (rewritten, ok)
unfolding upsert_locked is_valid_register_name all_accepted decode_code_point prune_expired keep_if
    is_expired find list_beq live_count
accepted = refl

upsert-wins_example :
    let new = fresh_record key (5 ∷ []) 3 host (now (holding left).clock 170).last in
    (find key rewritten.records ≡ some new)
    × (rewritten.clock.last ≡ new.written)
    × ((old : RegisterRecord)
        → find key (holding left).records ≡ some old
        → (merge_records old new ≡ new) × (merge_records new old ≡ new))
upsert-wins_example =
    upsert-wins (holding left) key (5 ∷ []) 3 host 170 170 170 rewritten holding-left (omega arith)
      accepted

abbrev emptied : RegisterStore
emptied = (delete_locked (holding left) key host 170 170).0

gone : delete_locked (holding left) key host 170 170 ≡ (emptied, deleted)
unfolding delete_locked find list_beq is_expired
gone = refl

delete-wins_example :
    let tomb = tombstone key host (now (holding left).clock 170).last in
    (find key emptied.records ≡ some tomb)
    × (emptied.clock.last ≡ tomb.written)
    × ((old : RegisterRecord)
        → find key (holding left).records ≡ some old
        → (merge_records old tomb ≡ tomb) × (merge_records tomb old ≡ tomb))
delete-wins_example =
    delete-wins (holding left) key host 170 170 emptied holding-left (omega arith) gone

abbrev buried_record : RegisterRecord
buried_record = tombstone key host (record { wall_ms = 170; counter = 0 })

buried : Buried key (record { wall_ms = 170; counter = 0 }) 180 (holding buried_record)
unfolding find list_beq is_expired
buried = record { grave = buried_record; found = refl; tombstone = refl; dated = refl; live = refl }

-- Three older writes arrive and leave the register deleted.
delete-sticks_example :
    (read (deliver (holding buried_record) (late ∷ left ∷ right ∷ []) 180) key 190 190).1 ≡ none
delete-sticks_example =
    delete-sticks (holding buried_record) key (record { wall_ms = 170; counter = 0 })
      (late ∷ left ∷ right ∷ []) 180 190 190 buried ((λ e. refl), ((λ e. refl), ((λ e. refl), tt)))

pub holding-late : IsValid (holding late)
holding-late = record { sorted = (tt, tt); entries = ((refl, refl, refl), tt) }
