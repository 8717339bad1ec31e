-- ===== src/RegisterSaver.antt =====
-- The background saving of the registers: the state of src/RegisterPersistenceRuntime.cpp and the steps
-- of its threads between their locks. A store is whatever `S` is and its snapshot whatever `R` is. A file
-- is what was saved at its path: the key it was sealed with, and the snapshot.
pub mod Marks
pub mod Saved
pub mod Stopped
use clipp.Prelude.{
  ℕ, zero, suc, ◌+◌, ◌-◌, Bool, true, false, not, ◌&&◌, ◌||◌, Option, none, some, List, [], ◌∷◌,
  ◌==◌, beq, list_order, ℕ_order, if◌then◌else◌,
}
use clipp.Bytes.{Bytes}

-- The key that sodium_memzero leaves: 32 zeros.
abbrev pub no_key : Bytes
no_key =
    0 ∷ 0 ∷ 0 ∷ 0 ∷ 0 ∷ 0 ∷ 0 ∷ 0 ∷ 0 ∷ 0 ∷ 0 ∷ 0 ∷ 0 ∷ 0 ∷ 0 ∷ 0 ∷ 0 ∷ 0 ∷ 0 ∷ 0 ∷ 0 ∷ 0 ∷ 0 ∷ 0
    ∷ 0 ∷ 0 ∷ 0 ∷ 0 ∷ 0 ∷ 0 ∷ 0 ∷ 0 ∷ []

pub record SavedFile (R : Type 0) : Type 0 where
  pub path : Bytes
  pub sealed_with : Bytes
  pub snapshot : R

-- Where the writer thread is: at the test of its loop, in the two waits, in SaveNow, in the last
-- SaveNow, or at its end.
pub data Writer : Type 0 where
  absent looping waiting debouncing finished : Writer
  saving flushing : Bytes → Bytes → Writer

-- Where RegisterPersistenceKeyChanged is: not running, in the save of the old group's file, before the
-- new key is looked up, or in LoadIntoStore. It keeps whether there was a key, the old path and key.
pub data KeyChange : Type 0 where
  no_change loading : KeyChange
  flushing_old : Bool → Bytes → Bytes → KeyChange
  resolving : Bool → Bytes → KeyChange

pub record Runtime (S R : Type 0) : Type 0 where
  pub running : Bool
  pub stop : Bool
  pub dirty : Bool
  pub have_key : Bool
  pub listener_armed : Bool
  pub file_path : Bytes
  pub seal_key : Bytes
  pub writer : Writer
  pub key_change : KeyChange
  pub store : S
  pub unnotified : ℕ
  pub files : List (SavedFile R)

unfoldable pub find_file : {R : Type 0} → Bytes → List (SavedFile R) → Option (SavedFile R)
find_file path [] = none
find_file path (f ∷ fs) = let rest = find_file path fs in if beq f.path path then some f else rest

module _ {S R : Type 0} (snapshot_of : S → R) where
  -- SaveNow, where the saving succeeds or fails.
  unfoldable pub save_now : Bool → Bytes → Bytes → Runtime S R → Runtime S R
  save_now false path key s = s
  save_now true path key s = record s {
    files = record { path = path; sealed_with = key; snapshot = snapshot_of s.store } ∷ s.files;
  }

  -- The end of WriterLoop, behind the loop.
  unfoldable pub leave_loop : Runtime S R → Runtime S R
  leave_loop s =
      if s.dirty && s.have_key
      then record s { writer = flushing s.file_path s.seal_key }
      else record s { writer = finished }

  -- WriterLoop, from one lock to the next.
  unfoldable pub writer_at : Writer → Bool → Runtime S R → Runtime S R
  unfolding save_now leave_loop
  writer_at absent ok s = s
  writer_at looping ok s = if s.stop then leave_loop s else record s { writer = waiting }
  writer_at waiting ok s =
      if s.stop then leave_loop s else if s.dirty then record s { writer = debouncing } else s
  writer_at debouncing ok s =
      if not s.have_key
      then record s { dirty = false; writer = looping }
      else record s { dirty = false; writer = saving s.file_path s.seal_key }
  writer_at finished ok s = s
  writer_at (saving path key) ok s = record (save_now ok path key s) { writer = looping }
  writer_at (flushing path key) ok s = record (save_now ok path key s) { writer = finished }

  unfoldable pub writer_step : Bool → Runtime S R → Runtime S R
  unfolding writer_at
  writer_step ok s = writer_at s.writer ok s

  -- StartRegisterPersistence: the key and the path that ResolveKeyAndPath found, the store that
  -- LoadIntoStore has left, and whether that changed it.
  unfoldable pub start_persistence : Option (Bytes × Bytes) → S → Bool → Runtime S R → Runtime S R
  start_persistence found merged applied s =
      if s.running
      then s
      else let armed : Runtime S R = record s {
        running = true;
        stop = false;
        listener_armed = true;
        writer = looping;
      } in
        elim found [
          | none ↦ armed
          | some (path, key) ↦ record armed {
            have_key = true;
            file_path = path;
            seal_key = key;
            store = merged;
            dirty = s.dirty || (s.listener_armed && applied);
          }
        ]

  -- A change of the store by some thread, and the call of the listener that follows it.
  unfoldable pub mutate_store : S → Runtime S R → Runtime S R
  mutate_store store s = record s { store = store; unnotified = s.unnotified + 1 }

  unfoldable pub call_listener : Runtime S R → Runtime S R
  call_listener s =
      if s.unnotified == 0 then s else record s { unnotified = s.unnotified - 1; dirty = true }

  -- RegisterPersistenceKeyChanged, from one lock to the next: what there was,
  unfoldable pub begin_key_change : Runtime S R → Runtime S R
  begin_key_change s =
      if not s.running
      then s
      else record s { key_change = flushing_old s.have_key s.file_path s.seal_key }

  -- the saving of the old group's file,
  unfoldable pub flush_old : KeyChange → Bool → Runtime S R → Runtime S R
  unfolding save_now
  flush_old (flushing_old true path key) ok s = record (save_now ok path key s) {
    key_change = resolving true path;
  }
  flush_old (flushing_old false path key) ok s = record s { key_change = resolving false path }
  flush_old c ok s = s

  -- the key and the path that ResolveKeyAndPath found, where the file of another group is loaded next,
  unfoldable pub set_key : KeyChange → Option (Bytes × Bytes) → Runtime S R → Runtime S R
  set_key (resolving had_key old_path) none s = record s {
    have_key = false;
    file_path = [];
    seal_key = no_key;
    dirty = false;
    key_change = no_change;
  }
  set_key (resolving had_key old_path) (some (path, key)) s = record s {
    have_key = true;
    file_path = path;
    seal_key = key;
    dirty = true;
    key_change = if not had_key || not (beq path old_path) then loading else no_change;
  }
  set_key c found s = s

  -- one ApplyRemote of LoadIntoStore, and its end.
  unfoldable pub merge_record : KeyChange → S → Runtime S R → Runtime S R
  unfolding mutate_store
  merge_record loading store s = mutate_store store s
  merge_record c store s = s

  unfoldable pub end_load : KeyChange → Runtime S R → Runtime S R
  end_load loading s = record s { key_change = no_change }
  end_load c s = s

  -- StopRegisterPersistence, up to the wait for the writer.
  unfoldable pub stop_persistence : Runtime S R → Runtime S R
  stop_persistence s = if not s.running then s else record s { stop = true }

  -- What StopRegisterPersistence does when the writer is at its end.
  unfoldable pub join_writer : Runtime S R → Runtime S R
  join_writer s = record s { running = false; seal_key = no_key }

-- The steps of the threads while the saving runs.
pub data SaverStep (S : Type 0) : Type 0 where
  mutates : S → SaverStep S
  notifies : SaverStep S
  writes : Bool → SaverStep S
  changes_key : SaverStep S
  flushes_old : Bool → SaverStep S
  sets_key : Option (Bytes × Bytes) → SaverStep S
  merges : S → SaverStep S
  ends_load : SaverStep S

module _ {S R : Type 0} (snapshot_of : S → R) where
  unfoldable pub saver_step : Runtime S R → SaverStep S → Runtime S R
  saver_step s (mutates store) = mutate_store snapshot_of store s
  saver_step s notifies = call_listener snapshot_of s
  saver_step s (writes ok) = writer_step snapshot_of ok s
  saver_step s changes_key = begin_key_change snapshot_of s
  saver_step s (flushes_old ok) = flush_old snapshot_of s.key_change ok s
  saver_step s (sets_key found) = set_key snapshot_of s.key_change found s
  saver_step s (merges store) = merge_record snapshot_of s.key_change store s
  saver_step s ends_load = end_load snapshot_of s.key_change s

  unfoldable pub saver_steps : Runtime S R → List (SaverStep S) → Runtime S R
  saver_steps s [] = s
  saver_steps s (e ∷ es) = saver_steps (saver_step s e) es
