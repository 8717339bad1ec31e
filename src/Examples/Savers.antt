-- ===== src/Examples/Savers.antt =====
-- Runs of the saving of src/RegisterPersistenceRuntime.cpp, on a store that is a number.
use clipp.Prelude.{ℕ, ◌≡◌, refl, true, false, some, none, List, [], ◌∷◌, list_beq}
use clipp.RegisterSaver.{
  absent, looping, Runtime, no_key, start_persistence, stop_persistence, join_writer, SaverStep,
  no_change, changes_key, flushes_old, sets_key, merges, ends_load, begin_key_change, flush_old,
  set_key, merge_record, end_load, mutates, notifies, writes, saver_step, saver_steps, writer_step,
  writer_at, mutate_store, call_listener, save_now, leave_loop,
}
use clipp.RegisterSaver.Stopped.{drain, IsDone, drain-stop_persistence}

abbrev snapshot_of : ℕ → ℕ
snapshot_of n = n

abbrev idle : Runtime ℕ ℕ
idle = record {
  running = false;
  stop = false;
  dirty = false;
  have_key = false;
  listener_armed = false;
  file_path = [];
  seal_key = no_key;
  writer = absent;
  key_change = no_change;
  store = 0;
  unnotified = 0;
  files = [];
}

abbrev started : Runtime ℕ ℕ
started = record {
  running = true;
  stop = false;
  dirty = true;
  have_key = true;
  listener_armed = true;
  file_path = 1 ∷ [];
  seal_key = 9 ∷ [];
  writer = looping;
  key_change = no_change;
  store = 1;
  unnotified = 0;
  files = [];
}

started_run :
    call_listener snapshot_of (
      mutate_store snapshot_of 1
        (start_persistence snapshot_of (some (1 ∷ [], 9 ∷ [])) 0 false idle))
    ≡ started
unfolding call_listener mutate_store start_persistence
started_run = refl

abbrev edits : List (SaverStep ℕ)
edits =
    writes true
    ∷ mutates 2
    ∷ writes true
    ∷ notifies
    ∷ writes true
    ∷ changes_key
    ∷ flushes_old true
    ∷ sets_key (some (2 ∷ [], 8 ∷ []))
    ∷ merges 3
    ∷ notifies
    ∷ ends_load
    ∷ []

drain-stop_persistence_example : IsDone snapshot_of 0 (
    drain snapshot_of 4 (
      stop_persistence snapshot_of (
        saver_steps snapshot_of
          (start_persistence snapshot_of (some (1 ∷ [], 9 ∷ [])) 0 false idle)
          edits)))
unfolding saver_steps saver_step mutate_store call_listener writer_step writer_at start_persistence
    begin_key_change flush_old set_key merge_record end_load save_now list_beq
drain-stop_persistence_example =
    drain-stop_persistence snapshot_of (some (1 ∷ [], 9 ∷ [])) 0 false idle edits refl refl
      (refl, (tt, (refl, (tt, (refl, (tt, (refl, (tt, (tt, (tt, (tt, tt))))))))))) refl refl

-- Both files are written: the old one by the change of the key, the new one by the stop.
saved_edits :
    (drain snapshot_of 4 (
      stop_persistence snapshot_of (
        saver_steps snapshot_of
          (start_persistence snapshot_of (some (1 ∷ [], 9 ∷ [])) 0 false idle)
          edits))).files
    ≡ record { path = 2 ∷ []; sealed_with = 8 ∷ []; snapshot = 3 }
      ∷ record { path = 1 ∷ []; sealed_with = 9 ∷ []; snapshot = 2 }
      ∷ []
unfolding saver_steps saver_step mutate_store call_listener writer_step writer_at start_persistence
    begin_key_change flush_old set_key merge_record end_load save_now drain stop_persistence
    leave_loop list_beq
saved_edits = refl

-- A second start that finds no key goes on with the old path, and a key of zeros.
stale_key :
    (saver_steps snapshot_of
      (start_persistence snapshot_of none 3 false
        (join_writer snapshot_of (drain snapshot_of 4 (stop_persistence snapshot_of started))))
      (mutates 5 ∷ notifies ∷ writes true ∷ writes true ∷ writes true ∷ writes true ∷ [])).files
    ≡ record { path = 1 ∷ []; sealed_with = no_key; snapshot = 5 }
      ∷ record { path = 1 ∷ []; sealed_with = 9 ∷ []; snapshot = 1 }
      ∷ []
unfolding saver_steps saver_step mutate_store call_listener writer_step writer_at start_persistence
    join_writer drain stop_persistence save_now leave_loop
stale_key = refl
