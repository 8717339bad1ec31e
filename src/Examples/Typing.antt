-- ===== src/Examples/Typing.antt =====
-- Runs of the typing schedule of src/TypePlan.cpp.
use clipp.Prelude.{◌≡◌, refl, false, [], ◌∷◌, any_of}
use clipp.TypePlan.{
  TypePlan, build_type_schedule, press_wanted, release_unwanted, type_chords, contains,
  estimate_type_seconds, press_of, release_of,
}
use clipp.TypePlan.Released.{key_state, build_type_schedule-all_up}

-- "AB c" with Shift as key 16: the two capitals share one press of Shift.
abbrev plan : TypePlan
plan = record {
  chords =
      record { modifiers = 16 ∷ []; key = 65 }
      ∷ record { modifiers = 16 ∷ []; key = 66 }
      ∷ record { modifiers = []; key = 67 }
      ∷ [];
  character_count = 3;
  enter_count = 0;
}

schedule_run :
    ((build_type_schedule plan).events
      ≡ press_of 16
        ∷ press_of 65
        ∷ release_of 65
        ∷ press_of 66
        ∷ release_of 66
        ∷ release_of 16
        ∷ press_of 67
        ∷ release_of 67
        ∷ [])
    × (estimate_type_seconds (build_type_schedule plan) ≡ 1)
unfolding build_type_schedule type_chords press_wanted release_unwanted contains any_of
    estimate_type_seconds
schedule_run = (refl, refl)

build_type_schedule-all_up_example :
    key_state (build_type_schedule plan).events (λ j. false) 16 ≡ false
build_type_schedule-all_up_example = build_type_schedule-all_up plan 16
