-- ===== src/TypePlan.antt =====
-- The expansion of a typing plan into key events: src/TypePlan.h and src/TypePlan.cpp. A key code is
-- a number; `held` is the vector of the modifiers that are down, the oldest first.
pub mod Released
use clipp.Prelude.{
  ℕ, ◌+◌, ◌*◌, ◌/◌, Bool, true, false, List, [], ◌∷◌, ◌++◌, ◌==◌, any_of, length, if◌then◌else◌,
}

pub record KeyChord : Type 0 where
  pub modifiers : List ℕ
  pub key : ℕ

pub record TypePlan : Type 0 where
  pub chords : List KeyChord
  pub character_count : ℕ
  pub enter_count : ℕ

pub record TypeKeyEvent : Type 0 where
  pub key : ℕ
  pub down : Bool

pub record TypeSchedule : Type 0 where
  pub events : List TypeKeyEvent
  pub character_count : ℕ
  pub enter_count : ℕ

abbrev pub press_of : ℕ → TypeKeyEvent
press_of k = record { key = k; down = true }

abbrev pub release_of : ℕ → TypeKeyEvent
release_of k = record { key = k; down = false }

-- Contains
unfoldable pub contains : List ℕ → ℕ → Bool
contains keys key = any_of (λ k. k == key) keys

-- The loop from the newest held modifier down: the events, and what stays held.
unfoldable pub release_unwanted : List ℕ → List ℕ → List TypeKeyEvent × List ℕ
release_unwanted modifiers [] = ([], [])
release_unwanted modifiers (oldest ∷ newer) =
    let (events, kept) = release_unwanted modifiers newer in
    if contains modifiers oldest
    then (events, oldest ∷ kept)
    else (events ++ release_of oldest ∷ [], kept)

-- The loop that presses the modifiers that are not down yet.
unfoldable pub press_wanted : List ℕ → List ℕ → List TypeKeyEvent × List ℕ
press_wanted [] held = ([], held)
press_wanted (modifier ∷ modifiers) held =
    let skipped = press_wanted modifiers held in
    let (events, held') = press_wanted modifiers (held ++ modifier ∷ []) in
    if contains held modifier then skipped else (press_of modifier ∷ events, held')

-- The loop over the chords, from what is held, and the release of what is held at its end.
unfoldable pub type_chords : List KeyChord → List ℕ → List TypeKeyEvent
type_chords [] held = (release_unwanted [] held).0
type_chords (chord ∷ chords) held =
    let (up, kept) = release_unwanted chord.modifiers held in
    let (down, held') = press_wanted chord.modifiers kept in
    up ++ (down ++ press_of chord.key ∷ release_of chord.key ∷ type_chords chords held')

-- BuildTypeSchedule
unfoldable pub build_type_schedule : TypePlan → TypeSchedule
build_type_schedule plan = record {
  events = type_chords plan.chords [];
  character_count = plan.character_count;
  enter_count = plan.enter_count;
}

abbrev pub type_event_interval_ms : ℕ
type_event_interval_ms = 15

-- EstimateTypeSeconds
unfoldable pub estimate_type_seconds : TypeSchedule → ℕ
estimate_type_seconds schedule = (length schedule.events * type_event_interval_ms + 999) / 1000
