-- ===== src/Clock.antt =====
-- The hybrid logical clock of src/Hlc.h and src/Hlc.cpp. The wall-clock reading that
-- `physicalNowMs_` supplies is an argument of each call.
pub mod Wire
pub mod Advance
pub mod Wrap
use clipp.Prelude.{
  ℕ, ◌+◌, ◌%◌, ◌^◌, ◌<◌, ◌≡◌, ap₂, List, [], ◌∷◌, ◌++◌, ltb, take, drop, Order, order_by, ℕ_order,
  pair_order, max_of, if◌then◌else◌,
}
use clipp.Bytes.{Bytes, u64_mod, put_u64, shift_in}

pub record Hlc : Type 0 where
  pub wall_ms : ℕ
  pub counter : ℕ

-- Both fields are uint64_t.
pub record IsHlc (h : Hlc) : Type 0 where
  pub wall_fits : h.wall_ms < u64_mod
  pub counter_fits : h.counter < u64_mod

abbrev pub hlc_key : Hlc → ℕ × ℕ
hlc_key h = (h.wall_ms, h.counter)

pub hlc_key-injective : (a b : Hlc) → hlc_key a ≡ hlc_key b → a ≡ b
hlc_key-injective a b e = λ i. record { wall_ms = (e i).0; counter = (e i).1 }

-- auto operator<=>(const Hlc&) const = default: member by member.
instance abbrev pub hlc_order : Order Hlc
hlc_order = order_by hlc_key hlc_key-injective

abbrev pub zero_hlc : Hlc
zero_hlc = record { wall_ms = 0; counter = 0 }

-- Hlc::Pack
unfoldable pub pack : Hlc → Bytes
pack h = put_u64 h.wall_ms ++ put_u64 h.counter

-- Hlc::Unpack, of an array of sixteen bytes.
unfoldable pub unpack : Bytes → Hlc
unpack bytes = record { wall_ms = shift_in 0 (take 8 bytes); counter = shift_in 0 (drop 8 bytes) }

pub record HlcClock : Type 0 where
  pub last : Hlc

-- HlcClock::Now; the counter is a uint64_t and wraps.
unfoldable pub now : HlcClock → ℕ → HlcClock
now c phys =
    if ltb c.last.wall_ms phys
    then record { last = record { wall_ms = phys; counter = 0 } }
    else record {
      last = record { wall_ms = c.last.wall_ms; counter = (c.last.counter + 1) % u64_mod };
    }

-- HlcClock::Witness
unfoldable pub witness : HlcClock → Hlc → HlcClock
witness c seen = record { last = max_of c.last seen }

-- HlcClock::SeedFloor
unfoldable pub seed_floor : HlcClock → Hlc → HlcClock
seed_floor c floor = record { last = max_of c.last floor }

-- HlcClock::HighWater
unfoldable pub high_water : HlcClock → Hlc
high_water c = c.last

-- What happens to a clock; a local event carries the reading of the wall clock.
pub data ClockEvent : Type 0 where
  issue : ℕ → ClockEvent
  saw : Hlc → ClockEvent
  floor : Hlc → ClockEvent

unfoldable pub step : HlcClock → ClockEvent → HlcClock
unfolding now witness seed_floor
step c (issue phys) = now c phys
step c (saw h) = witness c h
step c (floor h) = seed_floor c h

unfoldable pub run : HlcClock → List ClockEvent → HlcClock
unfolding step
run c [] = c
run c (e ∷ es) = run (step c e) es

-- The timestamps that the events generated or brought in.
unfoldable pub history : HlcClock → List ClockEvent → List Hlc
unfolding step
history c [] = []
history c (issue phys ∷ es) = (now c phys).last ∷ history (now c phys) es
history c (saw h ∷ es) = h ∷ history (witness c h) es
history c (floor h ∷ es) = h ∷ history (seed_floor c h) es
