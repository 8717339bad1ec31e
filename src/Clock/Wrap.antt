-- ===== src/Clock/Wrap.antt =====
-- The counter of src/Hlc.cpp at its maximum.
use clipp.Prelude.{ℕ, ◌-◌, ◌≤◌, ◌≡◌, true, false, less, arith}
use clipp.Bytes.{u64_mod}
use clipp.Clock.{Hlc, HlcClock, hlc_order, now, witness}

-- A clock that has witnessed a timestamp at or above its own, whose counter is the largest uint64_t
-- and whose wall time is not behind the local wall clock, generates a timestamp below the witnessed
-- one: the counter wraps to 0.
pub now-witness_wraps :
    (c : HlcClock) (seen : Hlc) (phys : ℕ)
    → less seen c.last ≡ false
    → seen.counter ≡ u64_mod - 1
    → phys ≤ seen.wall_ms
    → less (now (witness c seen) phys).last seen ≡ true
unfolding now witness
now-witness_wraps c seen phys h k p = ground arith
