-- ===== src/PeerLimits/Throttle.antt =====
-- DefensiveLogThrottle of src/DefensiveLogThrottle.h, the rate limiter of the log lines about
-- refused peers. A time point is a number of ticks of a steady clock, which does not go back.
use clipp.Prelude.{
  ℕ, ◌+◌, ◌-◌, ◌≤◌, ◌<◌, ◌≡◌, Bool, true, false, not, ◌&&◌, Option, none, some, List, [], ◌∷◌, ltb,
  length, if◌then◌else◌, arith,
}
use clipp.Bytes.{u64_mod}

pub record Report : Type 0 where
  pub rejected_since_last_report : ℕ
  pub first_report : Bool

pub record DefensiveLogThrottle : Type 0 where
  pub report_interval : ℕ
  pub last_report_at : ℕ
  pub rejected_since_last_report : ℕ
  pub has_reported : Bool

unfoldable pub new_throttle : ℕ → DefensiveLogThrottle
new_throttle interval = record {
  report_interval = interval;
  last_report_at = 0;
  rejected_since_last_report = 0;
  has_reported = false;
}

-- The counter stops at the largest uint64_t.
unfoldable pub count_rejection : ℕ → ℕ
count_rejection n = if ltb n (u64_mod - 1) then n + 1 else n

-- RecordRejection
unfoldable pub record_rejection : DefensiveLogThrottle → ℕ → DefensiveLogThrottle × Option Report
unfolding count_rejection
record_rejection t now =
    let n = count_rejection t.rejected_since_last_report in
    if t.has_reported && ltb (now - t.last_report_at) t.report_interval
    then (record t { rejected_since_last_report = n }, none)
    else (
      record t { rejected_since_last_report = 0; last_report_at = now; has_reported = true },
      some (record { rejected_since_last_report = n; first_report = not t.has_reported }),
    )

-- A sequence of rejections: the reports with their times, and the throttle behind them.
unfoldable pub record_all : DefensiveLogThrottle → List ℕ → List (ℕ × Report)
record_all t [] = []
record_all t (now ∷ times) =
    let (t', r) = record_rejection t now in
    let rest = record_all t' times in elim r [ none ↦ rest | some report ↦ (now, report) ∷ rest ]

unfoldable pub throttle_after : DefensiveLogThrottle → List ℕ → DefensiveLogThrottle
throttle_after t [] = t
throttle_after t (now ∷ times) = throttle_after (record_rejection t now).0 times

unfoldable pub reported : List (ℕ × Report) → ℕ
reported [] = 0
reported ((at, r) ∷ rs) = r.rejected_since_last_report + reported rs

-- No rejection is lost: what the reports say adds up, with what is still to be reported, to the
-- number of rejections, as long as that fits 64 bits.
pub reported_total :
    (t : DefensiveLogThrottle) (times : List ℕ)
    → t.rejected_since_last_report + length times < u64_mod
    → reported (record_all t times) + (throttle_after t times).rejected_since_last_report
      ≡ t.rejected_since_last_report + length times
unfolding record_all throttle_after reported record_rejection
reported_total t [] h = omega arith
reported_total t (now ∷ times) h = ground (arith, reported_total (record_rejection t now).0 times)

-- The reports after a time are spaced by the interval.
abbrev pub Spaced : ℕ → ℕ → List (ℕ × Report) → Type 0
Spaced interval last [] = Unit
Spaced interval last ((at, r) ∷ rs) = (last + interval ≤ at) × Spaced interval at rs

abbrev pub Ascending : ℕ → List ℕ → Type 0
Ascending from [] = Unit
Ascending from (now ∷ times) = (from ≤ now) × Ascending now times

-- Once a throttle has reported, each further report comes at least one interval after the one
-- before, if the times of the rejections do not go back.
pub record_all-Spaced :
    (t : DefensiveLogThrottle) (from : ℕ) (times : List ℕ)
    → t.has_reported ≡ true
    → t.last_report_at ≤ from
    → Ascending from times
    → Spaced t.report_interval t.last_report_at (record_all t times)
unfolding record_all record_rejection
record_all-Spaced t from [] h k a = tt
record_all-Spaced t from (now ∷ times) h k (p, a) =
    ground (arith, record_all-Spaced (record_rejection t now).0 now times)
