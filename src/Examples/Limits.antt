-- ===== src/Examples/Limits.antt =====
-- Runs of the log throttle of src/DefensiveLogThrottle.h.
use clipp.Prelude.{ℕ, refl, true, List, [], ◌∷◌, arith}
use clipp.PeerLimits.Throttle.{DefensiveLogThrottle, record_all, Spaced, record_all-Spaced}

abbrev times : List ℕ
times = 5 ∷ 20 ∷ 70 ∷ 90 ∷ []

abbrev running : DefensiveLogThrottle
running = record {
  report_interval = 60;
  last_report_at = 5;
  rejected_since_last_report = 0;
  has_reported = true;
}

record_all-Spaced_example : Spaced 60 5 (record_all running (20 ∷ 70 ∷ 90 ∷ []))
record_all-Spaced_example =
    record_all-Spaced running 5 (20 ∷ 70 ∷ 90 ∷ []) refl (omega arith)
      (omega arith, (omega arith, (omega arith, tt)))
