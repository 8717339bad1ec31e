-- ===== src/Register/Expiry.antt =====
-- IsExpired of src/RegisterStore.cpp: the idle time to live, and its interplay with the merge.
use clipp.Prelude.{ℕ, ◌+◌, ◌≤◌, ◌≡◌, ◌↔◌, true, ◌&&◌, arith}
use clipp.Clock.{hlc_order}
use clipp.Register.{RegisterRecord, is_expired, merge_records}

-- A record is expired exactly when its last touch and the time to live add up to at most the clock.
pub is_expired_iff :
    (r : RegisterRecord) (now_ms ttl_ms : ℕ)
    → (is_expired r now_ms ttl_ms ≡ true) ↔ (r.touched.wall_ms + ttl_ms ≤ now_ms)
unfolding is_expired
is_expired_iff r now_ms ttl_ms = ground arith

-- Once expired, a record stays so.
pub is_expired_mono :
    (r : RegisterRecord) (now_ms later_ms ttl_ms : ℕ)
    → now_ms ≤ later_ms
    → is_expired r now_ms ttl_ms ≡ true
    → is_expired r later_ms ttl_ms ≡ true
is_expired_mono r now_ms later_ms ttl_ms h e =
    (is_expired_iff r later_ms ttl_ms).1 (omega (arith, (is_expired_iff r now_ms ttl_ms).0 e))

-- A merge is expired exactly when both of its sides are.
pub is_expired-merge :
    (a b : RegisterRecord) (now_ms ttl_ms : ℕ)
    → is_expired (merge_records a b) now_ms ttl_ms
      ≡ (is_expired a now_ms ttl_ms && is_expired b now_ms ttl_ms)
unfolding is_expired merge_records
is_expired-merge a b now_ms ttl_ms = ground arith
