-- ===== src/Register/Store.antt =====
-- The state of RegisterStore (src/RegisterStore.h, src/RegisterStore.cpp). Each call of `nowMs_` is an
-- argument, in the order of the calls, since the wall clock may move between them. The mutex
-- serialises the operations, so each is one step. A change listener is a number, or `none` where the
-- std::function is empty; `fired` is the record of the calls that the store has made.
use clipp.Prelude.{
  ℕ, ◌+◌, ◌*◌, ◌/◌, Bool, false, not, ◌&&◌, Option, none, some, List, [], ◌∷◌, ◌++◌, length,
  is_empty, keep_if, list_order, ℕ_order, if◌then◌else◌,
}
use clipp.Bytes.{Bytes}
use clipp.Clock.{Hlc, HlcClock, zero_hlc, now, seed_floor, high_water}
use clipp.OrderedMap.{insert_or_assign}
use clipp.Register.{RegisterRecord, is_tombstone, is_expired}

abbrev pub Records : Type 0
Records = List (Bytes × RegisterRecord)

pub record RegisterStore : Type 0 where
  pub change_listeners : List (Option ℕ)
  pub fired : List ℕ
  pub clock : HlcClock
  pub records : Records
  pub local_host : Bytes
  pub ttl_ms : ℕ
  pub max_count : ℕ
  pub max_value_bytes : ℕ

abbrev pub default_ttl_ms : ℕ
default_ttl_ms = 90 * 24 * 60 * 60 * 1000

abbrev pub default_max_count : ℕ
default_max_count = 1024

abbrev pub default_max_value_bytes : ℕ
default_max_value_bytes = 64 * 1024 * 1024

-- The constructor.
unfoldable pub new_store : Bytes → ℕ → ℕ → ℕ → RegisterStore
new_store host ttl count bytes = record {
  change_listeners = [];
  fired = [];
  clock = record { last = zero_hlc };
  records = [];
  local_host = host;
  ttl_ms = ttl;
  max_count = count;
  max_value_bytes = bytes;
}

pub data WriteResult : Type 0 where
  ok invalid_name value_too_large cap_exceeded : WriteResult

pub data DeleteResult : Type 0 where
  deleted not_found : DeleteResult

unfoldable pub set_local_host : RegisterStore → Bytes → RegisterStore
set_local_host s host = record s { local_host = host }

unfoldable pub set_limits : RegisterStore → ℕ → ℕ → ℕ → RegisterStore
set_limits s ttl count bytes = record s { ttl_ms = ttl; max_count = count; max_value_bytes = bytes }

unfoldable pub add_change_listener : RegisterStore → Option ℕ → RegisterStore
add_change_listener s l = record s { change_listeners = s.change_listeners ++ l ∷ [] }

-- `if (listener) listener();`
unfoldable pub present : List (Option ℕ) → List ℕ
present [] = []
present (none ∷ ls) = present ls
present (some l ∷ ls) = l ∷ present ls

unfoldable pub notify_changed : RegisterStore → RegisterStore
notify_changed s = record s { fired = s.fired ++ present s.change_listeners }

unfoldable pub seed_clock_floor : RegisterStore → Hlc → RegisterStore
seed_clock_floor s floor = record s { clock = seed_floor s.clock floor }

unfoldable pub clock_high_water : RegisterStore → Hlc
clock_high_water s = high_water s.clock

abbrev pub unexpired : ℕ → ℕ → Bytes × RegisterRecord → Bool
unexpired now_ms ttl (name, r) = not (is_expired r now_ms ttl)

unfoldable pub prune_expired : RegisterStore → ℕ → RegisterStore
prune_expired s now_ms = record s { records = keep_if (unexpired now_ms s.ttl_ms) s.records }

-- A live value that counts against the cap; the mirror never does.
abbrev pub counts : ℕ → ℕ → Bytes × RegisterRecord → Bool
counts now_ms ttl (name, r) =
    not (is_empty name) && (not (is_tombstone r) && not (is_expired r now_ms ttl))

unfoldable pub count_live : ℕ → ℕ → Records → ℕ
count_live now_ms ttl [] = 0
count_live now_ms ttl (e ∷ m) =
    let n = count_live now_ms ttl m in if counts now_ms ttl e then n + 1 else n

unfoldable pub live_count : RegisterStore → ℕ → ℕ
live_count s now_ms = count_live now_ms s.ttl_ms s.records

unfoldable pub physical_count : RegisterStore → ℕ
physical_count s = length s.records

-- static_cast<uint8_t>(valueFlags & ~RegisterFlags::Tombstone): bit 0 cleared
abbrev pub without_tombstone : ℕ → ℕ
without_tombstone flags = flags / 2 * 2

abbrev pub is_live_value : Option RegisterRecord → Bool
is_live_value none = false
is_live_value (some r) = not (is_tombstone r)

-- The end of UpsertLocked: a fresh timestamp and the record that carries it.
unfoldable pub write : RegisterStore → Bytes → Bytes → ℕ → Bytes → ℕ → RegisterStore
write s name value value_flags origin now_ms =
    let c = now s.clock now_ms in
    record s {
      clock = c;
      records =
          insert_or_assign name
            (record {
              name = name;
              value = value;
              written = c.last;
              touched = c.last;
              origin_host_id = origin;
              flags = without_tombstone value_flags;
            })
            s.records;
    }
