-- ===== src/Register.antt =====
-- The records of the register store and the merge core: src/RegisterStore.h and the free functions
-- of src/RegisterStore.cpp. A HostId (src/HostId.h) is its list of bytes; std::string and
-- std::array compare byte by byte.
pub mod Merge
pub mod Store
pub mod Originate
pub mod Inspect
pub mod AntiEntropy
pub mod Dominate
pub mod Converge
pub mod Effect
pub mod History
pub mod Invariant
pub mod Name
pub mod Expiry
use clipp.Prelude.{
  ℕ, ◌-◌, ◌/◌, ◌%◌, Bool, false, not, ◌&&◌, ltb, leb, ◌==◌, less, beq, max_of, ℕ_order, list_order,
  pair_order, if◌then◌else◌,
}
use clipp.Bytes.{Bytes}
use clipp.Clock.{Hlc, hlc_order}

-- The flag bits 0x01, 0x02 and 0x04.
abbrev pub bit_set : ℕ → ℕ → Bool
bit_set flags bit = flags / bit % 2 == 1

abbrev pub tombstone_flag : ℕ
tombstone_flag = 1

abbrev pub private_flag : ℕ
private_flag = 2

abbrev pub binary_header_flag : ℕ
binary_header_flag = 4

pub record RegisterRecord : Type 0 where
  pub name : Bytes
  pub value : Bytes
  pub written : Hlc
  pub touched : Hlc
  pub origin_host_id : Bytes
  pub flags : ℕ

abbrev pub is_tombstone : RegisterRecord → Bool
is_tombstone r = bit_set r.flags tombstone_flag

abbrev pub is_private : RegisterRecord → Bool
is_private r = bit_set r.flags private_flag

abbrev pub is_binary : RegisterRecord → Bool
is_binary r = bit_set r.flags binary_header_flag

pub record RegisterDigestEntry : Type 0 where
  pub name : Bytes
  pub written : Hlc
  pub touched : Hlc

unfoldable pub value_less : RegisterRecord → RegisterRecord → Bool
value_less a b =
    if not (beq a.written b.written)
    then less a.written b.written
    else if not (beq a.origin_host_id b.origin_host_id)
    then less a.origin_host_id b.origin_host_id
    else if not (a.flags == b.flags)
    then ltb a.flags b.flags
    else less a.value b.value

-- The subtraction is reached only if `touched` is not in the future.
unfoldable pub is_expired : RegisterRecord → ℕ → ℕ → Bool
is_expired r now_ms ttl_ms =
    if ltb now_ms r.touched.wall_ms then false else leb ttl_ms (now_ms - r.touched.wall_ms)

-- The caller guarantees that the names are the same.
unfoldable pub merge_records : RegisterRecord → RegisterRecord → RegisterRecord
merge_records a b =
    let out = if value_less a b then b else a in record out { touched = max_of a.touched b.touched }

-- bool operator==(const RegisterRecord&) const = default
unfoldable pub same_record : RegisterRecord → RegisterRecord → Bool
same_record a b =
    beq a.name b.name
    && (beq a.value b.value
        && (beq a.written b.written
            && (beq a.touched b.touched
                && (beq a.origin_host_id b.origin_host_id && a.flags == b.flags))))
