-- ===== src/Examples/Records.antt =====
-- Runs of the merge core and of the name validator of src/RegisterStore.cpp.
use clipp.Prelude.{ℕ, ◌≡◌, ◌↔◌, refl, true, false, list_beq, list_less, [], ◌∷◌, arith}
use clipp.Bytes.{Bytes}
use clipp.Register.{RegisterRecord, merge_records, value_less}
use clipp.Register.Merge.{merge_comm, IsJoin, merge-IsJoin}
use clipp.Register.Name.{is_valid_register_name, is_valid_register_name_iff, IsName, all_accepted}
use clipp.Utf8.{decode_code_point, continuations}

abbrev pub key : Bytes
key = b'k' ∷ []

-- A record of the register `k`, from a host with one byte of difference.
abbrev pub version_of : ℕ → ℕ → ℕ → ℕ → RegisterRecord
version_of value at touch host = record {
  name = key;
  value = value ∷ [];
  written = record { wall_ms = at; counter = 0 };
  touched = record { wall_ms = touch; counter = 0 };
  origin_host_id = host ∷ [];
  flags = 0;
}

abbrev pub left : RegisterRecord
left = version_of 1 100 150 7

abbrev pub right : RegisterRecord
right = version_of 2 100 120 8

abbrev pub late : RegisterRecord
late = version_of 3 130 130 7

-- On a tie of the writes the greater host id wins, and the later touch stays.
merge_run : merge_records left right ≡ version_of 2 100 150 8
unfolding merge_records value_less list_beq list_less
merge_run = refl

merge_comm_example : merge_records left right ≡ merge_records right left
merge_comm_example = merge_comm left right refl

merge-IsJoin_example : IsJoin left right (merge_records left right)
merge-IsJoin_example = merge-IsJoin left right

-- "é k": a name with a letter of two bytes and a space inside
abbrev accented : Bytes
accented = 0xc3 ∷ 0xa9 ∷ b' ' ∷ b'k' ∷ []

is_valid_register_name_iff_example : (is_valid_register_name accented ≡ true) ↔ IsName accented
is_valid_register_name_iff_example = is_valid_register_name_iff accented (omega arith)

valid_run : is_valid_register_name accented ≡ true
unfolding is_valid_register_name all_accepted decode_code_point continuations
valid_run = refl

-- a slash, a leading space, and a lone continuation byte
invalid_runs :
    (is_valid_register_name (b'a' ∷ b'/' ∷ b'b' ∷ []) ≡ false)
    × (is_valid_register_name (b' ' ∷ b'a' ∷ []) ≡ false)
    × (is_valid_register_name (b'a' ∷ 0x80 ∷ []) ≡ false)
unfolding is_valid_register_name all_accepted decode_code_point continuations
invalid_runs = (refl, refl, refl)
