-- ===== src/Bytes.antt =====
-- Byte strings and fixed-width big-endian integers: the Put functions and the Reader of
-- src/RegisterWire.cpp, which src/ClipboardPersistence.cpp and src/RegisterPersistence.cpp repeat.
pub mod RoundTrip
pub mod Compare
pub mod Inverse
use clipp.Prelude.{
  ℕ, zero, suc, ◌+◌, ◌*◌, ◌/◌, ◌%◌, ◌^◌, ◌<◌, Option, none, some, List, [], ◌∷◌, ◌++◌, ltb, length,
  get_or, take, drop, All, if◌then◌else◌, ◌>>=◌,
}

-- A std::string or std::vector<unsigned char>: its bytes.
abbrev pub Bytes : Type 0
Bytes = List ℕ

abbrev pub IsByte : ℕ → Type 0
IsByte b = b < 256

abbrev pub AllBytes : Bytes → Type 0
AllBytes = All IsByte

abbrev pub u64_mod : ℕ
u64_mod = 2 ^ 64

-- (v >> k) & 0xFF
abbrev pub byte_of : ℕ → ℕ → ℕ
byte_of v k = v / 2 ^ k % 256

unfoldable pub put_u16 : ℕ → Bytes
put_u16 v = byte_of v 8 ∷ v % 256 ∷ []

unfoldable pub put_u32 : ℕ → Bytes
put_u32 v = byte_of v 24 ∷ byte_of v 16 ∷ byte_of v 8 ∷ v % 256 ∷ []

-- for (shift = 56; shift >= 0; shift -= 8)
unfoldable pub put_u64 : ℕ → Bytes
put_u64 v =
    byte_of v 56
    ∷ byte_of v 48
    ∷ byte_of v 40
    ∷ byte_of v 32
    ∷ byte_of v 24
    ∷ byte_of v 16
    ∷ byte_of v 8
    ∷ v % 256
    ∷ []

-- out = (out << 8) | p[i], over a list of bytes; the low eight bits are free for the byte.
unfoldable pub shift_in : ℕ → Bytes → ℕ
shift_in out [] = out
shift_in out (b ∷ bs) = shift_in (out * 256 % u64_mod + b) bs

-- A read from the front of the input: the value and what is left, or a failure.
abbrev pub Reader {ℓ} : Type ℓ → Type ℓ
Reader A = Bytes → Option (A × Bytes)

-- The next n bytes, which every read takes: `if (remaining < n) return false;`, and the advance.
unfoldable pub read_string : ℕ → Reader Bytes
read_string n bs = if ltb (length bs) n then none else some (take n bs, drop n bs)

abbrev pub at : Bytes → ℕ → ℕ
at p i = get_or p i 0

unfoldable pub read_u8 : Reader ℕ
unfolding read_string
read_u8 bs = do (p, rest) ← read_string 1 bs; some (at p 0, rest)

unfoldable pub read_u16 : Reader ℕ
unfolding read_string
read_u16 bs = do (p, rest) ← read_string 2 bs; some (at p 0 * 2 ^ 8 + at p 1, rest)

unfoldable pub read_u32 : Reader ℕ
unfolding read_string
read_u32 bs = do
  (p, rest) ← read_string 4 bs
  some (at p 0 * 2 ^ 24 + at p 1 * 2 ^ 16 + at p 2 * 2 ^ 8 + at p 3, rest)

unfoldable pub read_u64 : Reader ℕ
unfolding read_string shift_in
read_u64 bs = do (p, rest) ← read_string 8 bs; some (shift_in 0 p, rest)
