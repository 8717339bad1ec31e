-- ===== src/Bytes/RoundTrip.antt =====
-- Reading back what was put, with any bytes behind it.
use clipp.Prelude.{
  ℕ, ◌^◌, ◌<◌, ◌≡◌, some, [], ◌∷◌, ◌++◌, length, take-append_length, drop-append_length,
  length-append, le→ltb, append-nil, arith,
}
use clipp.Bytes.{
  Bytes, u64_mod, put_u16, put_u32, put_u64, shift_in, read_string, read_u8, read_u16, read_u32,
  read_u64,
}

pub read_string-append : (xs rest : Bytes) → read_string (length xs) (xs ++ rest) ≡ some (xs, rest)
unfolding read_string
read_string-append xs rest = rw (
  le→ltb (length (xs ++ rest)) (length xs) (omega (arith, length-append xs rest)),
  take-append_length xs rest,
  drop-append_length xs rest,
)

pub read_string_all : (xs : Bytes) → read_string (length xs) xs ≡ some (xs, [])
read_string_all xs = rw append-nil at (read_string-append xs [])

pub read_u8_put : (b : ℕ) (rest : Bytes) → read_u8 (b ∷ rest) ≡ some (b, rest)
unfolding read_u8
read_u8_put b rest = ground arith

pub read_u16_put :
    (v : ℕ) (rest : Bytes) → v < 2 ^ 16 → read_u16 (put_u16 v ++ rest) ≡ some (v, rest)
unfolding read_u16 put_u16
read_u16_put v rest h = ground arith

pub read_u32_put :
    (v : ℕ) (rest : Bytes) → v < 2 ^ 32 → read_u32 (put_u32 v ++ rest) ≡ some (v, rest)
unfolding read_u32 put_u32
read_u32_put v rest h = ground arith

pub shift_in-put_u64 : (v : ℕ) → v < u64_mod → shift_in 0 (put_u64 v) ≡ v
unfolding shift_in put_u64
shift_in-put_u64 v h = omega arith

pub read_u64_put :
    (v : ℕ) (rest : Bytes) → v < u64_mod → read_u64 (put_u64 v ++ rest) ≡ some (v, rest)
unfolding read_u64 put_u64
read_u64_put v rest h = ground (arith, shift_in-put_u64 v)
