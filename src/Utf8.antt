-- ===== src/Utf8.antt =====
-- The UTF-8 decoder and encoder of src/platform.h (clipp_platform_detail). The decoder reads from
-- the front of what is left of the text; where it fails the source moves on by one byte, which is
-- left to the caller. A mask that keeps the high bits is a division, one that keeps the low bits a
-- remainder.
pub mod RoundTrip
use clipp.Prelude.{
  ℕ, zero, suc, ◌+◌, ◌*◌, ◌/◌, ◌%◌, ◌<◌, ◌⊎◌, Option, none, some, List, [], ◌∷◌, ◌++◌, ◌&&◌, ◌||◌,
  ltb, leb, ◌==◌, length, if◌then◌else◌, ◌>>=◌,
}
use clipp.Bytes.{Bytes}

-- What a lead byte announces: its value bits, the continuation bytes and the least code point.
pub record Lead : Type 0 where
  pub value : ℕ
  pub continuation_count : ℕ
  pub minimum_value : ℕ

unfoldable pub classify : ℕ → Option Lead
classify lead =
    if lead / 32 == 6
    then some (record { value = lead % 32; continuation_count = 1; minimum_value = 0x80 })
    else if lead / 16 == 14
    then some (record { value = lead % 16; continuation_count = 2; minimum_value = 0x800 })
    else if lead / 8 == 30
    then some (record { value = lead % 8; continuation_count = 3; minimum_value = 0x10000 })
    else none

-- The loop over the continuation bytes.
unfoldable pub continuations : ℕ → ℕ → Bytes → Option (ℕ × Bytes)
continuations zero value bs = some (value, bs)
continuations (suc n) value [] = none
continuations (suc n) value (next ∷ bs) =
    let rest = continuations n (value * 64 + next % 64) bs in if next / 64 == 2 then rest else none

unfoldable pub in_range : Lead → ℕ → Bytes → Option (ℕ × Bytes)
in_range l value rest =
    if ltb value l.minimum_value || ltb 0x10ffff value || (leb 0xd800 value && leb value 0xdfff)
    then none
    else some (value, rest)

-- DecodeUtf8CodePoint: the code point and the text behind it.
unfoldable pub decode_code_point : Bytes → Option (ℕ × Bytes)
unfolding classify in_range
decode_code_point [] = none
decode_code_point (lead ∷ rest) = if ltb lead 0x80 then some (lead, rest) else do
  l ← classify lead
  if ltb (length rest) l.continuation_count then none else do
    (value, behind) ← continuations l.continuation_count l.value rest
    in_range l value behind

-- AppendUtf8CodePoint: what it appends to the output.
unfoldable pub encode_code_point : ℕ → Bytes
encode_code_point c =
    if leb c 0x7f
    then c ∷ []
    else if leb c 0x7ff
    then (0xc0 + c / 64) ∷ (0x80 + c % 64) ∷ []
    else if leb c 0xffff
    then (0xe0 + c / 4096) ∷ (0x80 + c / 64 % 64) ∷ (0x80 + c % 64) ∷ []
    else (0xf0 + c / 262144) ∷ (0x80 + c / 4096 % 64) ∷ (0x80 + c / 64 % 64) ∷ (0x80 + c % 64) ∷ []

-- A Unicode scalar value.
pub record IsScalar (c : ℕ) : Type 0 where
  pub in_unicode : c < 0x110000
  pub no_surrogate : (c < 0xd800) ⊎ (0xdfff < c)
