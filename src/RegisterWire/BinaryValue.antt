-- ===== src/RegisterWire/BinaryValue.antt =====
-- Binary register values: EncodeBinaryValue and TryParseBinaryValue of src/RegisterWire.cpp.
use clipp.Prelude.{
  ℕ, ◌+◌, ◌*◌, ◌%◌, ◌^◌, ◌≤◌, ◌<◌, ◌≡◌, refl, ◌||◌, Option, some, none, ◌∷◌, ltb, length, drop,
  arith, if◌then◌else◌,
}
use clipp.Bytes.{Bytes, byte_of, at}

abbrev pub binary_header_version : ℕ
binary_header_version = 1

abbrev pub binary_header_v1_size : ℕ
binary_header_v1_size = 8

pub record BinaryValueInfo : Type 0 where
  pub format_id : ℕ
  pub stream_offset : ℕ

-- EncodeBinaryValue; a null stream is the empty one.
unfoldable pub encode_binary_value : ℕ → Bytes → Bytes
encode_binary_value format_id stream =
    binary_header_version
    ∷ 0
    ∷ byte_of binary_header_v1_size 8
    ∷ binary_header_v1_size % 256
    ∷ byte_of format_id 24
    ∷ byte_of format_id 16
    ∷ byte_of format_id 8
    ∷ format_id % 256
    ∷ stream

-- TryParseBinaryValue
unfoldable pub try_parse_binary_value : Bytes → Option BinaryValueInfo
try_parse_binary_value value =
    if ltb (length value) binary_header_v1_size
    then none
    else let header_len = at value 2 * 2 ^ 8 + at value 3 in
      if ltb header_len binary_header_v1_size || ltb (length value) header_len
      then none
      else some (record {
        format_id = at value 4 * 2 ^ 24 + at value 5 * 2 ^ 16 + at value 6 * 2 ^ 8 + at value 7;
        stream_offset = header_len;
      })

-- An encoded value is parsed to its 32-bit format, and the stream starts at the offset.
pub try_parse-encode_binary_value :
    (format_id : ℕ) (stream : Bytes)
    → format_id < 2 ^ 32
    → (try_parse_binary_value (encode_binary_value format_id stream)
        ≡ some (record { format_id = format_id; stream_offset = 8 }))
      × (drop 8 (encode_binary_value format_id stream) ≡ stream)
unfolding try_parse_binary_value encode_binary_value
try_parse-encode_binary_value format_id stream h = (ground arith, refl)

-- What the parser accepts, from whatever version of the header, has an offset behind the fixed part
-- of the header and within the value, so that the stream can be cut out of the value.
pub try_parse_bounds :
    (value : Bytes) (info : BinaryValueInfo)
    → try_parse_binary_value value ≡ some info
    → (binary_header_v1_size ≤ info.stream_offset) × (info.stream_offset ≤ length value)
unfolding try_parse_binary_value
try_parse_bounds value info e = ground arith
