-- ===== src/Examples/Frames.antt =====
-- Runs of the frames of src/RegisterWire.cpp.
use clipp.Prelude.{ℕ, Bool, true, ltb, ◌&&◌, ◌≡◌, refl, some, [], ◌∷◌, take, arith}
use clipp.Bytes.{Bytes, AllBytes, put_u16, put_u32, put_u64}
use clipp.Clock.{IsHlc, pack}
use clipp.Register.{RegisterRecord, RegisterDigestEntry}
use clipp.RegisterWire.{
  FitsFrame, put_hlc, encode_record, try_decode_record, encode_digest, try_decode_digest,
  RegisterListEntry, max_digest_entries,
}
use clipp.RegisterWire.RecordFrame.{try_decode-encode_record}
use clipp.RegisterWire.RecordStrict.{set_reserved, try_decode_record-inv}
use clipp.RegisterWire.ListFrames.{try_decode-encode_digest}
use clipp.RegisterWire.BinaryValue.{try_parse_binary_value}

abbrev host : Bytes
host = 1 ∷ 2 ∷ 3 ∷ 4 ∷ 5 ∷ 6 ∷ 7 ∷ 8 ∷ 9 ∷ 10 ∷ 11 ∷ 12 ∷ 13 ∷ 14 ∷ 15 ∷ 16 ∷ []

abbrev pub sample : RegisterRecord
sample = record {
  name = b'k' ∷ [];
  value = 104 ∷ 105 ∷ [];
  written = record { wall_ms = 100; counter = 1 };
  touched = record { wall_ms = 150; counter = 0 };
  origin_host_id = host;
  flags = 2;
}

written_fits : IsHlc sample.written
written_fits = record { wall_fits = omega arith; counter_fits = omega arith }

touched_fits : IsHlc sample.touched
touched_fits = record { wall_fits = omega arith; counter_fits = omega arith }

abbrev small : Bytes → Bool
small [] = true
small (b ∷ bs) = ltb b 256 && small bs

small-AllBytes : (bs : Bytes) → small bs ≡ true → AllBytes bs
small-AllBytes [] h = tt
small-AllBytes (b ∷ bs) h = (ground arith, small-AllBytes bs (ground arith))

frame_small : small (encode_record sample 1) ≡ true
unfolding encode_record put_hlc pack put_u64 put_u32 put_u16
frame_small = refl

pub sample_fits : FitsFrame sample
sample_fits = record {
  written_fits = written_fits;
  touched_fits = touched_fits;
  origin_size = refl;
  name_fits = omega arith;
  value_fits = omega arith;
}

try_decode-encode_record_example : try_decode_record (encode_record sample 1) ≡ some (sample, 1)
try_decode-encode_record_example = try_decode-encode_record sample 1 sample_fits

try_decode_record-inv_example :
    (reserved : ℕ) × (encode_record sample 1 ≡ set_reserved reserved (encode_record sample 1))
    × FitsFrame sample
try_decode_record-inv_example =
    try_decode_record-inv (encode_record sample 1) sample 1 (small-AllBytes _ frame_small)
      (try_decode-encode_record sample 1 sample_fits)

abbrev entry : RegisterDigestEntry
entry = record { name = b'k' ∷ []; written = sample.written; touched = sample.touched }

try_decode-encode_digest_example :
    try_decode_digest (encode_digest (entry ∷ [])) ≡ some (take max_digest_entries (entry ∷ []))
try_decode-encode_digest_example = try_decode-encode_digest (entry ∷ []) (
  record { name_fits = omega arith; written_fits = written_fits; touched_fits = touched_fits },
  tt,
)

abbrev listed : RegisterListEntry
listed = record {
  name = b'k' ∷ [];
  touched = sample.touched;
  value_size = 2;
  origin_host_id = host;
  flags = 2;
  preview = 104 ∷ 105 ∷ [];
  origin_host_name = b'h' ∷ [];
}

-- A header of a later version, ten bytes long.
abbrev longer : Bytes
longer = 2 ∷ 0 ∷ 0 ∷ 10 ∷ 0 ∷ 0 ∷ 0 ∷ 7 ∷ 0 ∷ 0 ∷ 65 ∷ []

longer_parsed : try_parse_binary_value longer ≡ some (record { format_id = 7; stream_offset = 10 })
unfolding try_parse_binary_value
longer_parsed = refl
