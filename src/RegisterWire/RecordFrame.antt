-- ===== src/RegisterWire/RecordFrame.antt =====
-- REGW frames: EncodeRecord and TryDecodeRecord.
use clipp.Prelude.{ℕ, ◌^◌, ◌%◌, ◌≡◌, some, le→leb, length, arith}
use clipp.Bytes.RoundTrip.{read_string_all, read_u8_put, read_u32_put}
use clipp.Register.{RegisterRecord}
use clipp.RegisterWire.{
  FitsFrame, version, max_name_len, max_value_len, encode_record, try_decode_record, read_head,
  read_stamps, read_value,
}
use clipp.RegisterWire.Fields.{read_hlc_put, read_host_id_put, read_short_put}

module _ (r : RegisterRecord) (transport : ℕ) (v : FitsFrame r) where
  -- Decoding an encoded record that fits a frame gives back the record and the transport flags.
  pub try_decode-encode_record : try_decode_record (encode_record r transport) ≡ some (r, transport)
  unfolding try_decode_record encode_record read_head read_stamps read_value
  try_decode-encode_record =
      let same : length r.value % 2 ^ 32 ≡ length r.value = omega (arith, v.value_fits) in
      rw (
        read_u8_put version _,
        read_u8_put r.flags _,
        read_u8_put transport _,
        read_u8_put 0 _,
        read_hlc_put r.written _ v.written_fits,
        read_hlc_put r.touched _ v.touched_fits,
        read_host_id_put r.origin_host_id _ v.origin_size,
        read_short_put max_name_len r.name _ v.name_fits (omega arith),
        same,
        read_u32_put (length r.value) r.value (omega (arith, v.value_fits)),
        le→leb (length r.value) max_value_len v.value_fits,
        read_string_all r.value,
      )
