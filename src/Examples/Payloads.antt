-- ===== src/Examples/Payloads.antt =====
-- Runs of the payloads of src/ClipboardPayload.h, their frames and their files, with a hash and a
-- compression that change nothing.
use clipp.Prelude.{◌≡◌, refl, ◌+◌, Bool, true, false, some, none, [], ◌∷◌, length, arith, any_of}
use clipp.Bytes.{Bytes}
use clipp.Payload.{ClipboardPayload, clipp_format_utf8}
use clipp.Payload.Lines.{
  canonicalize_crlf_to_lf, expand_lf_to_crlf, is_cr, canonicalize-expand, fold_to_lf,
  unfold_to_crlf,
}
use clipp.Payload.Plain.{
  Codec, IsCodec, zeros, canonical, set_uncompressed_bytes, hashed, stored,
  try_get_uncompressed_bytes,
}
use clipp.Payload.Guard.{new_guard, accept_current}
use clipp.Payload.Echo.{accept_current-canonicalize}
use clipp.Payload.Frame.{
  sizes_agree, send_clipboard_payload, try_decode_clipboard_frame, try_decode_clip_record,
}
use clipp.Payload.Decoded.{FitsMessage, SaysSize, framed, try_decode-framed}
use clipp.Payload.Delivered.{try_get-set_uncompressed_bytes}
use clipp.Payload.Stored.{
  loaded, corrupt, holds, seal_payloads, load_snapshot_file, load_inbox_item_file, seal_inbox_item,
  encode_payloads, inbox_magic, clip_version,
}
use clipp.Payload.Loaded.{Storable, load-seal_payloads, load-seal_inbox_item}
use clipp.SealedSnapshot.{seal}
use clipp.Examples.Snapshots.{open_cipher, open_cipher-IsCipher, nonce, key}

abbrev copying : Codec
copying = record {
  digest = λ bs seed. zeros 16;
  compress = λ bs. some bs;
  frame_size = λ bs. some (length bs);
  decompress = λ bs n. some bs;
}

copying-IsCodec : IsCodec copying
unfolding zeros
copying-IsCodec = record {
  digest_size = λ bs seed. refl;
  says_size = λ bs frame e. ground (arith, e);
  inverts = λ bs frame e. ground (arith, e);
}

abbrev blank : ClipboardPayload
blank = record {
  meta = record {
    flags = 0;
    timestamp = 5;
    hash_alg = 0;
    reserved0 = zeros 3;
    hash_bytes = zeros 64;
    origin_host_id = zeros 16;
    origin_host_name = zeros 128;
    origin_sequence_number = 1;
    event_guid = zeros 16;
    reserved1 = zeros 16;
    format_id = clipp_format_utf8;
    is_compressed = 0;
    payload_data_size = 0;
    uncompressed_data_size = 0;
  };
  encoded = [];
}

blank_fits : FitsMessage blank.meta
unfolding zeros
blank_fits = record {
  flags_fit = omega arith;
  timestamp_fits = omega arith;
  reserved0_size = refl;
  hash_size = refl;
  host_size = refl;
  name_size = refl;
  sequence_fits = omega arith;
  guid_size = refl;
  reserved1_size = refl;
  format_fits = omega arith;
  payload_fits = omega arith;
  uncompressed_fits = omega arith;
}

blank-Storable : Storable blank
unfolding sizes_agree
blank-Storable = record { fits = blank_fits; small = omega arith; agree = refl }

-- Two lines, with each of the endings.
abbrev lines : Bytes
lines = 97 ∷ 13 ∷ 10 ∷ 98 ∷ 13 ∷ 99 ∷ 10 ∷ []

canonicalize-expand_example :
    (canonicalize_crlf_to_lf (expand_lf_to_crlf lines) ≡ canonicalize_crlf_to_lf lines)
    × ((expand_lf_to_crlf (canonicalize_crlf_to_lf lines) ≡ expand_lf_to_crlf lines)
        × (any_of is_cr (canonicalize_crlf_to_lf lines) ≡ false))
canonicalize-expand_example = canonicalize-expand lines

lines_canonical : canonicalize_crlf_to_lf lines ≡ 97 ∷ 10 ∷ 98 ∷ 10 ∷ 99 ∷ 10 ∷ []
unfolding canonicalize_crlf_to_lf fold_to_lf any_of
lines_canonical = refl

lines_expanded : expand_lf_to_crlf lines ≡ 97 ∷ 13 ∷ 10 ∷ 98 ∷ 13 ∷ 10 ∷ 99 ∷ 13 ∷ 10 ∷ []
unfolding expand_lf_to_crlf unfold_to_crlf any_of
lines_expanded = refl

accept_current-canonicalize_example :
    (accept_current
      (accept_current new_guard (set_uncompressed_bytes copying blank lines).0).0
      (set_uncompressed_bytes copying blank (97 ∷ 10 ∷ 98 ∷ 10 ∷ 99 ∷ 10 ∷ [])).0).1
    ≡ false
accept_current-canonicalize_example =
    accept_current-canonicalize copying new_guard blank blank lines
      (97 ∷ 10 ∷ 98 ∷ 10 ∷ 99 ∷ 10 ∷ []) refl refl
      (unfold canonicalize_crlf_to_lf in unfold fold_to_lf in unfold any_of in refl)

try_decode-framed_example :
    (SaysSize blank.meta (length blank.encoded)
      → try_decode_clipboard_frame (framed blank) ≡ some blank)
    × (¬ SaysSize blank.meta (length blank.encoded)
        → try_decode_clipboard_frame (framed blank) ≡ none)
    × (try_decode_clip_record (framed blank) ≡ try_decode_clipboard_frame (framed blank))
try_decode-framed_example = try_decode-framed blank blank_fits

-- A channel that takes every frame.
abbrev open_channel : Bytes → Bytes → Bytes → Bool
open_channel tag header body = true

try_get-set_uncompressed_bytes_example :
    (send_clipboard_payload open_channel true (set_uncompressed_bytes copying blank lines).0
      ≡ some (289 + length (set_uncompressed_bytes copying blank lines).0.encoded))
    × ((try_decode_clipboard_frame (framed (set_uncompressed_bytes copying blank lines).0)
          ≡ some (set_uncompressed_bytes copying blank lines).0)
        × (try_get_uncompressed_bytes copying (set_uncompressed_bytes copying blank lines).0
            ≡ some (canonical clipp_format_utf8 lines)))
unfolding set_uncompressed_bytes hashed stored canonicalize_crlf_to_lf fold_to_lf any_of
try_get-set_uncompressed_bytes_example =
    try_get-set_uncompressed_bytes copying blank lines open_channel copying-IsCodec blank_fits
      (omega arith) refl (omega arith) refl

load-seal_payloads_example :
    (load_snapshot_file open_cipher key
        (holds (seal_payloads open_cipher nonce (blank ∷ blank ∷ []) key))
      ≡ (loaded, blank ∷ blank ∷ []))
    × (load_inbox_item_file open_cipher key
          (holds (seal_payloads open_cipher nonce (blank ∷ blank ∷ []) key))
        ≡ (corrupt, none))
load-seal_payloads_example =
    load-seal_payloads open_cipher nonce key (blank ∷ blank ∷ []) open_cipher-IsCipher refl refl
      (omega arith) (blank-Storable, (blank-Storable, tt))

load-seal_inbox_item_example :
    ((blob : Bytes) × ((seal_inbox_item open_cipher nonce blank key ≡ some blob)
        × (load_inbox_item_file open_cipher key (holds blob) ≡ (loaded, some blank))))
    × (load_inbox_item_file open_cipher key (
          holds (
            seal open_cipher inbox_magic clip_version nonce
              (encode_payloads (blank ∷ blank ∷ []))
              key))
        ≡ (corrupt, none))
load-seal_inbox_item_example =
    load-seal_inbox_item open_cipher nonce key blank (blank ∷ blank ∷ []) open_cipher-IsCipher refl
      refl blank-Storable (omega arith) refl (blank-Storable, (blank-Storable, tt))
