-- ===== src/Payload.antt =====
-- Clipboard payloads: ClipboardMessage of src/NetworkDefs.h and ClipboardPayload of
-- src/ClipboardPayload.h, without its caches of decoded bytes.
pub mod Lines
pub mod Plain
pub mod Guard
pub mod Echo
pub mod Frame
pub mod Decoded
pub mod Delivered
pub mod Stored
pub mod Loaded
use clipp.Prelude.{ℕ, Bool, true, ◌&&◌, [], ◌∷◌, ◌==◌}
use clipp.Bytes.{Bytes}

abbrev pub clipp_format_none : ℕ
clipp_format_none = 0

abbrev pub clipp_format_utf8 : ℕ
clipp_format_utf8 = 13

pub record ClipboardMessage : Type 0 where
  pub flags : ℕ
  pub timestamp : ℕ
  pub hash_alg : ℕ
  pub reserved0 : Bytes
  pub hash_bytes : Bytes
  pub origin_host_id : Bytes
  pub origin_host_name : Bytes
  pub origin_sequence_number : ℕ
  pub event_guid : Bytes
  pub reserved1 : Bytes
  pub format_id : ℕ
  pub is_compressed : ℕ
  pub payload_data_size : ℕ
  pub uncompressed_data_size : ℕ

pub record ClipboardPayload : Type 0 where
  pub meta : ClipboardMessage
  pub encoded : Bytes

-- std::all_of(..., [](uint8_t b) { return b == 0; })
unfoldable pub is_zero : Bytes → Bool
is_zero [] = true
is_zero (b ∷ bs) = b == 0 && is_zero bs
