-- ===== src/Payload/Frame.antt =====
-- CLIP frames: SendClipboardPayload and TryDecodeClipboardFrame of src/ClipboardWire.cpp, with the byte
-- order of src/NetworkDefs.h, and EncodeRecord and TryDecodeRecord of src/ClipboardPersistence.cpp.
use clipp.Prelude.{
  ℕ, ◌+◌, ◌-◌, ◌*◌, Bool, not, ◌&&◌, ◌||◌, Option, none, some, [], ◌∷◌, ◌++◌, ltb, leb, ◌==◌, beq,
  list_order, ℕ_order, length, take, drop, if◌then◌else◌, ◌>>=◌, ◌>>◌, guard,
}
use clipp.Bytes.{Bytes, Reader, put_u32, put_u64, read_u8, read_u32, read_u64, read_string}
use clipp.Payload.{ClipboardMessage, ClipboardPayload}
use clipp.Payload.Plain.{max_decompressed_clipboard_bytes}

abbrev pub clip_header_size : ℕ
clip_header_size = 285

-- "CLIP"
abbrev pub clip_tag : Bytes
clip_tag = 67 ∷ 76 ∷ 73 ∷ 80 ∷ []

-- The tag, the header, and the overhead of libsodium's secret stream.
abbrev pub frame_overhead : ℕ
frame_overhead = 4 + clip_header_size + 17

abbrev pub max_encoded_payload_bytes : ℕ
max_encoded_payload_bytes = 64 * 1024 * 1024 - frame_overhead

abbrev pub max_body_bytes : ℕ
max_body_bytes = 64 * 1024 * 1024

-- The bytes of a ClipboardMessage in the order of the network.
unfoldable pub put_message : ClipboardMessage → Bytes
put_message m =
    put_u32 m.flags
    ++ (put_u64 m.timestamp
        ++ (m.hash_alg
            ∷ (m.reserved0
                ++ (m.hash_bytes
                    ++ (m.origin_host_id
                        ++ (m.origin_host_name
                            ++ (put_u64 m.origin_sequence_number
                                ++ (m.event_guid
                                    ++ (m.reserved1
                                        ++ (put_u32 m.format_id
                                            ++ (m.is_compressed
                                                ∷ (put_u64 m.payload_data_size
                                                    ++ put_u64 m.uncompressed_data_size))))))))))))

unfoldable pub read_message : Reader ClipboardMessage
read_message bs = do
  (flags, b₁) ← read_u32 bs
  (timestamp, b₂) ← read_u64 b₁
  (hash_alg, b₃) ← read_u8 b₂
  (reserved0, b₄) ← read_string 3 b₃
  (hash_bytes, b₅) ← read_string 64 b₄
  (origin_host_id, b₆) ← read_string 16 b₅
  (origin_host_name, b₇) ← read_string 128 b₆
  (origin_sequence_number, b₈) ← read_u64 b₇
  (event_guid, b₉) ← read_string 16 b₈
  (reserved1, b₁₀) ← read_string 16 b₉
  (format_id, b₁₁) ← read_u32 b₁₀
  (is_compressed, b₁₂) ← read_u8 b₁₁
  (payload_data_size, b₁₃) ← read_u64 b₁₂
  (uncompressed_data_size, b₁₄) ← read_u64 b₁₃
  some (
    record {
      flags = flags;
      timestamp = timestamp;
      hash_alg = hash_alg;
      reserved0 = reserved0;
      hash_bytes = hash_bytes;
      origin_host_id = origin_host_id;
      origin_host_name = origin_host_name;
      origin_sequence_number = origin_sequence_number;
      event_guid = event_guid;
      reserved1 = reserved1;
      format_id = format_id;
      is_compressed = is_compressed;
      payload_data_size = payload_data_size;
      uncompressed_data_size = uncompressed_data_size;
    },
    b₁₄,
  )

-- SendClipboardPayload: the bytes that were sent, or a failure. `send_frame` is CryptoChannel::SendFrame
-- on the tag, the header and the body.
unfoldable pub send_clipboard_payload :
    (Bytes → Bytes → Bytes → Bool) → Bool → ClipboardPayload → Option ℕ
send_clipboard_payload send_frame socket_is_valid p =
    if ltb max_encoded_payload_bytes (length p.encoded)
    then none
    else if not socket_is_valid
    then none
    else if not (send_frame clip_tag (put_message p.meta) p.encoded)
    then none
    else some (4 + clip_header_size + length p.encoded)

-- The checks of a header against the size of the body.
unfoldable pub sizes_agree : ClipboardMessage → ℕ → Bool
sizes_agree m body_bytes =
    m.payload_data_size == body_bytes
    && (leb m.uncompressed_data_size max_decompressed_clipboard_bytes
        && (not (m.is_compressed == 0) || m.payload_data_size == m.uncompressed_data_size))

-- TryDecodeClipboardFrame: the tag is not looked at.
unfoldable pub try_decode_clipboard_frame : Bytes → Option ClipboardPayload
try_decode_clipboard_frame frame = if ltb (length frame) (4 + clip_header_size) then none else do
  (m, body) ← read_message (drop 4 frame)
  guard (sizes_agree m (length frame - 4 - clip_header_size))
  some (record { meta = m; encoded = body })

-- EncodeRecord; an empty record is skipped by Seal.
unfoldable pub encode_clip_record : ClipboardPayload → Bytes
encode_clip_record p =
    if ltb max_body_bytes (length p.encoded)
    then []
    else clip_tag ++ (put_message p.meta ++ p.encoded)

-- TryDecodeRecord
unfoldable pub try_decode_clip_record : Bytes → Option ClipboardPayload
try_decode_clip_record frame =
    if ltb (length frame) (4 + clip_header_size)
    then none
    else if not (beq (take 4 frame) clip_tag)
    then none
    else do
      (m, body) ← read_message (drop 4 frame)
      guard (sizes_agree m (length frame - 4 - clip_header_size))
      some (record { meta = m; encoded = body })
