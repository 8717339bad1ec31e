-- ===== src/Payload/Decoded.antt =====
-- What the receivers of CLIP frames of src/ClipboardWire.cpp and src/ClipboardPersistence.cpp get.
use clipp.Prelude.{
  ℕ, ◌+◌, ◌-◌, ◌^◌, ◌<◌, ◌≤◌, ◌*◌, ◌∙◌, ◌≡◌, refl, subst, true, false, none, some, ◌++◌, ltb, beq,
  list_order, ℕ_order, list_beq_iff, append_assoc, length, length-append, take, if◌then◌else◌,
  arith, Bool-cases, inl, inr,
}
use clipp.Bytes.{Bytes, u64_mod, put_u32, put_u64, read_string}
use clipp.Bytes.RoundTrip.{read_string-append, read_u8_put, read_u32_put, read_u64_put}
use clipp.Payload.{ClipboardMessage, ClipboardPayload}
use clipp.Payload.Frame.{
  clip_header_size, clip_tag, put_message, read_message, sizes_agree, try_decode_clipboard_frame,
  try_decode_clip_record,
}

-- The fields have the sizes of their C types.
pub record FitsMessage (m : ClipboardMessage) : Type 0 where
  pub flags_fit : m.flags < 2 ^ 32
  pub timestamp_fits : m.timestamp < u64_mod
  pub reserved0_size : length m.reserved0 ≡ 3
  pub hash_size : length m.hash_bytes ≡ 64
  pub host_size : length m.origin_host_id ≡ 16
  pub name_size : length m.origin_host_name ≡ 128
  pub sequence_fits : m.origin_sequence_number < u64_mod
  pub guid_size : length m.event_guid ≡ 16
  pub reserved1_size : length m.reserved1 ≡ 16
  pub format_fits : m.format_id < 2 ^ 32
  pub payload_fits : m.payload_data_size < u64_mod
  pub uncompressed_fits : m.uncompressed_data_size < u64_mod

read_string_put :
    (n : ℕ) (xs rest : Bytes) → length xs ≡ n → read_string n (xs ++ rest) ≡ some (xs, rest)
read_string_put n xs rest h =
    subst (λ k. read_string k (xs ++ rest) ≡ some (xs, rest)) h (read_string-append xs rest)

module _ (m : ClipboardMessage) (v : FitsMessage m) where
  read_message_put : (rest : Bytes) → read_message (put_message m ++ rest) ≡ some (m, rest)
  unfolding read_message put_message
  read_message_put rest = simp append_assoc (
      rw (
        read_u32_put m.flags _ v.flags_fit,
        read_u64_put m.timestamp _ v.timestamp_fits,
        read_u8_put m.hash_alg _,
        read_string_put 3 m.reserved0 _ v.reserved0_size,
        read_string_put 64 m.hash_bytes _ v.hash_size,
        read_string_put 16 m.origin_host_id _ v.host_size,
        read_string_put 128 m.origin_host_name _ v.name_size,
        read_u64_put m.origin_sequence_number _ v.sequence_fits,
        read_string_put 16 m.event_guid _ v.guid_size,
        read_string_put 16 m.reserved1 _ v.reserved1_size,
        read_u32_put m.format_id _ v.format_fits,
        read_u8_put m.is_compressed _,
        read_u64_put m.payload_data_size _ v.payload_fits,
        read_u64_put m.uncompressed_data_size rest v.uncompressed_fits,
      ))

  length-put_message : length (put_message m) ≡ clip_header_size
  unfolding put_message put_u32 put_u64
  length-put_message = simp length-append (
      omega (
        arith, v.reserved0_size, v.hash_size, v.host_size, v.name_size, v.guid_size,
        v.reserved1_size,
      ))

-- The tag, the header and the body that SendFrame is given, as the one frame that it stands for.
abbrev pub framed : ClipboardPayload → Bytes
framed p = clip_tag ++ (put_message p.meta ++ p.encoded)

pub length-framed :
    (p : ClipboardPayload)
    → FitsMessage p.meta
    → length (framed p) ≡ 4 + clip_header_size + length p.encoded
length-framed p v =
    omega (arith, length-append (put_message p.meta) p.encoded, length-put_message p.meta v)

-- What a header may say of a body of so many bytes: its size, an uncompressed size of at most 64 MiB,
-- and the same for both where the body is not compressed.
pub record SaysSize (m : ClipboardMessage) (body_bytes : ℕ) : Type 0 where
  pub payload_size : m.payload_data_size ≡ body_bytes
  pub uncompressed_size : m.uncompressed_data_size ≤ 64 * 1024 * 1024
  pub not_compressed : m.is_compressed ≡ 0 → m.uncompressed_data_size ≡ body_bytes

pub sizes_agree-SaysSize : (m : ClipboardMessage) (n : ℕ) → sizes_agree m n ≡ true → SaysSize m n
unfolding sizes_agree
sizes_agree-SaysSize m n h = record {
  payload_size = ground (arith, h);
  uncompressed_size = ground (arith, h);
  not_compressed = λ z. ground (arith, h, z);
}

SaysSize-sizes_agree : (m : ClipboardMessage) (n : ℕ) → SaysSize m n → sizes_agree m n ≡ true
unfolding sizes_agree
SaysSize-sizes_agree m n v = ground (arith, v.payload_size, v.uncompressed_size, v.not_compressed)

module _ (p : ClipboardPayload) (v : FitsMessage p.meta) where
  decoded-framed :
      try_decode_clipboard_frame (framed p)
      ≡ (if sizes_agree p.meta (length p.encoded) then some p else none)
  unfolding try_decode_clipboard_frame
  decoded-framed =
      let size = length-framed p v in
      let enough : ltb (length (framed p)) (4 + clip_header_size) ≡ false = ground (arith, size) in
      let body : length (framed p) - 4 - clip_header_size ≡ length p.encoded =
        omega (arith, size) in
      rw (enough, read_message_put p.meta v p.encoded, body)
        (elim (Bool-cases (sizes_agree p.meta (length p.encoded))) [
          | inl agree ↦ rw agree refl
          | inr differ ↦ rw differ refl
        ])

  record-framed : try_decode_clip_record (framed p) ≡ try_decode_clipboard_frame (framed p)
  unfolding try_decode_clipboard_frame try_decode_clip_record
  record-framed =
      let tagged : beq (take 4 (framed p)) clip_tag ≡ true =
        (list_beq_iff clip_tag clip_tag).1 refl in
      rw tagged refl

  -- A payload whose fields have the sizes of their C types is decoded from its frame as it was, where its
  -- header says the size of the body, an uncompressed size of at most 64 MiB, and without compression
  -- the size of the body for that too. Else it is refused. The receiver of frames and the reader of
  -- stored records do the same.
  pub try_decode-framed :
      (SaysSize p.meta (length p.encoded) → try_decode_clipboard_frame (framed p) ≡ some p)
      × (¬ SaysSize p.meta (length p.encoded) → try_decode_clipboard_frame (framed p) ≡ none)
      × (try_decode_clip_record (framed p) ≡ try_decode_clipboard_frame (framed p))
  try_decode-framed = (
    λ says. decoded-framed ∙ rw (SaysSize-sizes_agree p.meta (length p.encoded) says) refl,
    λ lies. elim (Bool-cases (sizes_agree p.meta (length p.encoded))) [
      | inl agree ↦ absurd (lies (sizes_agree-SaysSize p.meta (length p.encoded) agree))
      | inr differ ↦ decoded-framed ∙ rw differ refl
    ],
    record-framed,
  )
