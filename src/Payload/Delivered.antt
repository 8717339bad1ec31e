-- ===== src/Payload/Delivered.antt =====
-- From SetUncompressedBytes of src/ClipboardPayload.h over a CLIP frame of src/ClipboardWire.cpp to
-- TryGetUncompressedBytes.
use clipp.Prelude.{
  ℕ, zero, suc, ◌+◌, ◌*◌, ltb, ◌≤◌, ◌≡◌, refl, Bool, true, false, some, ◌==◌, ==_iff, le→leb,
  list_order, ℕ_order, length, length-append, arith, Bool-cases, Option-cases, inl, inr,
}
use clipp.Bytes.{Bytes}
use clipp.Payload.{ClipboardPayload}
use clipp.Payload.Plain.{
  Codec, IsCodec, max_decompressed_clipboard_bytes, canonical, worth_compressing, hashed, stored,
  zeros, set_uncompressed_bytes, try_get_uncompressed_bytes,
}
use clipp.Payload.Frame.{
  max_body_bytes, max_encoded_payload_bytes, clip_tag, put_message, send_clipboard_payload,
  sizes_agree, try_decode_clipboard_frame,
}
use clipp.Payload.Decoded.{FitsMessage, framed, try_decode-framed, sizes_agree-SaysSize}

length-zeros : (n : ℕ) → length (zeros n) ≡ n
unfolding zeros
length-zeros zero = refl
length-zeros (suc n) = omega (arith, length-zeros n)

module _ (c : Codec) (p : ClipboardPayload) (text : Bytes) (k : IsCodec c)
    (v : FitsMessage p.meta) where
  hashed-FitsMessage :
      (tag : ℕ) (bytes : Bytes)
      → length text ≤ max_decompressed_clipboard_bytes
      → length bytes ≤ max_body_bytes
      → FitsMessage (stored (hashed c p text) tag bytes).meta
  unfolding stored hashed
  hashed-FitsMessage tag bytes h e = record {
    flags_fit = v.flags_fit;
    timestamp_fits = v.timestamp_fits;
    reserved0_size = v.reserved0_size;
    hash_size = omega (
      arith,
      length-append (c.digest text p.meta.format_id) (zeros 48),
      length-zeros 48,
      k.digest_size text p.meta.format_id,
    );
    host_size = v.host_size;
    name_size = v.name_size;
    sequence_fits = v.sequence_fits;
    guid_size = v.guid_size;
    reserved1_size = v.reserved1_size;
    format_fits = v.format_fits;
    payload_fits = omega (arith, e);
    uncompressed_fits = omega (arith, h);
  }

  hashed-sizes_agree :
      (bytes : Bytes)
      → length text ≤ max_decompressed_clipboard_bytes
      → (sizes_agree (stored (hashed c p text) 0 text).meta (length text) ≡ true)
        × (sizes_agree (stored (hashed c p text) 1 bytes).meta (length bytes) ≡ true)
  unfolding stored hashed sizes_agree
  hashed-sizes_agree bytes h =
      rw
        (
          le→leb (length text) max_decompressed_clipboard_bytes h,
          same (length text),
          same (length bytes),
        )
        (refl, refl)
    where
      same : (n : ℕ) → (n == n) ≡ true
      same n = (==_iff n n).1 refl

  decompressed :
      (frame : Bytes)
      → length text ≤ max_decompressed_clipboard_bytes
      → c.compress text ≡ some frame
      → try_get_uncompressed_bytes c (stored (hashed c p text) 1 frame) ≡ some text
  unfolding stored hashed try_get_uncompressed_bytes
  decompressed frame h made =
      rw
        (
          le→leb (length text) max_decompressed_clipboard_bytes h,
          k.says_size text frame made,
          (==_iff (length text) (length text)).1 refl,
          k.inverts text frame made,
        )
        (rw ((==_iff (length text) (length text)).1 refl) refl)

arrives :
    (q : ClipboardPayload)
    → FitsMessage q.meta
    → sizes_agree q.meta (length q.encoded) ≡ true
    → try_decode_clipboard_frame (framed q) ≡ some q
arrives q v agree = (try_decode-framed q v).0 (sizes_agree-SaysSize q.meta (length q.encoded) agree)

received :
    (c : Codec) (p : ClipboardPayload) (text : Bytes)
    → IsCodec c
    → FitsMessage p.meta
    → length (canonical p.meta.format_id text) ≤ max_decompressed_clipboard_bytes
    → (set_uncompressed_bytes c p text).1 ≡ true
    → length (set_uncompressed_bytes c p text).0.encoded ≤ max_body_bytes
    → let q = (set_uncompressed_bytes c p text).0 in
      (try_decode_clipboard_frame (framed q) ≡ some q)
      × (try_get_uncompressed_bytes c q ≡ some (canonical p.meta.format_id text))
unfolding set_uncompressed_bytes
received c p text k v h done fits =
    let bytes = canonical p.meta.format_id text in
    elim (Bool-cases (worth_compressing p.meta.format_id bytes)) [
      | inr plain ↦ rw plain (
        arrives (stored (hashed c p bytes) 0 bytes) (hashed-FitsMessage c p bytes k v 0 bytes h h)
            (hashed-sizes_agree c p bytes k v bytes h).0,
        plain_again,
      )
      | inl long ↦ elim (Option-cases (c.compress bytes)) [
        | inl failed ↦ absurd (clash (rw (long, failed) at done))
        | inr (frame, made) ↦
            let small : length frame ≤ max_body_bytes = rw (long, made) at fits in
            rw (long, made)
              (
                arrives (stored (hashed c p bytes) 1 frame)
                    (hashed-FitsMessage c p bytes k v 1 frame h small)
                    ((hashed-sizes_agree c p bytes k v frame h).1),
                decompressed c p bytes k v frame h made,
              )
      ]
    ]
  where
    plain_again :
        try_get_uncompressed_bytes c (
          stored (hashed c p (canonical p.meta.format_id text)) 0 (canonical p.meta.format_id text))
        ≡ some (canonical p.meta.format_id text)
    plain_again = unfold try_get_uncompressed_bytes in unfold stored in refl

    clash : false ≡ true → ⊥
    clash e = ground (arith, e)

-- What the sender reports, where the body leaves room for the rest of the frame and the channel works.
sent :
    (send_frame : Bytes → Bytes → Bytes → Bool) (q : ClipboardPayload)
    → length q.encoded + 306 ≤ 64 * 1024 * 1024
    → send_frame clip_tag (put_message q.meta) q.encoded ≡ true
    → send_clipboard_payload send_frame true q ≡ some (289 + length q.encoded)
unfolding send_clipboard_payload
sent send_frame q small works =
    let room : ltb max_encoded_payload_bytes (length q.encoded) ≡ false = ground (arith, small) in
    rw (room, works) refl

-- A text reaches the other side: where the bytes in their canonical form are at most 64 MiB, their
-- compression does not fail, what is stored is at most 64 MiB less the 306 bytes that a frame adds to
-- it, the socket is valid and the channel takes the frame, SendClipboardPayload reports the bytes of
-- the frame as sent, the receiver of the frame gets the payload that was sent, and from it the bytes in
-- their canonical form.
pub try_get-set_uncompressed_bytes :
    (c : Codec) (p : ClipboardPayload) (text : Bytes) (send_frame : Bytes → Bytes → Bytes → Bool)
    → IsCodec c
    → FitsMessage p.meta
    → length (canonical p.meta.format_id text) ≤ 64 * 1024 * 1024
    → (set_uncompressed_bytes c p text).1 ≡ true
    → length (set_uncompressed_bytes c p text).0.encoded + 306 ≤ 64 * 1024 * 1024
    → (let q = (set_uncompressed_bytes c p text).0 in
        send_frame clip_tag (put_message q.meta) q.encoded ≡ true)
    → let q = (set_uncompressed_bytes c p text).0 in
      (send_clipboard_payload send_frame true q ≡ some (289 + length q.encoded))
      × ((try_decode_clipboard_frame (framed q) ≡ some q)
          × (try_get_uncompressed_bytes c q ≡ some (canonical p.meta.format_id text)))
try_get-set_uncompressed_bytes c p text send_frame k v h done small works = (
  sent send_frame (set_uncompressed_bytes c p text).0 small works,
  received c p text k v h done (omega (arith, small)),
)
