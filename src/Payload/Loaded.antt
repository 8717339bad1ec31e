-- ===== src/Payload/Loaded.antt =====
-- What the loaders of src/ClipboardPersistence.cpp get from the files that its writers make.
use clipp.Prelude.{
  ◌+◌, ◌≤◌, ◌<◌, ◌^◌, ◌≡◌, refl, sym, ap, subst, ◌∙◌, true, false, none, some, List, [], ◌∷◌,
  is_empty, ltb, ◌==◌, list_beq, length, keep_if, All, arith, Bool-cases, inl, inr,
}
use clipp.Bytes.{Bytes}
use clipp.SealedSnapshot.{
  Cipher, IsCipher, max_records, seal_key_bytes, nonce_size, seal, try_open, header_size, tag_size,
}
use clipp.SealedSnapshot.RoundTrip.{non_empty, try_open-seal}
use clipp.Payload.{ClipboardPayload}
use clipp.Payload.Frame.{max_body_bytes, sizes_agree, encode_clip_record, try_decode_clip_record}
use clipp.Payload.Decoded.{
  FitsMessage, framed, length-framed, try_decode-framed, sizes_agree-SaysSize,
}
use clipp.Payload.Stored.{
  loaded, corrupt, holds, load_file, encode_payloads, decode_payloads, keep_payload, seal_payloads,
  finish_snapshot, load_snapshot_file, clip_snapshot_magic, inbox_magic, clip_version, opened,
  seal_inbox_item, finish_inbox, single_item, load_inbox_item_file,
}

-- A payload that a frame can carry.
pub record Storable (p : ClipboardPayload) : Type 0 where
  pub fits : FitsMessage p.meta
  pub small : length p.encoded ≤ max_body_bytes
  pub agree : sizes_agree p.meta (length p.encoded) ≡ true

encode-framed : (p : ClipboardPayload) → Storable p → encode_clip_record p ≡ framed p
unfolding encode_clip_record
encode-framed p v = ground (arith, v.small)

decode-encode :
    (p : ClipboardPayload) → Storable p → try_decode_clip_record (encode_clip_record p) ≡ some p
decode-encode p v =
    ap try_decode_clip_record (encode-framed p v)
    ∙ (try_decode-framed p v.fits).2
    ∙ (try_decode-framed p v.fits).0 (sizes_agree-SaysSize p.meta (length p.encoded) v.agree)

module _ (p : ClipboardPayload) (v : Storable p) where
  length-encode : length (encode_clip_record p) < 2 ^ 32
  length-encode =
      let size = length-framed p v.fits in
      subst (λ r. length r < 2 ^ 32) (sym (encode-framed p v)) (omega (arith, size, v.small))

  encode-non_empty : is_empty (encode_clip_record p) ≡ false
  encode-non_empty = ap is_empty (encode-framed p v)

decode-encode_payloads :
    (ps : List ClipboardPayload) → All Storable ps → decode_payloads (encode_payloads ps) ≡ ps
unfolding decode_payloads encode_payloads keep_payload
decode-encode_payloads [] v = refl
decode-encode_payloads (p ∷ ps) (v, vs) =
    rw (decode-encode p v) (ap (λ l. p ∷ l) (decode-encode_payloads ps vs))

encoded_kept :
    (ps : List ClipboardPayload)
    → All Storable ps
    → keep_if non_empty (encode_payloads ps) ≡ encode_payloads ps
unfolding keep_if encode_payloads
encoded_kept [] v = refl
encoded_kept (p ∷ ps) (v, vs) =
    rw (encode-non_empty p v) (ap (λ l. encode_clip_record p ∷ l) (encoded_kept ps vs))

encoded_sizes :
    (ps : List ClipboardPayload)
    → All Storable ps
    → All (λ b. length b < 2 ^ 32) (encode_payloads ps)
unfolding encode_payloads
encoded_sizes [] v = tt
encoded_sizes (p ∷ ps) (v, vs) = (length-encode p v, encoded_sizes ps vs)

length-encode_payloads : (ps : List ClipboardPayload) → length (encode_payloads ps) ≡ length ps
unfolding encode_payloads
length-encode_payloads [] = refl
length-encode_payloads (p ∷ ps) = omega (arith, length-encode_payloads ps)

opens_payloads :
    (c : Cipher) (magic nonce key : Bytes) (ps : List ClipboardPayload)
    → IsCipher c
    → length magic ≡ 4
    → length nonce ≡ nonce_size
    → length key ≡ seal_key_bytes
    → length ps ≤ max_records
    → All Storable ps
    → try_open c magic clip_version (seal c magic clip_version nonce (encode_payloads ps) key) key
      ≡ some (encode_payloads ps)
opens_payloads c magic nonce key ps v m n k count vs =
    let same = encoded_kept ps vs in
    try_open-seal c magic clip_version nonce key (encode_payloads ps) v m n k
      (subst (λ l. length l ≤ max_records) (sym same)
        (subst (λ i. i ≤ max_records) (sym (length-encode_payloads ps)) count))
      (subst (All (λ b. length b < 2 ^ 32)) (sym same) (encoded_sizes ps vs))
    ∙ ap some same

other_magic :
    (c : Cipher) (nonce key : Bytes) (records : List Bytes)
    → try_open c inbox_magic clip_version
        (seal c clip_snapshot_magic clip_version nonce records key)
        key
      ≡ none
unfolding try_open seal list_beq
other_magic c nonce key records =
    elim (Bool-cases (
      ltb (length (seal c clip_snapshot_magic clip_version nonce records key))
        (header_size + nonce_size + tag_size))) [
          | inl short ↦ rw short refl
          | inr enough ↦ rw enough refl
        ]

-- A snapshot file of at most 65535 payloads that a frame can carry gives back the payloads, in their
-- order, with the key that sealed it; and the loader of inbox items reports it as corrupt.
pub load-seal_payloads :
    (c : Cipher) (nonce key : Bytes) (ps : List ClipboardPayload)
    → IsCipher c
    → length nonce ≡ nonce_size
    → length key ≡ seal_key_bytes
    → length ps ≤ max_records
    → All Storable ps
    → (load_snapshot_file c key (holds (seal_payloads c nonce ps key)) ≡ (loaded, ps))
      × (load_inbox_item_file c key (holds (seal_payloads c nonce ps key)) ≡ (corrupt, none))
unfolding load_snapshot_file load_inbox_item_file load_file opened seal_payloads finish_snapshot
    finish_inbox
load-seal_payloads c nonce key ps v n k count vs = (
  rw (opens_payloads c clip_snapshot_magic nonce key ps v refl n k count vs)
      (ap (λ l. (loaded, l)) (decode-encode_payloads ps vs)),
  rw (other_magic c nonce key (encode_payloads ps)) refl,
)

not_single :
    (ps : List ClipboardPayload)
    → (length ps == 1) ≡ false
    → finish_inbox (loaded, encode_payloads ps) ≡ (corrupt, none)
unfolding finish_inbox encode_payloads
not_single [] h = refl
not_single (p ∷ []) h = ground (arith, h)
not_single (p ∷ q ∷ ps) h = refl

-- An inbox item that a frame can carry is sealed, and its file gives back the payload; a file of that
-- kind that holds any other number of payloads is reported as corrupt.
pub load-seal_inbox_item :
    (c : Cipher) (nonce key : Bytes) (p : ClipboardPayload) (ps : List ClipboardPayload)
    → IsCipher c
    → length nonce ≡ nonce_size
    → length key ≡ seal_key_bytes
    → Storable p
    → length ps ≤ max_records
    → (length ps == 1) ≡ false
    → All Storable ps
    → ((blob : Bytes) × ((seal_inbox_item c nonce p key ≡ some blob)
          × (load_inbox_item_file c key (holds blob) ≡ (loaded, some p))))
      × (load_inbox_item_file c key
            (holds (seal c inbox_magic clip_version nonce (encode_payloads ps) key))
          ≡ (corrupt, none))
unfolding load_inbox_item_file load_file opened finish_inbox seal_inbox_item encode_payloads
    single_item
load-seal_inbox_item c nonce key p ps v n k vp count other vs = (
  (
    seal c inbox_magic clip_version nonce (encode_clip_record p ∷ []) key,
    (
      rw (encode-non_empty p vp) refl,
      rw (opens_payloads c inbox_magic nonce key (p ∷ []) v refl n k (omega arith) (vp, tt))
          (rw (decode-encode p vp) refl),
    ),
  ),
  rw (opens_payloads c inbox_magic nonce key ps v refl n k count vs) (not_single ps other),
)
