-- ===== src/Payload/Stored.antt =====
-- The files of src/ClipboardPersistence.cpp, over the sealed snapshots of src/SealedSnapshot.cpp: a file
-- is what LoadFile finds, and renaming a bad one aside is left out.
use clipp.Prelude.{
  ℕ, Option, none, some, List, [], ◌∷◌, is_empty, list_order, ℕ_order, if◌then◌else◌,
}
use clipp.Bytes.{Bytes}
use clipp.SealedSnapshot.{Cipher, seal, try_open}
use clipp.Payload.{ClipboardPayload}
use clipp.Payload.Frame.{encode_clip_record, try_decode_clip_record}

-- "CLPC" and "CLPI"
abbrev pub clip_snapshot_magic : Bytes
clip_snapshot_magic = 67 ∷ 76 ∷ 80 ∷ 67 ∷ []

abbrev pub inbox_magic : Bytes
inbox_magic = 67 ∷ 76 ∷ 80 ∷ 73 ∷ []

abbrev pub clip_version : ℕ
clip_version = 1

pub data LoadResult : Type 0 where
  loaded no_file corrupt : LoadResult

-- What is at a path.
pub data FileState : Type 0 where
  missing unreadable : FileState
  holds : Bytes → FileState

unfoldable pub opened : Option (List Bytes) → LoadResult × List Bytes
opened none = (corrupt, [])
opened (some records) = (loaded, records)

-- LoadFile
unfoldable pub load_file : Cipher → Bytes → ℕ → Bytes → FileState → LoadResult × List Bytes
unfolding opened
load_file c magic version key missing = (no_file, [])
load_file c magic version key unreadable = (corrupt, [])
load_file c magic version key (holds blob) = opened (try_open c magic version blob key)

-- SaveSnapshotFile, up to the writing: the blob.
unfoldable pub encode_payloads : List ClipboardPayload → List Bytes
encode_payloads [] = []
encode_payloads (p ∷ ps) = encode_clip_record p ∷ encode_payloads ps

unfoldable pub seal_payloads : Cipher → Bytes → List ClipboardPayload → Bytes → Bytes
seal_payloads c nonce payloads key =
    seal c clip_snapshot_magic clip_version nonce (encode_payloads payloads) key

unfoldable pub keep_payload :
    Option ClipboardPayload → List ClipboardPayload → List ClipboardPayload
keep_payload none rest = rest
keep_payload (some p) rest = p ∷ rest

unfoldable pub decode_payloads : List Bytes → List ClipboardPayload
unfolding keep_payload
decode_payloads [] = []
decode_payloads (r ∷ raw) = keep_payload (try_decode_clip_record r) (decode_payloads raw)

-- LoadSnapshotFile
unfoldable pub finish_snapshot : LoadResult × List Bytes → LoadResult × List ClipboardPayload
finish_snapshot (no_file, raw) = (no_file, [])
finish_snapshot (corrupt, raw) = (corrupt, [])
finish_snapshot (loaded, raw) = (loaded, decode_payloads raw)

unfoldable pub load_snapshot_file : Cipher → Bytes → FileState → LoadResult × List ClipboardPayload
unfolding finish_snapshot
load_snapshot_file c key file =
    finish_snapshot (load_file c clip_snapshot_magic clip_version key file)

-- SaveInboxItemFile, up to the writing: the blob, or a refusal.
unfoldable pub seal_inbox_item : Cipher → Bytes → ClipboardPayload → Bytes → Option Bytes
seal_inbox_item c nonce p key =
    if is_empty (encode_clip_record p)
    then none
    else some (seal c inbox_magic clip_version nonce (encode_clip_record p ∷ []) key)

-- LoadInboxItemFile
unfoldable pub single_item : Option ClipboardPayload → LoadResult × Option ClipboardPayload
single_item none = (corrupt, none)
single_item (some p) = (loaded, some p)

unfoldable pub finish_inbox : LoadResult × List Bytes → LoadResult × Option ClipboardPayload
unfolding single_item
finish_inbox (no_file, raw) = (no_file, none)
finish_inbox (corrupt, raw) = (corrupt, none)
finish_inbox (loaded, []) = (corrupt, none)
finish_inbox (loaded, r ∷ []) = single_item (try_decode_clip_record r)
finish_inbox (loaded, r ∷ r' ∷ raw) = (corrupt, none)

unfoldable pub load_inbox_item_file :
    Cipher → Bytes → FileState → LoadResult × Option ClipboardPayload
unfolding finish_inbox
load_inbox_item_file c key file = finish_inbox (load_file c inbox_magic clip_version key file)
