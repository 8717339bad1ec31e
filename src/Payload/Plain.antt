-- ===== src/Payload/Plain.antt =====
-- The bytes behind a payload: SetUncompressedBytes, TryGetUncompressedBytes and TryGetLocalizedBytes of
-- src/ClipboardPayload.h, without their caches, and the limit of src/ClipboardLimits.h. The hash of
-- xxhash and the compression of zstd are a parameter.
use clipp.Prelude.{
  ℕ, zero, suc, ◌*◌, ◌≡◌, Bool, true, false, not, ◌&&◌, Option, none, some, [], ◌∷◌, ◌++◌, leb,
  ◌==◌, length, if◌then◌else◌, ◌>>=◌, ◌>>◌, guard,
}
use clipp.Bytes.{Bytes}
use clipp.Payload.{ClipboardPayload, clipp_format_utf8}
use clipp.Payload.Lines.{canonicalize_crlf_to_lf, expand_lf_to_crlf}

-- The digest of some bytes under a seed; ZSTD_compress; ZSTD_getFrameContentSize, where the frame says
-- its size; and ZSTD_decompress into a buffer of a size. `none` is an error.
pub record Codec : Type 0 where
  pub digest : Bytes → ℕ → Bytes
  pub compress : Bytes → Option Bytes
  pub frame_size : Bytes → Option ℕ
  pub decompress : Bytes → ℕ → Option Bytes

-- What xxhash and zstd document: a canonical digest has sixteen bytes; the frame that a compression in
-- one call makes says the size of its content; and into a buffer of that size it decompresses to its
-- content.
pub record IsCodec (c : Codec) : Type 0 where
  pub digest_size : (bs : Bytes) (seed : ℕ) → length (c.digest bs seed) ≡ 16
  pub says_size :
      (bs frame : Bytes) → c.compress bs ≡ some frame → c.frame_size frame ≡ some (length bs)
  pub inverts :
      (bs frame : Bytes) → c.compress bs ≡ some frame → c.decompress frame (length bs) ≡ some bs

abbrev pub max_decompressed_clipboard_bytes : ℕ
max_decompressed_clipboard_bytes = 64 * 1024 * 1024

unfoldable pub zeros : ℕ → Bytes
zeros zero = []
zeros (suc n) = 0 ∷ zeros n

-- The text as it is hashed and stored.
abbrev pub canonical : ℕ → Bytes → Bytes
canonical format bytes =
    if format == clipp_format_utf8 then canonicalize_crlf_to_lf bytes else bytes

abbrev pub worth_compressing : ℕ → Bytes → Bool
worth_compressing format bytes = leb 512 (length bytes) && format == clipp_format_utf8

-- The fields that are set before the bytes are stored.
unfoldable pub hashed : Codec → ClipboardPayload → Bytes → ClipboardPayload
hashed c p bytes = record p {
  meta = record (p.meta) {
    hash_alg = 1;
    hash_bytes = c.digest bytes p.meta.format_id ++ zeros 48;
    uncompressed_data_size = length bytes;
  };
}

unfoldable pub stored : ClipboardPayload → ℕ → Bytes → ClipboardPayload
stored p is_compressed bytes = record {
  meta = record (p.meta) { is_compressed = is_compressed; payload_data_size = length bytes };
  encoded = bytes;
}

unfoldable pub set_uncompressed_bytes : Codec → ClipboardPayload → Bytes → ClipboardPayload × Bool
unfolding hashed stored
set_uncompressed_bytes c p text =
    let bytes = canonical p.meta.format_id text in
    let h = hashed c p bytes in
    if not (worth_compressing p.meta.format_id bytes)
    then (stored h 0 bytes, true)
    else elim (c.compress bytes) [ none ↦ (h, false) | some frame ↦ (stored h 1 frame, true) ]

unfoldable pub try_get_uncompressed_bytes : Codec → ClipboardPayload → Option Bytes
try_get_uncompressed_bytes c p = if p.meta.is_compressed == 0 then some p.encoded else do
  guard (leb p.meta.uncompressed_data_size max_decompressed_clipboard_bytes)
  size ← c.frame_size p.encoded
  guard (size == p.meta.uncompressed_data_size)
  plain ← c.decompress p.encoded p.meta.uncompressed_data_size
  guard (length plain == p.meta.uncompressed_data_size)
  some plain

-- Where the native line ending is CRLF, or elsewhere.
unfoldable pub try_get_localized_bytes : Codec → Bool → ClipboardPayload → Option Bytes
try_get_localized_bytes c native_crlf p = do
  plain ← try_get_uncompressed_bytes c p
  some (
      if native_crlf && p.meta.format_id == clipp_format_utf8
      then expand_lf_to_crlf plain
      else plain)
