-- ===== src/Clock/Wire.antt =====
-- The sixteen bytes of a timestamp: Hlc::Pack, Hlc::Unpack and the order of the bytes.
use clipp.Prelude.{
  ℕ, ◌<◌, ◌≡◌, ap, sym, ◌∙◌, refl, length, arith, less, list_less, list_order, ℕ_order, take, drop,
  take-append-drop, length-take, All-take, All-drop, length-append,
}
use clipp.Bytes.{Bytes, AllBytes, IsByte, u64_mod, put_u64, shift_in}
use clipp.Bytes.RoundTrip.{shift_in-put_u64}
use clipp.Bytes.Inverse.{put_u64-value}
use clipp.Bytes.Compare.{list_less-append, list_less-put_u64, list_beq-put_u64}
use clipp.Clock.{Hlc, IsHlc, pack, unpack, hlc_order}

length-put_u64 : (v : ℕ) → length (put_u64 v) ≡ 8
unfolding put_u64
length-put_u64 v = refl

pub length-pack : (h : Hlc) → length (pack h) ≡ 16
unfolding pack put_u64
length-pack h = refl

take-pack : (h : Hlc) → take 8 (pack h) ≡ put_u64 h.wall_ms
unfolding pack put_u64
take-pack h = refl

drop-pack : (h : Hlc) → drop 8 (pack h) ≡ put_u64 h.counter
unfolding pack put_u64
drop-pack h = refl

-- Unpacking the bytes of a timestamp whose fields fit 64 bits gives the timestamp back.
pub unpack-pack : (h : Hlc) → IsHlc h → unpack (pack h) ≡ h
unfolding unpack
unpack-pack h v = ground (
  arith,
  ap (shift_in 0) (take-pack h),
  ap (shift_in 0) (drop-pack h),
  shift_in-put_u64 h.wall_ms,
  shift_in-put_u64 h.counter,
)

length-drop_8 : (bytes : Bytes) → length bytes ≡ 16 → length (drop 8 bytes) ≡ 8
length-drop_8 bytes n = omega (
  arith,
  length-take 8 bytes,
  ap length (take-append-drop 8 bytes),
  length-append (take 8 bytes) (drop 8 bytes),
)

module _ (bytes : Bytes) (n : length bytes ≡ 16) (h : AllBytes bytes) where
  wall_bytes :
      (put_u64 (shift_in 0 (take 8 bytes)) ≡ take 8 bytes) × (shift_in 0 (take 8 bytes) < u64_mod)
  wall_bytes =
      put_u64-value (take 8 bytes) (omega (arith, length-take 8 bytes)) (All-take IsByte 8 bytes h)

  counter_bytes :
      (put_u64 (shift_in 0 (drop 8 bytes)) ≡ drop 8 bytes) × (shift_in 0 (drop 8 bytes) < u64_mod)
  counter_bytes = put_u64-value (drop 8 bytes) (length-drop_8 bytes n) (All-drop IsByte 8 bytes h)

  -- Any sixteen bytes are the packing of the timestamp that they unpack to.
  pub pack-unpack : pack (unpack bytes) ≡ bytes
  unfolding pack unpack
  pack-unpack = rw (wall_bytes.0, counter_bytes.0, take-append-drop 8 bytes)

  pub unpack-IsHlc : IsHlc (unpack bytes)
  unfolding unpack
  unpack-IsHlc = record { wall_fits = wall_bytes.1; counter_fits = counter_bytes.1 }

-- The packed bytes of two timestamps compare, as byte strings, the way the timestamps do.
pub list_less-pack : (a b : Hlc) → IsHlc a → IsHlc b → list_less (pack a) (pack b) ≡ less a b
unfolding pack
list_less-pack a b u v = ground (
  arith,
  list_less-append (put_u64 a.wall_ms) (put_u64 b.wall_ms) (put_u64 a.counter) (put_u64 b.counter)
      (length-put_u64 a.wall_ms ∙ sym (length-put_u64 b.wall_ms)),
  list_less-put_u64 a.wall_ms b.wall_ms,
  list_less-put_u64 a.counter b.counter,
  list_beq-put_u64 a.wall_ms b.wall_ms,
)
