-- ===== src/Examples/Clocks.antt =====
-- Runs of src/Hlc.cpp and of the UTF-8 coder of src/platform.h.
use clipp.Prelude.{
  ℕ, ◌-◌, ◌^◌, ◌≡◌, refl, true, some, List, [], ◌∷◌, ◌++◌, All, less, list_less, list_order,
  ℕ_order, arith,
}
use clipp.Bytes.{Bytes, put_u64}
use clipp.Clock.{
  Hlc, HlcClock, IsHlc, ClockEvent, issue, saw, floor, hlc_order, pack, now, witness, run, history,
}
use clipp.Clock.Wire.{list_less-pack}
use clipp.Clock.Advance.{now-above_history}
use clipp.Clock.Wrap.{now-witness_wraps}
use clipp.Utf8.{decode_code_point, encode_code_point, continuations, IsScalar}
use clipp.Utf8.RoundTrip.{decode-inv}

abbrev hlc : ℕ → ℕ → Hlc
hlc w c = record { wall_ms = w; counter = c }

abbrev morning : Hlc
morning = hlc 1700000000000 7

morning_fits : IsHlc morning
morning_fits = record { wall_fits = omega arith; counter_fits = omega arith }

abbrev sixteen : Bytes
sixteen = 0 ∷ 0 ∷ 1 ∷ 139 ∷ 207 ∷ 229 ∷ 104 ∷ 0 ∷ 0 ∷ 0 ∷ 0 ∷ 0 ∷ 0 ∷ 0 ∷ 0 ∷ 7 ∷ []

pack-morning_run : pack morning ≡ sixteen
unfolding pack put_u64
pack-morning_run = refl

list_less-pack_example : list_less (pack (hlc 255 9)) (pack (hlc 256 0)) ≡ true
list_less-pack_example =
    list_less-pack (hlc 255 9) (hlc 256 0)
      (record { wall_fits = omega arith; counter_fits = omega arith })
      (record { wall_fits = omega arith; counter_fits = omega arith })

abbrev started : HlcClock
started = record { last = hlc 5 1 }

-- A peer ahead of the wall clock, an event, a floor, an event.
abbrev events : List ClockEvent
events = saw (hlc 9 4) ∷ issue 7 ∷ floor (hlc 3 0) ∷ issue 12 ∷ []

now-above_history_example :
    All (λ h. less h (now (run started events) 6).last ≡ true) (history started events)
now-above_history_example = now-above_history started events 6 (omega arith) (omega arith)

history_run : history started events ≡ hlc 9 4 ∷ hlc 9 5 ∷ hlc 3 0 ∷ hlc 12 0 ∷ []
unfolding history
history_run = refl

now-witness_wraps_example :
    less (now (witness started (hlc 9 (2 ^ 64 - 1))) 7).last (hlc 9 (2 ^ 64 - 1)) ≡ true
now-witness_wraps_example = now-witness_wraps started (hlc 9 (2 ^ 64 - 1)) 7 refl refl (omega arith)

-- U+20AC, the euro sign
euro_bytes : decode_code_point (0xe2 ∷ 0x82 ∷ 0xac ∷ b'!' ∷ []) ≡ some (0x20ac, b'!' ∷ [])
unfolding decode_code_point continuations
euro_bytes = refl

decode-inv_example :
    (◌≡◌ {A = Bytes} (0xe2 ∷ 0x82 ∷ 0xac ∷ b'!' ∷ []) (encode_code_point 0x20ac ++ b'!' ∷ []))
    × IsScalar 0x20ac
decode-inv_example =
    decode-inv (0xe2 ∷ 0x82 ∷ 0xac ∷ b'!' ∷ []) 0x20ac (b'!' ∷ []) (omega arith) euro_bytes
