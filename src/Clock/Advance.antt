-- ===== src/Clock/Advance.antt =====
-- HlcClock::Now against everything that the clock has generated or witnessed.
use clipp.Prelude.{
  ℕ, suc, ◌+◌, ◌<◌, ◌≤◌, ◌≡◌, true, false, List, [], ◌∷◌, subst, less, nless_trans, max_of,
  less-max_of_left, less-max_of_right, length, All, arith,
}
use clipp.Bytes.{u64_mod}
use clipp.Clock.{Hlc, HlcClock, ClockEvent, issue, saw, floor, hlc_order, now, step, run, history}

-- Room for `n` more ticks of the counter.
abbrev pub HasRoom : ℕ → Hlc → Type 0
HasRoom n h = h.counter + n < u64_mod

-- A timestamp that an event brings in has room for `n` more ticks.
abbrev pub EventHasRoom : ℕ → ClockEvent → Type 0
EventHasRoom n (issue phys) = Unit
EventHasRoom n (saw h) = HasRoom n h
EventHasRoom n (floor h) = HasRoom n h

-- A fresh timestamp is above the high-water mark, unless the counter is at its maximum.
pub less-now : (c : HlcClock) (phys : ℕ) → HasRoom 1 c.last → less c.last (now c phys).last ≡ true
unfolding now
less-now c phys h = ground arith

-- The high-water mark never falls.
step_grows :
    (c : HlcClock) (e : ClockEvent) → HasRoom 1 c.last → less (step c e).last c.last ≡ false
unfolding step
step_grows c (issue phys) h = ground arith
step_grows c (saw h) r = less-max_of_left c.last h
step_grows c (floor h) r = less-max_of_left c.last h

step-HasRoom :
    (n : ℕ) (c : HlcClock) (e : ClockEvent)
    → HasRoom (suc n) c.last
    → EventHasRoom (suc n) e
    → HasRoom n (step c e).last
unfolding step
step-HasRoom n c (issue phys) h k = ground arith
step-HasRoom n c (saw x) h k = ground arith
step-HasRoom n c (floor x) h k = ground arith

EventHasRoom-suc : (n : ℕ) (e : ClockEvent) → EventHasRoom (suc n) e → EventHasRoom n e
EventHasRoom-suc n (issue phys) h = tt
EventHasRoom-suc n (saw x) h = omega arith
EventHasRoom-suc n (floor x) h = omega arith

AllHasRoom-suc :
    (n : ℕ) (es : List ClockEvent) → All (EventHasRoom (suc n)) es → All (EventHasRoom n) es
AllHasRoom-suc n [] h = tt
AllHasRoom-suc n (e ∷ es) (k, h) = (EventHasRoom-suc n e k, AllHasRoom-suc n es h)

run-HasRoom :
    (c : HlcClock) (es : List ClockEvent) (n : ℕ)
    → HasRoom (length es + n) c.last
    → All (EventHasRoom (length es + n)) es
    → HasRoom n (run c es).last
unfolding run
run-HasRoom c [] n h k = omega arith
run-HasRoom c (e ∷ es) n h (ke, k) =
    run-HasRoom (step c e) es n
      (step-HasRoom (length es + n) c e (omega arith)
        (subst (λ m. EventHasRoom m e) (omega arith) ke))
      (AllHasRoom-suc (length es + n) es (subst (λ m. All (EventHasRoom m) es) (omega arith) k))

pub HasRoom-le : (m n : ℕ) (h : Hlc) → m ≤ n → HasRoom n h → HasRoom m h
HasRoom-le m n h k r = omega arith

step_records :
    (c : HlcClock) (e : ClockEvent) (es : List ClockEvent) (top : Hlc)
    → less top (step c e).last ≡ false
    → All (λ h. less top h ≡ false) (history (step c e) es)
    → All (λ h. less top h ≡ false) (history c (e ∷ es))
unfolding history
step_records c (issue phys) es top k hs = (k, hs)
step_records c (saw h) es top k hs =
    (nless_trans top (max_of c.last h) h k (less-max_of_right c.last h), hs)
step_records c (floor h) es top k hs =
    (nless_trans top (max_of c.last h) h k (less-max_of_right c.last h), hs)

-- Nothing in the history is above the high-water mark, and the mark has not fallen.
pub history_below :
    (c : HlcClock) (es : List ClockEvent)
    → HasRoom (length es + 1) c.last
    → All (EventHasRoom (length es + 1)) es
    → (less (run c es).last c.last ≡ false)
      × All (λ h. less (run c es).last h ≡ false) (history c es)
unfolding run history
history_below c [] h k = (hlc_order.irrefl c.last, tt)
history_below c (e ∷ es) h (ke, k) =
    let here =
      step-HasRoom (length es + 1) c e (omega arith)
        (subst (λ m. EventHasRoom m e) (omega arith) ke) in
    let (up, all) =
      history_below (step c e) es here (
        AllHasRoom-suc (length es + 1) es (subst (λ m. All (EventHasRoom m) es) (omega arith) k)) in
    (
      nless_trans (run (step c e) es).last (step c e).last c.last up (step_grows c e (omega arith)),
      step_records c e es (run (step c e) es).last up all,
    )

pub less_of_nless : (a b c : Hlc) → less b a ≡ false → less b c ≡ true → less a c ≡ true
less_of_nless a b c h k =
    ground (arith, hlc_order.connex a b, hlc_order.trans a b c, hlc_order.trans b a c)

All-above :
    (top fresh : Hlc) (hs : List Hlc)
    → less top fresh ≡ true
    → All (λ h. less top h ≡ false) hs
    → All (λ h. less h fresh ≡ true) hs
All-above top fresh [] k h = tt
All-above top fresh (x ∷ hs) k (hx, h) =
    (less_of_nless x top fresh hx k, All-above top fresh hs k h)

-- After any sequence of local events, witnessed timestamps and floors, the next timestamp that the
-- clock generates is above every timestamp that it generated, witnessed or was given as a floor,
-- whatever the wall clock reads, as long as the counters that came in leave room for that many
-- ticks below 2 ^ 64.
pub now-above_history :
    (c : HlcClock) (es : List ClockEvent) (phys : ℕ)
    → HasRoom (length es + 1) c.last
    → All (EventHasRoom (length es + 1)) es
    → All (λ h. less h (now (run c es) phys).last ≡ true) (history c es)
now-above_history c es phys h k =
    All-above (run c es).last (now (run c es) phys).last (history c es)
      (less-now (run c es) phys (run-HasRoom c es 1 h k)) (history_below c es h k).1
