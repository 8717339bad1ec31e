-- ===== src/RegisterSaver/Stopped.antt =====
-- The end of the saving of src/RegisterPersistenceRuntime.cpp.
use clipp.Prelude.{
  ℕ, zero, suc, ◌≡◌, refl, sym, ap, subst, ◌∙◌, Option, Bool, true, false, not, ◌&&◌, List, All,
  if◌then◌else◌, arith, inl, inr,
}
use clipp.Bytes.{Bytes}
use clipp.RegisterSaver.{
  Writer, absent, looping, waiting, debouncing, finished, saving, flushing, Runtime, save_now,
  leave_loop, no_change, start_persistence, writer_at, writer_step, stop_persistence, SaverStep,
  saver_steps,
}
use clipp.RegisterSaver.Marks.{
  clash, if_both, IsKept, Marked, works, IsAtWork, Succeeds, save_now-IsSaved,
}
use clipp.RegisterSaver.Saved.{saver_steps-IsAtWork, start_persistence-IsAtWork}

module _ {S R : Type 0} (snapshot_of : S → R) where
  -- Steps of the writer alone.
  unfoldable pub drain : ℕ → Runtime S R → Runtime S R
  drain zero s = s
  drain (suc n) s = drain n (writer_step snapshot_of true s)

module _ {S R : Type 0} (snapshot_of : S → R) (base : R) where
  abbrev pub IsDone : Runtime S R → Type 0
  IsDone s = (s.writer ≡ finished) × IsKept snapshot_of base s

  -- The writer has been told to stop, and all changes have been notified.
  record IsStopping (s : Runtime S R) : Type 0 where
    stopping : s.stop ≡ true
    keyed : s.have_key ≡ true
    notified : s.unnotified ≡ 0

  writer_step-IsDone : (s : Runtime S R) → IsDone s → IsDone (writer_step snapshot_of true s)
  unfolding writer_step writer_at
  writer_step-IsDone s (e, saved) =
      subst (λ w. IsDone (writer_at snapshot_of w true s)) (sym e) (e, saved)

  leave_loop-IsDone :
      (s : Runtime S R)
      → IsStopping s
      → Marked snapshot_of base looping s
      → IsDone (writer_step snapshot_of true (leave_loop snapshot_of s))
  unfolding leave_loop writer_step writer_at
  leave_loop-IsDone s v m =
      if_both (λ (x : Runtime S R). IsDone (writer_at snapshot_of x.writer true x))
        (s.dirty && s.have_key)
        (λ b. (refl, inl (save_now-IsSaved snapshot_of base s.file_path s.seal_key s refl refl)))
        (λ b. (refl, left m b))
    where
      left :
          Marked snapshot_of base looping s
          → (s.dirty && s.have_key) ≡ false
          → IsKept snapshot_of base s
      left (inl keyless) b = absurd (clash v.keyed keyless)
      left (inr (inl d)) b = absurd (ground (arith, d, v.keyed, b))
      left (inr (inr (inl some_left))) b = absurd (omega (arith, some_left, v.notified))
      left (inr (inr (inr saved))) b = saved

  -- At the test of the loop, and in the wait for a change, the writer leaves the loop.
  leaves_looping :
      (s : Runtime S R)
      → s.writer ≡ looping
      → s.stop ≡ true
      → writer_step snapshot_of true s ≡ leave_loop snapshot_of s
  unfolding writer_step writer_at
  leaves_looping s e h =
      ap (λ w. writer_at snapshot_of w true s) e
      ∙ ap (λ b. if b then leave_loop snapshot_of s else record s { writer = waiting }) h

  leaves_waiting :
      (s : Runtime S R)
      → s.writer ≡ waiting
      → s.stop ≡ true
      → writer_step snapshot_of true s ≡ leave_loop snapshot_of s
  unfolding writer_step writer_at
  leaves_waiting s e h =
      ap (λ w. writer_at snapshot_of w true s) e
      ∙ ap
          (λ b.
            if b
            then leave_loop snapshot_of s
            else if s.dirty
            then record s { writer = debouncing }
            else s)
          h

  left-IsDone :
      (s : Runtime S R)
      → writer_step snapshot_of true s ≡ leave_loop snapshot_of s
      → IsStopping s
      → Marked snapshot_of base looping s
      → IsDone (drain snapshot_of 2 s)
  unfolding drain
  left-IsDone s e v m =
      subst (λ (x : Runtime S R). IsDone (writer_step snapshot_of true x)) (sym e)
        (leave_loop-IsDone s v m)

  saving-IsDone :
      (path key : Bytes) (s : Runtime S R)
      → s.writer ≡ saving path key
      → IsStopping s
      → Marked snapshot_of base (saving path key) s
      → IsDone (drain snapshot_of 3 s)
  unfolding drain writer_step writer_at
  saving-IsDone path key s e v m =
      subst (λ w. IsDone (drain snapshot_of 2 (writer_at snapshot_of w true s))) (sym e)
        (left-IsDone after (leaves_looping after refl still) stopping marked)
    where
      after : Runtime S R
      after = record (save_now snapshot_of true path key s) { writer = looping }

      still : after.stop ≡ true
      still = unfold save_now in v.stopping

      stopping : IsStopping after
      stopping =
          unfold save_now in
          record { stopping = v.stopping; keyed = v.keyed; notified = v.notified }

      marked : Marked snapshot_of base looping after
      marked = kept m
        where
          kept : Marked snapshot_of base (saving path key) s → Marked snapshot_of base looping after
          kept (inl keyless) = absurd (clash v.keyed keyless)
          kept (inr (inl d)) = unfold save_now in inr (inl d)
          kept (inr (inr (p, q))) =
              let saved = save_now-IsSaved snapshot_of base path key s p q in
              unfold save_now in inr (inr (inr (inl saved)))

  debounced :
      (s : Runtime S R)
      → s.writer ≡ debouncing
      → s.have_key ≡ true
      → writer_step snapshot_of true s
        ≡ record s { dirty = false; writer = saving s.file_path s.seal_key }
  unfolding writer_step writer_at
  debounced s e h =
      ap (λ w. writer_at snapshot_of w true s) e
      ∙ ap
          (λ b.
            if not b
            then record s { dirty = false; writer = looping }
            else record s { dirty = false; writer = saving s.file_path s.seal_key })
          h

  told :
      (s : Runtime S R)
      → s.running ≡ true
      → stop_persistence snapshot_of s ≡ record s { stop = true }
  unfolding stop_persistence
  told s h = ap (λ b. if not b then s else record s { stop = true }) h

  stop-Marked :
      (w : Writer) (s : Runtime S R)
      → Marked snapshot_of base w s
      → Marked snapshot_of base w (record s { stop = true })
  stop-Marked (saving path key) s m = m
  stop-Marked absent s m = m
  stop-Marked looping s m = m
  stop-Marked waiting s m = m
  stop-Marked debouncing s m = m
  stop-Marked finished s m = m
  stop-Marked (flushing path key) s m = m

  stopped-IsDone :
      (w : Writer) (s : Runtime S R)
      → s.writer ≡ w
      → works snapshot_of base w ≡ true
      → IsStopping s
      → Marked snapshot_of base w s
      → IsDone (drain snapshot_of 4 s)
  unfolding drain
  stopped-IsDone absent s e k v m = ground arith
  stopped-IsDone finished s e k v m = ground arith
  stopped-IsDone (flushing path key) s e k v m = ground arith
  stopped-IsDone looping s e k v m =
      writer_step-IsDone _
        (writer_step-IsDone _ (left-IsDone s (leaves_looping s e v.stopping) v m))
  stopped-IsDone waiting s e k v m =
      writer_step-IsDone _
        (writer_step-IsDone _ (left-IsDone s (leaves_waiting s e v.stopping) v m))
  stopped-IsDone (saving path key) s e k v m = writer_step-IsDone _ (saving-IsDone path key s e v m)
  stopped-IsDone debouncing s e k v m =
      subst (λ (x : Runtime S R). IsDone (drain snapshot_of 3 x)) (sym (debounced s e v.keyed))
        (saving-IsDone s.file_path s.seal_key _ refl
          (record { stopping = v.stopping; keyed = v.keyed; notified = v.notified })
          (inr (inr (refl, refl))))

  at_work-IsDone :
      (s : Runtime S R)
      → IsAtWork snapshot_of base s
      → s.have_key ≡ true
      → s.unnotified ≡ 0
      → IsDone (drain snapshot_of 4 (stop_persistence snapshot_of s))
  at_work-IsDone s v keyed notified =
      subst (λ (x : Runtime S R). IsDone (drain snapshot_of 4 x)) (sym (told s v.runs))
        (stopped-IsDone s.writer (record s { stop = true }) refl v.at_work
          (record { stopping = refl; keyed = keyed; notified = notified })
          (stop-Marked s.writer s v.marked))

-- A start of the saving, any steps of the threads in which the writes succeed, and a stop, when there is a
-- key and every change of the store has been notified: then the writer is at its end after four steps of
-- its own, and the file of the group holds the snapshot of the store under the key of the group, unless
-- that snapshot is the same as right after the start, when there may have been nothing to write. Before
-- the start the saving is not running, and no change of the key is under way.
pub drain-stop_persistence :
    {S R : Type 0} (snapshot_of : S → R) (found : Option (Bytes × Bytes)) (merged : S)
    (applied : Bool) (s : Runtime S R) (es : List (SaverStep S))
    → s.running ≡ false
    → s.key_change ≡ no_change
    → let first = start_persistence snapshot_of found merged applied s in
      let last = saver_steps snapshot_of first es in
      All (Succeeds snapshot_of (snapshot_of first.store)) es
      → last.have_key ≡ true
      → last.unnotified ≡ 0
      → IsDone snapshot_of
          (snapshot_of first.store)
          (drain snapshot_of 4 (stop_persistence snapshot_of last))
drain-stop_persistence snapshot_of found merged applied s es r c t keyed notified =
    let first = start_persistence snapshot_of found merged applied s in
    at_work-IsDone snapshot_of (snapshot_of first.store) (saver_steps snapshot_of first es)
      (saver_steps-IsAtWork snapshot_of (snapshot_of first.store) first es t (
        start_persistence-IsAtWork snapshot_of (snapshot_of first.store) found merged applied s r c
          refl))
      keyed notified
