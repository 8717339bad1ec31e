-- ===== src/RegisterSaver/Saved.antt =====
-- No change of the registers is lost by the saving of src/RegisterPersistenceRuntime.cpp.
use clipp.Prelude.{
  ◌≡◌, refl, sym, ap, subst, Bool, true, false, not, ◌||◌, Option, none, some, List, [], ◌∷◌, ◌==◌,
  beq, list_order, ℕ_order, All, if◌then◌else◌, arith, Bool-cases, inl, inr,
}
use clipp.Bytes.{Bytes}
use clipp.RegisterSaver.{
  Writer, absent, looping, waiting, debouncing, finished, saving, flushing, Runtime, save_now,
  start_persistence, writer_at, writer_step, KeyChange, no_change, loading, flushing_old, resolving,
  begin_key_change, flush_old, set_key, merge_record, end_load, mutate_store, call_listener,
  SaverStep, mutates, notifies, writes, changes_key, flushes_old, sets_key, merges, ends_load,
  saver_step, saver_steps,
}
use clipp.RegisterSaver.Marks.{
  clash, if_both, IsSaved, Marked, OldOk, works, IsAtWork, Succeeds, save_now-IsSaved,
  mutated-Marked, dirty-Marked, keyless-Marked, Marked-moved, OldOk-same,
}

module _ {S R : Type 0} (snapshot_of : S → R) (base : R) where
  notified-IsAtWork :
      (s : Runtime S R)
      → IsAtWork snapshot_of base s
      → IsAtWork snapshot_of base (call_listener snapshot_of s)
  unfolding call_listener
  notified-IsAtWork s v = elim (Bool-cases (s.unnotified == 0)) [
    | inl nothing ↦ rw nothing v
    | inr one ↦ rw one (record {
      runs = v.runs;
      not_stopped = v.not_stopped;
      at_work = v.at_work;
      old_ok = OldOk-same snapshot_of base s.key_change s _ refl refl v.old_ok;
      marked = dirty-Marked snapshot_of base s.writer _ refl;
    })
  ]

  set_key-IsAtWork :
      (c : KeyChange) (found : Option (Bytes × Bytes)) (s : Runtime S R)
      → IsAtWork snapshot_of base s
      → IsAtWork snapshot_of base (set_key snapshot_of c found s)
  unfolding set_key
  set_key-IsAtWork no_change found s v = v
  set_key-IsAtWork loading found s v = v
  set_key-IsAtWork (flushing_old had_key path key) found s v = v
  set_key-IsAtWork (resolving had_key old_path) none s v = record {
    runs = v.runs;
    not_stopped = v.not_stopped;
    at_work = v.at_work;
    old_ok = tt;
    marked = keyless-Marked snapshot_of base s.writer _ refl;
  }
  set_key-IsAtWork (resolving had_key old_path) (some (path, key)) s v = record {
    runs = v.runs;
    not_stopped = v.not_stopped;
    at_work = v.at_work;
    old_ok = either (not had_key || not (beq path old_path)) _;
    marked = dirty-Marked snapshot_of base s.writer _ refl;
  }
    where
      either :
          (b : Bool) (t : Runtime S R) → OldOk snapshot_of base (if b then loading else no_change) t
      either true t = tt
      either false t = tt

  -- A save to the file of the group leaves the mark of the writer as it was, or better.
  flushed-Marked :
      (w : Writer) (path key : Bytes) (s : Runtime S R)
      → path ≡ s.file_path
      → key ≡ s.seal_key
      → Marked snapshot_of base w s
      → Marked snapshot_of base w (save_now snapshot_of true path key s)
  flushed-Marked w path key s e f m = go w m
    where
      saved : IsSaved snapshot_of base (save_now snapshot_of true path key s)
      saved = save_now-IsSaved snapshot_of base path key s e f

      go :
          (w : Writer)
          → Marked snapshot_of base w s
          → Marked snapshot_of base w (save_now snapshot_of true path key s)
      go (saving p k) m = unfold save_now in m
      go absent m = inr (inr (inr (inl saved)))
      go looping m = inr (inr (inr (inl saved)))
      go waiting m = inr (inr (inr (inl saved)))
      go debouncing m = inr (inr (inr (inl saved)))
      go finished m = inr (inr (inr (inl saved)))
      go (flushing p k) m = inr (inr (inr (inl saved)))

  flush_old-IsAtWork :
      (c : KeyChange) (s : Runtime S R)
      → OldOk snapshot_of base c s
      → IsAtWork snapshot_of base s
      → IsAtWork snapshot_of base (flush_old snapshot_of c true s)
  unfolding flush_old save_now
  flush_old-IsAtWork no_change s o v = v
  flush_old-IsAtWork loading s o v = v
  flush_old-IsAtWork (resolving had_key path) s o v = v
  flush_old-IsAtWork (flushing_old true path key) s (e, f) v = record {
    runs = v.runs;
    not_stopped = v.not_stopped;
    at_work = v.at_work;
    old_ok = tt;
    marked = kept s.writer (flushed-Marked s.writer path key s e f v.marked);
  }
    where
      kept :
          (w : Writer)
          → Marked snapshot_of base w (save_now snapshot_of true path key s)
          → Marked snapshot_of base w
              (record (save_now snapshot_of true path key s) { key_change = resolving true path })
      kept w m =
          Marked-moved snapshot_of base w (save_now snapshot_of true path key s)
            (resolving true path) m
  flush_old-IsAtWork (flushing_old false path key) s o v = record {
    runs = v.runs;
    not_stopped = v.not_stopped;
    at_work = v.at_work;
    old_ok = tt;
    marked = Marked-moved snapshot_of base s.writer s (resolving false path) v.marked;
  }

  -- What the writer does with the fields that are not its own.
  module _ (s : Runtime S R) (r : s.running ≡ true) (h : s.stop ≡ false)
      (o : OldOk snapshot_of base s.key_change s) where
    moved-IsAtWork :
        (w : Writer)
        → works snapshot_of base w ≡ true
        → Marked snapshot_of base w s
        → IsAtWork snapshot_of base (record s { writer = w })
    moved-IsAtWork w k m = record {
      runs = r;
      not_stopped = h;
      at_work = k;
      old_ok = OldOk-same snapshot_of base s.key_change s _ refl refl o;
      marked = go w m;
    }
      where
        go :
            (w : Writer)
            → Marked snapshot_of base w s
            → Marked snapshot_of base w (record s { writer = w })
        go (saving path key) m = m
        go absent m = m
        go looping m = m
        go waiting m = m
        go debouncing m = m
        go finished m = m
        go (flushing path key) m = m

    writer_at-IsAtWork :
        (w : Writer)
        → s.writer ≡ w
        → works snapshot_of base w ≡ true
        → Marked snapshot_of base w s
        → IsAtWork snapshot_of base (writer_at snapshot_of w true s)
    unfolding writer_at
    writer_at-IsAtWork absent e k m = ground arith
    writer_at-IsAtWork finished e k m = ground arith
    writer_at-IsAtWork (flushing path key) e k m = ground arith
    writer_at-IsAtWork looping e k m =
        if_both (IsAtWork snapshot_of base) s.stop (λ b. absurd (clash b h))
          (λ b. moved-IsAtWork waiting refl m)
    writer_at-IsAtWork waiting e k m =
        if_both (IsAtWork snapshot_of base) s.stop (λ b. absurd (clash b h))
          (λ b.
            if_both (IsAtWork snapshot_of base) s.dirty (λ d. moved-IsAtWork debouncing refl m)
              (λ d. record {
                runs = r;
                not_stopped = h;
                at_work = ap (works snapshot_of base) e;
                old_ok = o;
                marked = subst (λ w. Marked snapshot_of base w s) (sym e) m;
              }))
    writer_at-IsAtWork debouncing e k m =
        if_both (IsAtWork snapshot_of base) (not s.have_key)
          (λ b. record {
            runs = r;
            not_stopped = h;
            at_work = refl;
            old_ok = OldOk-same snapshot_of base s.key_change s _ refl refl o;
            marked = inl (ground (arith, b));
          })
          (λ b. record {
            runs = r;
            not_stopped = h;
            at_work = refl;
            old_ok = OldOk-same snapshot_of base s.key_change s _ refl refl o;
            marked = inr (inr (refl, refl));
          })
    writer_at-IsAtWork (saving path key) e k m = record {
      runs = unfold save_now in r;
      not_stopped = unfold save_now in h;
      at_work = refl;
      old_ok = unfold save_now in OldOk-same snapshot_of base s.key_change s _ refl refl o;
      marked = kept m;
    }
      where
        kept :
            Marked snapshot_of base (saving path key) s
            → Marked snapshot_of base looping
                (record (save_now snapshot_of true path key s) { writer = looping })
        kept (inl keyless) = unfold save_now in inl keyless
        kept (inr (inl d)) = unfold save_now in inr (inl d)
        kept (inr (inr (p, q))) =
            let saved = save_now-IsSaved snapshot_of base path key s p q in
            unfold save_now in inr (inr (inr (inl saved)))

  mutated-IsAtWork :
      (store : S) (s : Runtime S R)
      → IsAtWork snapshot_of base s
      → IsAtWork snapshot_of base (mutate_store snapshot_of store s)
  unfolding mutate_store
  mutated-IsAtWork store s v = record {
    runs = v.runs;
    not_stopped = v.not_stopped;
    at_work = v.at_work;
    old_ok = OldOk-same snapshot_of base s.key_change s _ refl refl v.old_ok;
    marked = mutated-Marked snapshot_of base s.writer store s v.marked;
  }

  moved_on-IsAtWork :
      (c : KeyChange) (s : Runtime S R)
      → OldOk snapshot_of base c s
      → IsAtWork snapshot_of base s
      → IsAtWork snapshot_of base (record s { key_change = c })
  moved_on-IsAtWork c s o v = record {
    runs = v.runs;
    not_stopped = v.not_stopped;
    at_work = v.at_work;
    old_ok = OldOk-same snapshot_of base c s _ refl refl o;
    marked = Marked-moved snapshot_of base s.writer s c v.marked;
  }

  merged-IsAtWork :
      (c : KeyChange) (store : S) (s : Runtime S R)
      → IsAtWork snapshot_of base s
      → IsAtWork snapshot_of base (merge_record snapshot_of c store s)
  unfolding merge_record
  merged-IsAtWork loading store s v = mutated-IsAtWork store s v
  merged-IsAtWork no_change store s v = v
  merged-IsAtWork (flushing_old had_key path key) store s v = v
  merged-IsAtWork (resolving had_key path) store s v = v

  loaded-IsAtWork :
      (c : KeyChange) (s : Runtime S R)
      → IsAtWork snapshot_of base s
      → IsAtWork snapshot_of base (end_load snapshot_of c s)
  unfolding end_load
  loaded-IsAtWork loading s v = moved_on-IsAtWork no_change s tt v
  loaded-IsAtWork no_change s v = v
  loaded-IsAtWork (flushing_old had_key path key) s v = v
  loaded-IsAtWork (resolving had_key path) s v = v

  saver_step-IsAtWork :
      (s : Runtime S R) (e : SaverStep S)
      → Succeeds snapshot_of base e
      → IsAtWork snapshot_of base s
      → IsAtWork snapshot_of base (saver_step snapshot_of s e)
  unfolding saver_step writer_step begin_key_change
  saver_step-IsAtWork s (mutates store) t v = mutated-IsAtWork store s v
  saver_step-IsAtWork s notifies t v = notified-IsAtWork s v
  saver_step-IsAtWork s (writes ok) t v =
      subst (λ b. IsAtWork snapshot_of base (writer_at snapshot_of s.writer b s)) (sym t)
        (writer_at-IsAtWork s v.runs v.not_stopped v.old_ok s.writer refl v.at_work v.marked)
  saver_step-IsAtWork s changes_key t v =
      if_both (IsAtWork snapshot_of base) (not s.running) (λ b. v)
        (λ b. moved_on-IsAtWork (flushing_old s.have_key s.file_path s.seal_key) s (refl, refl) v)
  saver_step-IsAtWork s (flushes_old ok) t v =
      subst (λ b. IsAtWork snapshot_of base (flush_old snapshot_of s.key_change b s)) (sym t)
        (flush_old-IsAtWork s.key_change s v.old_ok v)
  saver_step-IsAtWork s (sets_key found) t v = set_key-IsAtWork s.key_change found s v
  saver_step-IsAtWork s (merges store) t v = merged-IsAtWork s.key_change store s v
  saver_step-IsAtWork s ends_load t v = loaded-IsAtWork s.key_change s v

  no_change-OldOk : (c : KeyChange) (t : Runtime S R) → c ≡ no_change → OldOk snapshot_of base c t
  no_change-OldOk c t e = subst (λ k. OldOk snapshot_of base k t) (sym e) tt

  -- StartRegisterPersistence leaves the saving at work: what it leaves in the store is what it was at first.
  pub start_persistence-IsAtWork :
      (found : Option (Bytes × Bytes)) (merged : S) (applied : Bool) (s : Runtime S R)
      → s.running ≡ false
      → s.key_change ≡ no_change
      → snapshot_of (start_persistence snapshot_of found merged applied s).store ≡ base
      → IsAtWork snapshot_of base (start_persistence snapshot_of found merged applied s)
  unfolding start_persistence
  start_persistence-IsAtWork none merged applied s r c e =
      if_both (IsAtWork snapshot_of base) s.running (λ b. absurd (clash b r))
        (λ b. record {
          runs = refl;
          not_stopped = refl;
          at_work = refl;
          old_ok = no_change-OldOk s.key_change _ c;
          marked = inr (inr (inr (inr (rw r at e))));
        })
  start_persistence-IsAtWork (some (path, key)) merged applied s r c e =
      if_both (IsAtWork snapshot_of base) s.running (λ b. absurd (clash b r))
        (λ b. record {
          runs = refl;
          not_stopped = refl;
          at_work = refl;
          old_ok = no_change-OldOk s.key_change _ c;
          marked = inr (inr (inr (inr (rw r at e))));
        })

  pub saver_steps-IsAtWork :
      (s : Runtime S R) (es : List (SaverStep S))
      → All (Succeeds snapshot_of base) es
      → IsAtWork snapshot_of base s
      → IsAtWork snapshot_of base (saver_steps snapshot_of s es)
  unfolding saver_steps
  saver_steps-IsAtWork s [] t v = v
  saver_steps-IsAtWork s (e ∷ es) (t, ts) v =
      saver_steps-IsAtWork (saver_step snapshot_of s e) es ts (saver_step-IsAtWork s e t v)
