-- ===== src/RegisterSaver/Marks.antt =====
-- What has to be saved, in each state of the writer of src/RegisterPersistenceRuntime.cpp.
use clipp.Prelude.{
  ◌<◌, ◌≡◌, ◌⊎◌, refl, sym, ◌∙◌, Bool, true, false, some, List, ◌∷◌, list_order, ℕ_order,
  list_beq_iff, if◌then◌else◌, arith, inl, inr,
}
use clipp.Bytes.{Bytes}
use clipp.RegisterSaver.{
  SavedFile, Writer, absent, looping, waiting, debouncing, finished, saving, flushing, Runtime,
  find_file, save_now, KeyChange, no_change, loading, flushing_old, resolving, mutate_store,
  SaverStep, writes, flushes_old,
}

pub clash : {b : Bool} → b ≡ true → b ≡ false → ⊥
clash p q = ground (arith, p, q)

pub if_both :
    {A : Type 0} (P : A → Type 0) (b : Bool) {x y : A}
    → (b ≡ true → P x)
    → (b ≡ false → P y)
    → P (if b then x else y)
if_both P true f g = f refl
if_both P false f g = g refl

module _ {S R : Type 0} (snapshot_of : S → R) (base : R) where
  -- The file of the group holds the snapshot of the store, under the key of the group.
  abbrev pub IsSaved : Runtime S R → Type 0
  IsSaved s =
      find_file s.file_path s.files
      ≡ some
          (record { path = s.file_path; sealed_with = s.seal_key; snapshot = snapshot_of s.store })

  -- The store is in the file of the group, or is what it was at first.
  abbrev pub IsKept : Runtime S R → Type 0
  IsKept s = IsSaved s ⊎ (snapshot_of s.store ≡ base)

  -- Without a key there is nothing to save; else the store is kept, or will be.
  abbrev pub Marked : Writer → Runtime S R → Type 0
  Marked (saving path key) s =
      (s.have_key ≡ false) ⊎ ((s.dirty ≡ true) ⊎ ((path ≡ s.file_path) × (key ≡ s.seal_key)))
  Marked w s = (s.have_key ≡ false) ⊎ ((s.dirty ≡ true) ⊎ ((0 < s.unnotified) ⊎ IsKept s))

  -- A change of the key that saves the old file does so with the key that there still is.
  abbrev pub OldOk : KeyChange → Runtime S R → Type 0
  OldOk (flushing_old had_key path key) s = (path ≡ s.file_path) × (key ≡ s.seal_key)
  OldOk c s = Unit

  abbrev pub works : Writer → Bool
  works absent = false
  works finished = false
  works (flushing path key) = false
  works w = true

  pub record IsAtWork (s : Runtime S R) : Type 0 where
    pub runs : s.running ≡ true
    pub not_stopped : s.stop ≡ false
    pub at_work : works s.writer ≡ true
    pub old_ok : OldOk s.key_change s
    pub marked : Marked s.writer s

  -- The step succeeds.
  abbrev pub Succeeds : SaverStep S → Type 0
  Succeeds (writes ok) = ok ≡ true
  Succeeds (flushes_old ok) = ok ≡ true
  Succeeds e = Unit

  find_file-head : (f : SavedFile R) (fs : List (SavedFile R)) → find_file f.path (f ∷ fs) ≡ some f
  unfolding find_file
  find_file-head f fs = rw ((list_beq_iff f.path f.path).1 refl) refl

  -- After a save to the current file the store is saved.
  pub save_now-IsSaved :
      (path key : Bytes) (s : Runtime S R)
      → path ≡ s.file_path
      → key ≡ s.seal_key
      → IsSaved (save_now snapshot_of true path key s)
  unfolding save_now
  save_now-IsSaved path key s e f =
      rw (e, f)
        (find_file-head
          (record { path = s.file_path; sealed_with = s.seal_key; snapshot = snapshot_of s.store })
          s.files)

  pub mutated-Marked :
      (w : Writer) (store : S) (s : Runtime S R)
      → Marked w s
      → Marked w (mutate_store snapshot_of store s)
  unfolding mutate_store
  mutated-Marked (saving path key) store s m = m
  mutated-Marked absent store s m = inr (inr (inl (omega arith)))
  mutated-Marked looping store s m = inr (inr (inl (omega arith)))
  mutated-Marked waiting store s m = inr (inr (inl (omega arith)))
  mutated-Marked debouncing store s m = inr (inr (inl (omega arith)))
  mutated-Marked finished store s m = inr (inr (inl (omega arith)))
  mutated-Marked (flushing path key) store s m = inr (inr (inl (omega arith)))

  pub dirty-Marked : (w : Writer) (s : Runtime S R) → s.dirty ≡ true → Marked w s
  dirty-Marked (saving path key) s d = inr (inl d)
  dirty-Marked absent s d = inr (inl d)
  dirty-Marked looping s d = inr (inl d)
  dirty-Marked waiting s d = inr (inl d)
  dirty-Marked debouncing s d = inr (inl d)
  dirty-Marked finished s d = inr (inl d)
  dirty-Marked (flushing path key) s d = inr (inl d)

  pub keyless-Marked : (w : Writer) (s : Runtime S R) → s.have_key ≡ false → Marked w s
  keyless-Marked (saving path key) s d = inl d
  keyless-Marked absent s d = inl d
  keyless-Marked looping s d = inl d
  keyless-Marked waiting s d = inl d
  keyless-Marked debouncing s d = inl d
  keyless-Marked finished s d = inl d
  keyless-Marked (flushing path key) s d = inl d

  -- The mark does not look at the change of the key.
  pub Marked-moved :
      (w : Writer) (s : Runtime S R) (c : KeyChange)
      → Marked w s
      → Marked w (record s { key_change = c })
  Marked-moved (saving path key) s c m = m
  Marked-moved absent s c m = m
  Marked-moved looping s c m = m
  Marked-moved waiting s c m = m
  Marked-moved debouncing s c m = m
  Marked-moved finished s c m = m
  Marked-moved (flushing path key) s c m = m

  -- The old path and key are compared with those of the state alone.
  pub OldOk-same :
      (c : KeyChange) (s t : Runtime S R)
      → t.file_path ≡ s.file_path
      → t.seal_key ≡ s.seal_key
      → OldOk c s
      → OldOk c t
  OldOk-same no_change s t e f o = tt
  OldOk-same loading s t e f o = tt
  OldOk-same (resolving had_key path) s t e f o = tt
  OldOk-same (flushing_old had_key path key) s t e f (g, h) = (g ∙ sym e, h ∙ sym f)
