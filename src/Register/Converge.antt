-- ===== src/Register/Converge.antt =====
-- The order in which the records of the peers arrive at a store: ApplyRemote of
-- src/RegisterStore.cpp.
use mathlib.Core.List.{Perm, Permᴰ}
use mathlib.Core.Logic.{∥∥₁_elim}
use mathlib.Core.HLevel.{×_prop}
use clipp.Prelude.{
  ℕ, ◌≡◌, refl, sym, ap, ◌∙◌, Option, none, some, List, [], ◌∷◌, is_empty, beq, list_order, ℕ_order,
  max_of_pairs_comm, subst, list_beq_iff, Option-cases, inl, inr, if◌then◌else◌, arith,
}
use clipp.Bytes.{Bytes}
use clipp.Clock.{Hlc, HlcClock, hlc_order, witness}
use clipp.OrderedMap.{find}
use clipp.OrderedMap.Extensional.{same_entries}
use clipp.Register.{RegisterRecord}
use clipp.Register.Merge.{merge_comm, merge_assoc}
use clipp.Register.Expiry.{is_expired-merge}
use clipp.Register.Store.{RegisterStore, Records}
use clipp.Register.Inspect.{apply_remote}
use clipp.Register.Invariant.{IsValid, find-EntryOk}
use clipp.Register.Invariant.Steps.{apply_remote_locked-IsValid, notify_if_changed-IsValid}
use clipp.Register.Effect.{
  absorb, entry_after, find-apply_remote, ttl-apply_remote, clock-apply_remote,
}

-- A record that stands under a name bears that name.
abbrev Named : Bytes → Option RegisterRecord → Type 0
Named n none = Unit
Named n (some r) = r.name ≡ n

-- Two records for one name may come in in either order.
absorb_comm :
    (t ttl : ℕ) (m : Option RegisterRecord) (x y : RegisterRecord)
    → x.name ≡ y.name
    → Named x.name m
    → absorb t ttl (absorb t ttl m x) y ≡ absorb t ttl (absorb t ttl m y) x
unfolding absorb
absorb_comm t ttl none x y e n = ground (arith, merge_comm x y e)
absorb_comm t ttl (some m) x y e n = ground (
  arith,
  merge_comm x y e,
  is_expired-merge m x t ttl,
  is_expired-merge m y t ttl,
  merge_assoc m x y n e,
  merge_assoc m y x (n ∙ e) (sym e),
)

-- The part of a store that its peers determine.
pub record Agree (s s' : RegisterStore) : Type 0 where
  pub records : s.records ≡ s'.records
  pub clock : s.clock ≡ s'.clock
  pub ttl : s.ttl_ms ≡ s'.ttl_ms

abbrev pub after : RegisterStore → RegisterRecord → ℕ → RegisterStore
after s x t = (apply_remote s x t).0

pub after-IsValid :
    (s : RegisterStore) (x : RegisterRecord) (t : ℕ) → IsValid s → IsValid (after s x t)
unfolding apply_remote
after-IsValid s x t v = notify_if_changed-IsValid _ (apply_remote_locked-IsValid s x v t)

Named-find : (s : RegisterStore) (n : Bytes) → IsValid s → Named n (find n s.records)
Named-find s n v = elim (Option-cases (find n s.records)) [
  | inl e ↦ rw e tt
  | inr (r, e) ↦ rw e (find-EntryOk s n v e).0
]

module _ (s : RegisterStore) (x y : RegisterRecord) (t : ℕ) where
  twice :
      (j : Bytes)
      → find j (after (after s x t) y t).records ≡ (
          if beq j y.name
          then absorb t s.ttl_ms (entry_after y.name s x t) y
          else entry_after j s x t)
  twice j =
      find-apply_remote (after s x t) y t j
      ∙ cc (find-apply_remote s x t y.name, find-apply_remote s x t j, ttl-apply_remote s x t)

-- The clock after a record that may have no name.
abbrev clock_after : HlcClock → RegisterRecord → HlcClock
clock_after c x = if is_empty x.name then c else witness (witness c x.written) x.touched

witness_pairs :
    (c : HlcClock) (a b d e : Hlc)
    → witness (witness (witness (witness c a) b) d) e
      ≡ witness (witness (witness (witness c d) e) a) b
unfolding witness
witness_pairs c a b d e = ap (λ (h : Hlc). record { last = h }) (max_of_pairs_comm c.last a b d e)

witness_swap :
    (c : HlcClock) (x y : RegisterRecord)
    → clock_after (clock_after c x) y ≡ clock_after (clock_after c y) x
witness_swap c x y = ground (arith, witness_pairs c x.written x.touched y.written y.touched)

clock_twice :
    (s : RegisterStore) (x y : RegisterRecord) (t : ℕ)
    → (after (after s x t) y t).clock ≡ clock_after (clock_after s.clock x) y
clock_twice s x y t =
    clock-apply_remote (after s x t) y t ∙ ap (λ c. clock_after c y) (clock-apply_remote s x t)

module _ (s : RegisterStore) (v : IsValid s) (x y : RegisterRecord) (t : ℕ) where
  lookups_swap :
      (j : Bytes)
      → find j (after (after s x t) y t).records ≡ find j (after (after s y t) x t).records
  lookups_swap j = ground (
    arith,
    twice s x y t j,
    twice s y x t j,
    list_beq_iff j x.name,
    list_beq_iff j y.name,
    list_beq_iff x.name y.name,
    list_beq_iff y.name x.name,
    λ (e : x.name ≡ y.name).
        absorb_comm t s.ttl_ms (find x.name s.records) x y e (Named-find s x.name v),
  )

  clock_swap : (after (after s x t) y t).clock ≡ (after (after s y t) x t).clock
  clock_swap = clock_twice s x y t ∙ witness_swap s.clock x y ∙ sym (clock_twice s y x t)

  -- Two records may come in in either order.
  pub after_swap : Agree (after (after s x t) y t) (after (after s y t) x t)
  after_swap = record {
    records =
        same_entries (after (after s x t) y t).records (after (after s y t) x t).records
          (after-IsValid (after s x t) y t (after-IsValid s x t v)).sorted
          (after-IsValid (after s y t) x t (after-IsValid s y t v)).sorted lookups_swap;
    clock = clock_swap;
    ttl =
        ttl-apply_remote (after s x t) y t
        ∙ ttl-apply_remote s x t
        ∙ sym (ttl-apply_remote (after s y t) x t ∙ ttl-apply_remote s y t);
  }

Agree-trans : {a b c : RegisterStore} → Agree a b → Agree b c → Agree a c
Agree-trans h k = record {
  records = h.records ∙ k.records;
  clock = h.clock ∙ k.clock;
  ttl = h.ttl ∙ k.ttl;
}

-- Stores that agree still do after the same record has come in.
after-Agree :
    (s s' : RegisterStore) (x : RegisterRecord) (t : ℕ)
    → IsValid s
    → IsValid s'
    → Agree s s'
    → Agree (after s x t) (after s' x t)
after-Agree s s' x t v v' h = record {
  records =
      same_entries (after s x t).records (after s' x t).records (after-IsValid s x t v).sorted
        (after-IsValid s' x t v').sorted
        (λ j.
          find-apply_remote s x t j
          ∙ (λ i. entry_of j (h.records i) (h.ttl i))
          ∙ sym (find-apply_remote s' x t j));
  clock =
      clock-apply_remote s x t
      ∙ ap (λ c. clock_after c x) h.clock
      ∙ sym (clock-apply_remote s' x t);
  ttl = ttl-apply_remote s x t ∙ h.ttl ∙ sym (ttl-apply_remote s' x t);
}
  where
    entry_of : Bytes → Records → ℕ → Option RegisterRecord
    entry_of j m ttl = if beq j x.name then absorb t ttl (find x.name m) x else find j m

-- A sequence of records from peers, all tested for expiry at one time.
unfoldable pub deliver : RegisterStore → List RegisterRecord → ℕ → RegisterStore
deliver s [] t = s
deliver s (x ∷ xs) t = deliver (after s x t) xs t

deliver-Agree :
    (xs : List RegisterRecord) (s s' : RegisterStore) (t : ℕ)
    → IsValid s
    → IsValid s'
    → Agree s s'
    → Agree (deliver s xs t) (deliver s' xs t)
unfolding deliver
deliver-Agree [] s s' t v v' h = h
deliver-Agree (x ∷ xs) s s' t v v' h =
    deliver-Agree xs (after s x t) (after s' x t) t (after-IsValid s x t v)
      (after-IsValid s' x t v') (after-Agree s s' x t v v' h)

Agree-refl : (s : RegisterStore) → Agree s s
Agree-refl s = record { records = refl; clock = refl; ttl = refl }

deliver-permᴰ :
    {xs ys : List RegisterRecord} (p : Permᴰ xs ys) (s : RegisterStore) (t : ℕ)
    → IsValid s
    → Agree (deliver s xs t) (deliver s ys t)
unfolding deliver
deliver-permᴰ Permᴰ.nil s t v = Agree-refl s
deliver-permᴰ (Permᴰ.cons {a} {b} {l₁} {l₂} e p) s t v =
    Agree-trans (deliver-permᴰ p (after s a t) t (after-IsValid s a t v)) (
      subst (λ z. Agree (deliver (after s a t) l₂ t) (deliver (after s z t) l₂ t)) e (Agree-refl _))
deliver-permᴰ (Permᴰ.swap {a} {b} {a'} {b'} {l} e f) s t v =
    deliver-Agree l (after (after s a t) b t) (after (after s a' t) b' t) t
      (after-IsValid _ b t (after-IsValid s a t v)) (after-IsValid _ b' t (after-IsValid s a' t v))
      (subst (λ z. Agree (after (after s a t) b t) (after (after s a' t) z t)) e
        (subst (λ z. Agree (after (after s a t) b t) (after (after s z t) a t)) f
          (after_swap s v a b t)))
deliver-permᴰ (Permᴰ.trans p q) s t v = Agree-trans (deliver-permᴰ p s t v) (deliver-permᴰ q s t v)

Records-set : IsSet Records
Records-set = hlevel

HlcClock-set : IsSet HlcClock
HlcClock-set = hlevel

-- Two valid stores that agree on their records, clock and time to live still agree on their records and
-- clock after they have received the same records, in whatever order, at one reading of the clock.
pub replicas_converge :
    (s s' : RegisterStore) (xs ys : List RegisterRecord) (t : ℕ)
    → IsValid s
    → IsValid s'
    → Agree s s'
    → Perm xs ys
    → ((deliver s xs t).records ≡ (deliver s' ys t).records)
      × ((deliver s xs t).clock ≡ (deliver s' ys t).clock)
replicas_converge s s' xs ys t v v' h p =
    ∥∥₁_elim p (×_prop (Records-set _ _) (HlcClock-set _ _)) λ d.
      let a = Agree-trans (deliver-permᴰ d s t v) (deliver-Agree ys s s' t v v' h) in
      (a.records, a.clock)
