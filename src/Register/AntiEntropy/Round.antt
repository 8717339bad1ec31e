-- ===== src/Register/AntiEntropy/Round.antt =====
-- The outcome of a round of anti-entropy: Digest, RecordsToPush and ApplyRemote of
-- src/RegisterStore.cpp.
use clipp.Prelude.{
  ℕ, ◌≡◌, refl, sym, ap, subst, ◌∙◌, Bool, true, false, not, ◌&&◌, none, some, List, [], ◌∷◌, All,
  map, is_empty, keep_if, less, beq, list_order, ℕ_order, list_beq_iff, arith, Bool-cases, inl, inr,
  Option-cases,
}
use clipp.Bytes.{Bytes}
use clipp.Clock.{Hlc, hlc_order}
use clipp.OrderedMap.{find, Sorted}
use clipp.OrderedMap.Laws.{find-keep_if, find_above}
use clipp.Register.{RegisterRecord, RegisterDigestEntry, is_expired}
use clipp.Register.Store.{RegisterStore, Records, prune_expired, unexpired}
use clipp.Register.Inspect.{digest, digest_entry, find_entry, is_newer, to_push, records_to_push}
use clipp.Register.Invariant.{IsValid, EntryOk, prune_expired-IsValid, find-EntryOk}
use clipp.Register.Effect.{find-apply_remote, ttl-apply_remote}
use clipp.Register.Converge.{after, deliver}
use clipp.Register.AntiEntropy.{
  HoldsAtLeast, deliver-HoldsAtLeast, received, find_entry-digest, find-prune_expired,
}

abbrev records_of : Records → List RegisterRecord
records_of m = map (λ e. e.1) m

received_as :
    (n : Bytes) (s : RegisterStore) (r : RegisterRecord) (t : ℕ)
    → r.name ≡ n
    → is_empty n ≡ false
    → is_expired r t s.ttl_ms ≡ false
    → HoldsAtLeast n r.written t (after s r t)
received_as n s r t k e l =
    subst (λ z. HoldsAtLeast z r.written t (after s r t)) k
      (received s r t (subst (λ z. is_empty z ≡ false) (sym k) e) l)

-- A record that is selected arrives.
deliver_selected :
    (p : Bytes × RegisterRecord → Bool) (n : Bytes) (t : ℕ) (m : Records) (s : RegisterStore)
    (r : RegisterRecord)
    → find n m ≡ some r
    → p (n, r) ≡ true
    → r.name ≡ n
    → is_empty n ≡ false
    → is_expired r t s.ttl_ms ≡ false
    → HoldsAtLeast n r.written t (deliver s (records_of (keep_if p m)) t)
unfolding find keep_if deliver
deliver_selected p n t [] s r f q k e l = cc
deliver_selected p n t ((j, v) ∷ m) s r f q k e l = elim (Bool-cases (beq n j)) [
  | inl same ↦
      let nj : n ≡ j = (list_beq_iff n j).0 same in
      let vr : v ≡ r = ground (arith, f, same) in
      let taken : p (j, v) ≡ true =
        subst (λ (x : Bytes × RegisterRecord). p x ≡ true) (λ i. (nj i, sym vr i)) q in
      rw taken (
        subst (λ z. HoldsAtLeast n r.written t (deliver (after s z t) (records_of (keep_if p m)) t))
          (sym vr)
          (deliver-HoldsAtLeast n r.written t (records_of (keep_if p m)) (after s r t)
            (received_as n s r t k e l)))
  | inr other ↦
      let f' : find n m ≡ some r = rw (other, find) at f in
      elim (Bool-cases (p (j, v))) [
        | inl taken ↦ rw taken (
            deliver_selected p n t m (after s v t) r f' q k e
              (ap (is_expired r t) (ttl-apply_remote s v t) ∙ l))
        | inr skipped ↦ rw skipped (deliver_selected p n t m s r f' q k e l)
      ]
]

-- What a pruned store holds is live.
live_of_pruned :
    (s : RegisterStore) (n : Bytes) (t : ℕ) (r : RegisterRecord)
    → IsValid s
    → find n (prune_expired s t).records ≡ some r
    → is_expired r t s.ttl_ms ≡ false
unfolding prune_expired
live_of_pruned s n t r v f =
    let e = find-keep_if n (unexpired t s.ttl_ms) s.records v.sorted in ground (arith, e, f)

not_newer :
    (r : RegisterRecord) (their : RegisterDigestEntry)
    → is_newer r (some their) ≡ false
    → less their.written r.written ≡ false
unfolding is_newer
not_newer r their h = ground arith

-- For every live record that the valid store `a` holds under a name that is not empty, the valid peer
-- `b` that has sent its digest and received what RecordsToPush selects for it holds a live record of
-- that name whose write is at least as new. All tests are made at one reading of the clock, and the
-- stores have the same time to live.
pub push-covers :
    (a b : RegisterStore) (t : ℕ) (n : Bytes) (r : RegisterRecord)
    → IsValid a
    → IsValid b
    → a.ttl_ms ≡ b.ttl_ms
    → is_empty n ≡ false
    → find n a.records ≡ some r
    → is_expired r t a.ttl_ms ≡ false
    → HoldsAtLeast n r.written t
        (deliver (digest b t).0 ((records_to_push a ((digest b t).1) t).1) t)
push-covers a b t n r va vb same e f l = elim (Option-cases (find n (prune_expired b t).records)) [
  | inl missing ↦ selected (
      unfold is_newer digest in
      rw (find_entry-digest n (prune_expired b t).records e, missing) refl)
  | inr (rb, there) ↦ elim (Bool-cases (is_newer r (some (digest_entry (n, rb))))) [
    | inl newer ↦
        selected
          (unfold digest in rw (find_entry-digest n (prune_expired b t).records e, there) newer)
    | inr older ↦
        unfold digest in
        deliver-HoldsAtLeast n r.written t _ (prune_expired b t) (record {
          held = rb;
          found = there;
          recent = not_newer r _ older;
          live = unfold prune_expired in live_of_pruned b n t rb vb there;
        })
  ]
]
  where
    selected :
        is_newer r (find_entry n ((digest b t).1)) ≡ true
        → HoldsAtLeast n r.written t
            (deliver (digest b t).0 ((records_to_push a ((digest b t).1) t).1) t)
    selected newer =
        unfold records_to_push digest in
        deliver_selected (to_push _) n t (prune_expired a t).records (prune_expired b t) r
          (find-prune_expired a n t r va f l) (rw e newer) (find-EntryOk a n va f).0 e
          (unfold prune_expired in subst (λ k. is_expired r t k ≡ false) same l)

-- Records of other names leave a name alone.
deliver_others :
    (n : Bytes) (t : ℕ) (xs : List RegisterRecord) (s : RegisterStore)
    → All (λ x. beq n x.name ≡ false) xs
    → find n (deliver s xs t).records ≡ find n s.records
unfolding deliver
deliver_others n t [] s h = refl
deliver_others n t (x ∷ xs) s (k, h) =
    deliver_others n t xs (after s x t) h ∙ find-apply_remote s x t n ∙ rw k refl

others_selected :
    (p : Bytes × RegisterRecord → Bool) (n : Bytes) (last : Hlc) (m : Records)
    → All (EntryOk last) m
    → ((r : RegisterRecord) → find n m ≡ some r → p (n, r) ≡ false)
    → Sorted m
    → All (λ x. beq n x.name ≡ false) (records_of (keep_if p m))
unfolding keep_if find
others_selected p n last [] a h s = tt
others_selected p n last ((j, v) ∷ m) (x, a) h (above, s) = elim (Bool-cases (beq n j)) [
  | inl same ↦
      let nj : n ≡ j = (list_beq_iff n j).0 same in
      let gone : find n m ≡ none = subst (λ k. find k m ≡ none) (sym nj) (find_above j m above) in
      let skipped : p (j, v) ≡ false = subst (λ k. p (k, v) ≡ false) nj (h v (rw same refl)) in
      rw skipped (others_selected p n last m a (λ r g. cc) s)
  | inr other ↦
      let rest = others_selected p n last m a (λ r g. h r (rw other g)) s in
      let named : beq n v.name ≡ false = subst (λ k. beq n k ≡ false) (sym x.0) other in
      elim (Bool-cases (p (j, v))) [
        | inl taken ↦ rw taken (named, rest)
        | inr skipped ↦ rw skipped rest
      ]
]

tie_not_newer :
    (n : Bytes) (r ra rb : RegisterRecord)
    → r ≡ ra
    → ra.written ≡ rb.written
    → ra.touched ≡ rb.touched
    → (not (is_empty n) && is_newer r (some (digest_entry (n, rb)))) ≡ false
unfolding is_newer
tie_not_newer n r ra rb e w t =
    ground (arith, hlc_order.irrefl ra.written, hlc_order.irrefl ra.touched)

-- If two valid stores hold live records of one name, not the empty one, that tie in both
-- timestamps, as two devices can that write in the same millisecond, a round of anti-entropy leaves
-- the receiver's record as it was, whatever the origins, flags and values are: such a round does not
-- break the tie.
pub tie-stays :
    (a b : RegisterStore) (t : ℕ) (n : Bytes) (ra rb : RegisterRecord)
    → IsValid a
    → IsValid b
    → is_empty n ≡ false
    → find n a.records ≡ some ra
    → find n b.records ≡ some rb
    → is_expired ra t a.ttl_ms ≡ false
    → is_expired rb t b.ttl_ms ≡ false
    → ra.written ≡ rb.written
    → ra.touched ≡ rb.touched
    → find n (deliver (digest b t).0 ((records_to_push a ((digest b t).1) t).1) t).records ≡ some rb
tie-stays a b t n ra rb va vb e fa fb la lb w x =
    unfold digest records_to_push in
    deliver_others n t (records_of (keep_if (to_push remote) (prune_expired a t).records))
      (prune_expired b t)
      (others_selected (to_push remote) n a.clock.last (prune_expired a t).records
        (unfold prune_expired in pruned.entries) unselected pruned.sorted)
    ∙ there
  where
    remote : List RegisterDigestEntry
    remote = (digest b t).1

    there : find n (prune_expired b t).records ≡ some rb
    there = find-prune_expired b n t rb vb fb lb

    pruned : IsValid (prune_expired a t)
    pruned = prune_expired-IsValid a t va

    unselected :
        (r : RegisterRecord)
        → find n (prune_expired a t).records ≡ some r
        → to_push remote (n, r) ≡ false
    unselected r f =
        unfold digest in
        rw (find_entry-digest n (prune_expired b t).records e, there)
          (tie_not_newer n r ra rb (cc (f, find-prune_expired a n t ra va fa la)) w x)
