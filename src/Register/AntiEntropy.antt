-- ===== src/Register/AntiEntropy.antt =====
-- One round of anti-entropy: a peer sends its digest, and receives the records that RecordsToPush
-- selects for it.
pub mod Round
use clipp.Prelude.{
  ℕ, ◌≡◌, ◌≢◌, refl, sym, ap, subst, ◌∙◌, Bool, true, false, not, ◌&&◌, ◌||◌, Option, none, some,
  List, [], ◌∷◌, All, map, is_empty, keep_if, less, beq, max_of, list_order, ℕ_order, list_beq_iff,
  if◌then◌else◌, arith, nless_trans, less_asymm, Bool-cases, inl, inr, Option-cases, ◌⊎◌,
}
use clipp.Bytes.{Bytes}
use clipp.Clock.{Hlc, hlc_order}
use clipp.OrderedMap.{find}
use clipp.OrderedMap.Laws.{beq_refl, find-keep_if}
use clipp.Register.{RegisterRecord, RegisterDigestEntry, is_expired, merge_records, value_less}
use clipp.Register.Expiry.{is_expired-merge}
use clipp.Register.Merge.{name-merge}
use clipp.Register.Store.{RegisterStore, Records, prune_expired, unexpired}
use clipp.Register.Inspect.{
  digest, digest_entry, replicates, find_entry, is_newer, to_push, records_to_push,
}
use clipp.Register.Invariant.{IsValid, prune_expired-IsValid, find-EntryOk}
use clipp.Register.Effect.{absorb, find-apply_remote, ttl-apply_remote}
use clipp.Register.Converge.{after, after-IsValid, deliver}

-- What a digest says of a name is what the store holds under it.
pub find_entry-digest :
    (n : Bytes) (m : Records)
    → is_empty n ≡ false
    → find_entry n (map digest_entry (keep_if replicates m))
      ≡ (elim (find n m) [ none ↦ none | some r ↦ some (digest_entry (n, r)) ])
unfolding find_entry find keep_if
find_entry-digest n [] h = refl
find_entry-digest n ((j, r) ∷ m) h = ground (arith, find_entry-digest n m h, list_beq_iff n j)

pub find-prune_expired :
    (s : RegisterStore) (n : Bytes) (t : ℕ) (r : RegisterRecord)
    → IsValid s
    → find n s.records ≡ some r
    → is_expired r t s.ttl_ms ≡ false
    → find n (prune_expired s t).records ≡ some r
unfolding prune_expired
find-prune_expired s n t r v e h =
    find-keep_if n (unexpired t s.ttl_ms) s.records v.sorted ∙ rw e (rw h refl)

-- A store holds a live record for the name whose write is at least as new.
pub record HoldsAtLeast (n : Bytes) (written : Hlc) (t : ℕ) (s : RegisterStore) : Type 0 where
  pub held : RegisterRecord
  pub found : find n s.records ≡ some held
  pub recent : less held.written written ≡ false
  pub live : is_expired held t s.ttl_ms ≡ false

merge_not_older :
    (m x : RegisterRecord) (w : Hlc)
    → less m.written w ≡ false
    → less (merge_records m x).written w ≡ false
unfolding merge_records value_less
merge_not_older m x w h = ground (
  arith,
  nless_trans x.written m.written w,
  hlc_order.beq_iff m.written x.written,
  less_asymm m.written x.written,
)

merge_covers : (m x : RegisterRecord) → less (merge_records m x).written x.written ≡ false
unfolding merge_records value_less
merge_covers m x = ground (arith, hlc_order.irrefl x.written, hlc_order.beq_iff m.written x.written)

absorb_at_least :
    (t ttl : ℕ) (m x : RegisterRecord) (w : Hlc)
    → less m.written w ≡ false
    → is_expired m t ttl ≡ false
    → (h : RegisterRecord) × (absorb t ttl (some m) x ≡ some h)
      × (less h.written w ≡ false)
      × (is_expired h t ttl ≡ false)
absorb_at_least t ttl m x w h e = elim (Bool-cases (is_empty x.name || is_expired x t ttl)) [
  | inl skip ↦ (m, unfold absorb in rw skip, h, e)
  | inr come ↦ (
    merge_records m x,
    unfold absorb in rw (come, e),
    merge_not_older m x w h,
    is_expired-merge m x t ttl ∙ rw e refl,
  )
]

after-HoldsAtLeast :
    (n : Bytes) (w : Hlc) (t : ℕ) (s : RegisterStore) (x : RegisterRecord)
    → HoldsAtLeast n w t s
    → HoldsAtLeast n w t (after s x t)
after-HoldsAtLeast n w t s x b = elim (Bool-cases (beq n x.name)) [
  | inr other ↦ record {
    held = b.held;
    found = find-apply_remote s x t n ∙ rw other b.found;
    recent = b.recent;
    live = ap (is_expired b.held t) (ttl-apply_remote s x t) ∙ b.live;
  }
  | inl same ↦
      let e : n ≡ x.name = (list_beq_iff n x.name).0 same in
      let f : find x.name s.records ≡ some b.held =
        subst (λ k. find k s.records ≡ some b.held) e b.found in
      let (h, g, r, l) = absorb_at_least t s.ttl_ms b.held x w b.recent b.live in
      record {
        held = h;
        found = find-apply_remote s x t n ∙ rw same (ap (λ m. absorb t s.ttl_ms m x) f) ∙ g;
        recent = r;
        live = ap (is_expired h t) (ttl-apply_remote s x t) ∙ l;
      }
]

pub deliver-HoldsAtLeast :
    (n : Bytes) (w : Hlc) (t : ℕ) (xs : List RegisterRecord) (s : RegisterStore)
    → HoldsAtLeast n w t s
    → HoldsAtLeast n w t (deliver s xs t)
unfolding deliver
deliver-HoldsAtLeast n w t [] s b = b
deliver-HoldsAtLeast n w t (x ∷ xs) s b =
    deliver-HoldsAtLeast n w t xs (after s x t) (after-HoldsAtLeast n w t s x b)

-- A store that has just received a live record holds it, or a newer one.
pub received :
    (s : RegisterStore) (x : RegisterRecord) (t : ℕ)
    → is_empty x.name ≡ false
    → is_expired x t s.ttl_ms ≡ false
    → HoldsAtLeast x.name x.written t (after s x t)
received s x t e l = elim (Option-cases (find x.name s.records)) [
  | inl f ↦ record {
    held = x;
    found = find-apply_remote s x t x.name ∙ rw (self, f) (unfold absorb in rw (e, l));
    recent = hlc_order.irrefl x.written;
    live = ap (is_expired x t) (ttl-apply_remote s x t) ∙ l;
  }
  | inr (m, f) ↦ elim (Bool-cases (is_expired m t s.ttl_ms)) [
    | inl dead ↦ record {
      held = x;
      found = find-apply_remote s x t x.name ∙ rw (self, f) (unfold absorb in rw (e, l, dead));
      recent = hlc_order.irrefl x.written;
      live = ap (is_expired x t) (ttl-apply_remote s x t) ∙ l;
    }
    | inr alive ↦ record {
      held = merge_records m x;
      found = find-apply_remote s x t x.name ∙ rw (self, f) (unfold absorb in rw (e, l, alive));
      recent = merge_covers m x;
      live =
          ap (is_expired (merge_records m x) t) (ttl-apply_remote s x t)
          ∙ is_expired-merge m x t s.ttl_ms
          ∙ rw alive refl;
    }
  ]
]
  where
    self : beq x.name x.name ≡ true
    self = beq_refl x.name
