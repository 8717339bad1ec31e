-- ===== src/Register/Dominate/Sticky.antt =====
-- Deletes and the older records that arrive after them: Read and ApplyRemote of
-- src/RegisterStore.cpp.
use clipp.Prelude.{
  ℕ, ◌≡◌, refl, sym, ap, subst, ◌∙◌, true, false, ◌||◌, none, some, List, [], ◌∷◌, All, is_empty,
  less, beq, max_of, list_order, ℕ_order, list_beq_iff, arith, less_asymm, Bool-cases, inl, inr,
  ◌⊎◌,
}
use clipp.Bytes.{Bytes}
use clipp.Clock.{Hlc, hlc_order}
use clipp.OrderedMap.{find}
use clipp.Register.{RegisterRecord, is_expired, is_tombstone, merge_records, value_less}
use clipp.Register.Expiry.{is_expired-merge}
use clipp.Register.Store.{RegisterStore}
use clipp.Register.Originate.{read}
use clipp.Register.Effect.{absorb, find-apply_remote, ttl-apply_remote}
use clipp.Register.Converge.{after, deliver}

-- An older write leaves the value, and at most refreshes the touch.
merge_older :
    (m x : RegisterRecord)
    → less x.written m.written ≡ true
    → merge_records m x ≡ record m { touched = max_of m.touched x.touched }
unfolding merge_records value_less
merge_older m x h = ground (
  arith,
  less_asymm x.written m.written,
  hlc_order.irrefl m.written,
  hlc_order.beq_iff m.written x.written,
)

-- Under `name` stands a tombstone with this timestamp that is live at time `t`.
pub record Buried (name : Bytes) (written : Hlc) (t : ℕ) (s : RegisterStore) : Type 0 where
  pub grave : RegisterRecord
  pub found : find name s.records ≡ some grave
  pub tombstone : is_tombstone grave ≡ true
  pub dated : grave.written ≡ written
  pub live : is_expired grave t s.ttl_ms ≡ false

-- A record for another name, or an older write.
abbrev pub IsOlder : Bytes → Hlc → RegisterRecord → Type 0
IsOlder name written x = x.name ≡ name → less x.written written ≡ true

older_absorbed :
    (t ttl : ℕ) (m x : RegisterRecord)
    → less x.written m.written ≡ true
    → is_expired m t ttl ≡ false
    → (absorb t ttl (some m) x ≡ some m) ⊎ (absorb t ttl (some m) x ≡ some (merge_records m x))
unfolding absorb
older_absorbed t ttl m x h e = elim (Bool-cases (is_empty x.name || is_expired x t ttl)) [
  | inl skip ↦ inl (rw skip)
  | inr come ↦ inr (rw (come, e))
]

module _ (name : Bytes) (written : Hlc) (t : ℕ) (s : RegisterStore) (x : RegisterRecord)
    (b : Buried name written t s) where
  same_grave :
      find name (after s x t).records ≡ some (b.grave) → Buried name written t (after s x t)
  same_grave e = record {
    grave = b.grave;
    found = e;
    tombstone = b.tombstone;
    dated = b.dated;
    live = ap (is_expired b.grave t) (ttl-apply_remote s x t) ∙ b.live;
  }

  merged_grave :
      less x.written b.grave.written ≡ true
      → find name (after s x t).records ≡ some (merge_records b.grave x)
      → Buried name written t (after s x t)
  merged_grave h e =
      let m = merge_older b.grave x h in
      record {
        grave = merge_records b.grave x;
        found = e;
        tombstone = ap (λ (r : RegisterRecord). is_tombstone r) m ∙ b.tombstone;
        dated = ap (λ (r : RegisterRecord). r.written) m ∙ b.dated;
        live =
            ap (is_expired (merge_records b.grave x) t) (ttl-apply_remote s x t)
            ∙ is_expired-merge b.grave x t s.ttl_ms
            ∙ rw b.live refl;
      }

  after-Buried : IsOlder name written x → Buried name written t (after s x t)
  after-Buried older = elim (Bool-cases (beq name x.name)) [
    | inr other ↦ same_grave (find-apply_remote s x t name ∙ rw other b.found)
    | inl same ↦
        let n : name ≡ x.name = (list_beq_iff name x.name).0 same in
        let h : less x.written b.grave.written ≡ true =
          subst (λ w. less x.written w ≡ true) (sym b.dated) (older (sym n)) in
        let f : find x.name s.records ≡ some b.grave =
          subst (λ k. find k s.records ≡ some b.grave) n b.found in
        let e : find name (after s x t).records ≡ absorb t s.ttl_ms (some b.grave) x =
          find-apply_remote s x t name ∙ rw same (ap (λ m. absorb t s.ttl_ms m x) f) in
        elim (older_absorbed t s.ttl_ms b.grave x h b.live) [
          | inl kept ↦ same_grave (e ∙ kept)
          | inr joined ↦ merged_grave h (e ∙ joined)
        ]
  ]

deliver-Buried :
    (name : Bytes) (written : Hlc) (t : ℕ) (xs : List RegisterRecord) (s : RegisterStore)
    → Buried name written t s
    → All (IsOlder name written) xs
    → Buried name written t (deliver s xs t)
unfolding deliver
deliver-Buried name written t [] s b h = b
deliver-Buried name written t (x ∷ xs) s b (k, h) =
    deliver-Buried name written t xs (after s x t) (after-Buried name written t s x b k) h

read-Buried :
    (name : Bytes) (written : Hlc) (t : ℕ) (s : RegisterStore) (at_check at_touch : ℕ)
    → Buried name written t s
    → (read s name at_check at_touch).1 ≡ none
unfolding read
read-Buried name written t s at_check at_touch b = ground (arith, b.found, b.tombstone)

-- Where a name holds a tombstone that is live at the time of delivery, no sequence of records from
-- peers whose writes to that name are older makes the name readable again, at any later time.
pub delete-sticks :
    (s : RegisterStore) (name : Bytes) (written : Hlc) (xs : List RegisterRecord)
    (t at_check at_touch : ℕ)
    → Buried name written t s
    → All (IsOlder name written) xs
    → (read (deliver s xs t) name at_check at_touch).1 ≡ none
delete-sticks s name written xs t at_check at_touch b h =
    read-Buried name written t (deliver s xs t) at_check at_touch
      (deliver-Buried name written t xs s b h)
