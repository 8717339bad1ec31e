-- ===== src/PeerDisplay/Sorted.antt =====
-- What the operations on the entries of src/PeerDisplay.cpp keep.
use clipp.Prelude.{
  ◌≡◌, refl, sym, ap, subst, ◌∙◌, true, false, List, [], ◌∷◌, ltb, beq, list_less, list_order,
  ℕ_order, list_beq_iff, list_connex, list_trans, any_of, All, arith, Bool-cases, inl, inr,
}
use clipp.Bytes.{Bytes}
use clipp.PeerDisplay.{
  PeerDisplayItem, is_host, change_entry, erase_entry, insert_entry, sort_entries, found_or_new,
}

-- The bools of an item say what its counts are.
abbrev pub FlagsOk : PeerDisplayItem → Type 0
FlagsOk i =
    (i.has_incoming_connection ≡ ltb 0 i.incoming_connection_count)
    × (i.has_outgoing_connection ≡ ltb 0 i.outgoing_connection_count)

abbrev pub Leads : Bytes → List PeerDisplayItem → Type 0
Leads host [] = Unit
Leads host (e ∷ es) = list_less host e.host_id ≡ true

-- The host ids go up, so that no host has two entries.
abbrev pub IsSorted : List PeerDisplayItem → Type 0
IsSorted [] = Unit
IsSorted (e ∷ es) = Leads e.host_id es × IsSorted es

abbrev pub EntriesOk : List PeerDisplayItem → Type 0
EntriesOk es = IsSorted es × All FlagsOk es

-- A change that keeps the host, and makes or keeps the bools right.
pub record Keeps (f : PeerDisplayItem → PeerDisplayItem) : Type 0 where
  pub same_host : (i : PeerDisplayItem) → (f i).host_id ≡ i.host_id
  pub flags : (i : PeerDisplayItem) → FlagsOk i → FlagsOk (f i)

module _ (f : PeerDisplayItem → PeerDisplayItem) (k : Keeps f) (host : Bytes) where
  change_entry-Leads :
      (h : Bytes) (es : List PeerDisplayItem) → Leads h es → Leads h (change_entry f host es)
  unfolding change_entry
  change_entry-Leads h [] a = tt
  change_entry-Leads h (e ∷ es) a = elim (Bool-cases (is_host host e)) [
    | inl here ↦ rw here (ap (list_less h) (k.same_host e) ∙ a)
    | inr there ↦ rw there a
  ]

  pub change_entry-EntriesOk :
      (es : List PeerDisplayItem) → EntriesOk es → EntriesOk (change_entry f host es)
  unfolding change_entry
  change_entry-EntriesOk [] v = v
  change_entry-EntriesOk (e ∷ es) ((l, s), (b, bs)) = elim (Bool-cases (is_host host e)) [
    | inl here ↦ rw here ((subst (λ h. Leads h es) (sym (k.same_host e)) l, s), (k.flags e b, bs))
    | inr there ↦
        let (s', bs') = change_entry-EntriesOk es (s, bs) in
        rw there ((change_entry-Leads e.host_id es l, s'), (b, bs'))
  ]

Leads-trans :
    (a b : Bytes) (es : List PeerDisplayItem) → list_less a b ≡ true → Leads b es → Leads a es
Leads-trans a b [] h l = tt
Leads-trans a b (e ∷ es) h l = list_trans a b e.host_id h l

erase_entry-Leads :
    (host h : Bytes) (es : List PeerDisplayItem)
    → IsSorted es
    → Leads h es
    → Leads h (erase_entry host es)
unfolding erase_entry
erase_entry-Leads host h [] s a = tt
erase_entry-Leads host h (e ∷ es) (l, s) a = elim (Bool-cases (is_host host e)) [
  | inl here ↦ rw here (Leads-trans h e.host_id es a l)
  | inr there ↦ rw there a
]

pub erase_entry-EntriesOk :
    (host : Bytes) (es : List PeerDisplayItem) → EntriesOk es → EntriesOk (erase_entry host es)
unfolding erase_entry
erase_entry-EntriesOk host [] v = v
erase_entry-EntriesOk host (e ∷ es) ((l, s), (b, bs)) = elim (Bool-cases (is_host host e)) [
  | inl here ↦ rw here (s, bs)
  | inr there ↦
      let (s', bs') = erase_entry-EntriesOk host es (s, bs) in
      rw there ((erase_entry-Leads host e.host_id es s l, s'), (b, bs'))
]

-- Another host that is not in front is behind.
other_host-behind : (a b : Bytes) → beq b a ≡ false → list_less a b ≡ false → list_less b a ≡ true
other_host-behind a b other h = elim (Bool-cases (list_less b a)) [
  | inl p ↦ p
  | inr q ↦ ground (arith, list_beq_iff b a, list_connex b a q h, other)
]

insert_entry-Leads :
    (x : PeerDisplayItem) (es : List PeerDisplayItem) (h : Bytes)
    → list_less h x.host_id ≡ true
    → Leads h es
    → Leads h (insert_entry x es)
unfolding insert_entry
insert_entry-Leads x [] h m a = m
insert_entry-Leads x (e ∷ es) h m a = elim (Bool-cases (list_less x.host_id e.host_id)) [
  | inl before ↦ rw before m
  | inr behind ↦ rw behind a
]

insert_entry-EntriesOk :
    (x : PeerDisplayItem) (es : List PeerDisplayItem)
    → any_of (is_host x.host_id) es ≡ false
    → FlagsOk x
    → EntriesOk es
    → EntriesOk (insert_entry x es)
unfolding insert_entry any_of
insert_entry-EntriesOk x [] h b v = ((tt, tt), (b, tt))
insert_entry-EntriesOk x (e ∷ es) h b ((l, s), (c, cs)) =
    elim (Bool-cases (list_less x.host_id e.host_id)) [
      | inl before ↦ rw before ((before, (l, s)), (b, (c, cs)))
      | inr behind ↦
          let (s', bs') = insert_entry-EntriesOk x es (ground (arith, h)) b (s, cs) in
          let first = other_host-behind x.host_id e.host_id (ground (arith, h)) behind in
          rw behind ((insert_entry-Leads x es e.host_id first l, s'), (c, bs'))
    ]

-- A sorted list is its own sort.
insert_entry-front :
    (x : PeerDisplayItem) (es : List PeerDisplayItem)
    → Leads x.host_id es
    → insert_entry x es ≡ x ∷ es
unfolding insert_entry
insert_entry-front x [] l = refl
insert_entry-front x (e ∷ es) l = rw l refl

pub sort_entries-IsSorted : (es : List PeerDisplayItem) → IsSorted es → sort_entries es ≡ es
unfolding sort_entries
sort_entries-IsSorted [] s = refl
sort_entries-IsSorted (e ∷ es) (l, s) = rw (sort_entries-IsSorted es s) (insert_entry-front e es l)

pub found_or_new-EntriesOk :
    (f : PeerDisplayItem → PeerDisplayItem) (k : Keeps f) (x : PeerDisplayItem)
    (es : List PeerDisplayItem)
    → FlagsOk x
    → EntriesOk es
    → EntriesOk (found_or_new f x es)
unfolding found_or_new
found_or_new-EntriesOk f k x es b v = elim (Bool-cases (any_of (is_host x.host_id) es)) [
  | inl there ↦ rw there (change_entry-EntriesOk f k x.host_id es v)
  | inr new ↦ rw new (insert_entry-EntriesOk x es new b v)
]

-- Another entry in the place of the one of its host.
change_to-Leads :
    (x : PeerDisplayItem) (h : Bytes) (es : List PeerDisplayItem)
    → Leads h es
    → Leads h (change_entry (λ e. x) x.host_id es)
unfolding change_entry
change_to-Leads x h [] a = tt
change_to-Leads x h (e ∷ es) a = elim (Bool-cases (is_host x.host_id e)) [
  | inl here ↦
      rw here (subst (λ k. list_less h k ≡ true) ((list_beq_iff e.host_id x.host_id).0 here) a)
  | inr there ↦ rw there a
]

pub change_to-EntriesOk :
    (x : PeerDisplayItem) (es : List PeerDisplayItem)
    → FlagsOk x
    → EntriesOk es
    → EntriesOk (change_entry (λ e. x) x.host_id es)
unfolding change_entry
change_to-EntriesOk x [] b v = v
change_to-EntriesOk x (e ∷ es) b ((l, s), (c, cs)) = elim (Bool-cases (is_host x.host_id e)) [
  | inl here ↦
      rw here ((subst (λ k. Leads k es) ((list_beq_iff e.host_id x.host_id).0 here) l, s), (b, cs))
  | inr there ↦
      let (s', bs') = change_to-EntriesOk x es b (s, cs) in
      rw there ((change_to-Leads x e.host_id es l, s'), (c, bs'))
]
