-- ===== src/PeerManager/Discovery.antt =====
-- Adding, removing and culling the peers of src/PeerManager.cpp, as discovery and its timer call them.
use clipp.Prelude.{
  ℕ, ◌≤◌, ◌<◌, ◌≡◌, refl, Bool, true, false, not, ◌&&◌, List, [], ◌∷◌, ◌++◌, keep_if, count_if,
  any_of, beq, list_order, ℕ_order, Bool-cases, inl, inr, arith, ltb,
}
use clipp.Bytes.{Bytes}
use clipp.OrderedMap.Laws.{beq_refl}
use clipp.PeerLimits.{can_add_outgoing, max_outgoing_peers}
use clipp.PeerManager.{Peer, PeerManager, is_outgoing, is_incoming, start, outgoing_peer}
use clipp.PeerManager.Admission.{add_peer, outgoing_to, outgoes, already_present, outgoing_accepted}
use clipp.PeerManager.Removal.{remove_if, remove_outgoing_peer, cull_peers}
use clipp.PeerManager.Bounds.{WithinLimits}

module _ {ℓ} {A : Type ℓ} (p q : A → Bool) where
  keep_if-keep_if :
      ((x : A) → p x ≡ true → q x ≡ true) → (xs : List A) → keep_if p (keep_if q xs) ≡ keep_if p xs
  unfolding keep_if
  keep_if-keep_if h [] = refl
  keep_if-keep_if h (x ∷ xs) = ground (arith, h x, keep_if-keep_if h xs)

  any_of-keep_if :
      ((x : A) → p x ≡ true → q x ≡ false) → (xs : List A) → any_of p (keep_if q xs) ≡ false
  unfolding keep_if any_of
  any_of-keep_if h [] = refl
  any_of-keep_if h (x ∷ xs) = ground (arith, h x, any_of-keep_if h xs)

  kept_count : (xs : List A) → count_if p (keep_if q xs) ≤ count_if p xs
  unfolding keep_if count_if
  kept_count [] = omega arith
  kept_count (x ∷ xs) = ground (arith, kept_count xs)

  -- One element at least of those that are counted is dropped.
  count_if-keep_if_less :
      (r : A → Bool)
      → ((x : A) → r x ≡ true → (p x ≡ true) × (q x ≡ false))
      → (xs : List A) → any_of r xs ≡ true
      → count_if p (keep_if q xs) < count_if p xs
  unfolding keep_if count_if any_of
  count_if-keep_if_less r h [] e = ground arith
  count_if-keep_if_less r h (x ∷ xs) e =
      ground (arith, h x, kept_count xs, count_if-keep_if_less r h xs)

any_of-append {ℓ} :
    {A : Type ℓ} (p : A → Bool) (xs : List A) (x : A) → p x ≡ true → any_of p (xs ++ x ∷ []) ≡ true
unfolding any_of
any_of-append p [] x e = ground arith
any_of-append p (y ∷ ys) x e = ground (arith, any_of-append p ys x)

started_outgoing_to :
    (name id ip : Bytes) (port at : ℕ) (wakes : Bool)
    → outgoing_to id (start wakes (outgoing_peer name id ip port at)) ≡ true
unfolding start outgoing_peer
started_outgoing_to name id ip port at true = rw (beq_refl id) refl
started_outgoing_to name id ip port at false = rw (beq_refl id) refl

module _ (m : PeerManager) (name id ip : Bytes) (port at_log at_create : ℕ) (wakes : Bool) where
  -- A peer that was accepted is present: adding its host id again, under any name and address,
  -- changes nothing.
  pub add_peer-add_peer :
      (name' ip' : Bytes) (port' at_log' at_create' : ℕ) (wakes' : Bool)
      → (add_peer m name id ip port at_log at_create wakes).1 ≡ outgoing_accepted
      → let m' = (add_peer m name id ip port at_log at_create wakes).0 in
        add_peer m' name' id ip' port' at_log' at_create' wakes' ≡ (m', already_present)
  add_peer-add_peer name' ip' port' at_log' at_create' wakes' e =
      elim (Bool-cases (any_of (outgoing_to id) m.peers)) [
        | inl found ↦ unfold add_peer in ground (arith, e, found)
        | inr missing ↦ elim (Bool-cases (can_add_outgoing (count_if outgoes m.peers))) [
          | inl room ↦ unfold add_peer in rw (missing, room) (rw present refl)
          | inr full ↦ unfold add_peer in ground (arith, e, missing, full)
        ]
      ]
    where
      present :
          any_of
            (outgoing_to id)
            (m.peers ++ start wakes (outgoing_peer name id ip port at_create) ∷ [])
          ≡ true
      present =
          any_of-append (outgoing_to id) m.peers _
            (started_outgoing_to name id ip port at_create wakes)

  -- Where discovery has reported an outgoing peer gone and it is removed, it is accepted when it is
  -- discovered again, even where the limit had been reached.
  pub add_peer-remove_outgoing_peer :
      WithinLimits m
      → any_of (outgoing_to id) m.peers ≡ true
      → (add_peer (remove_outgoing_peer m id) name id ip port at_log at_create wakes).1
        ≡ outgoing_accepted
  unfolding add_peer remove_outgoing_peer remove_if can_add_outgoing
  add_peer-remove_outgoing_peer v e =
      let gone = λ (p : Peer). is_outgoing p.conn_type && beq p.host_id id in
      let absent =
        any_of-keep_if (outgoing_to id) (λ p. not (gone p)) (λ p h. ground arith) m.peers in
      let fewer =
        count_if-keep_if_less outgoes (λ p. not (gone p)) (outgoing_to id) (λ p h. ground arith)
          m.peers e in
      let room : ltb (count_if outgoes (keep_if (λ p. not (gone p)) m.peers)) max_outgoing_peers
          ≡ true =
        ground (arith, fewer, v.listed.outgoing_peers) in
      rw (absent, room) refl

-- A culling never removes a running outgoing peer: these stay, in their order, whatever the clock
-- reads and however long they have been silent.
pub keep_if-cull_peers :
    (m : PeerManager) (now : ℕ)
    → let kept = λ (p : Peer). is_outgoing p.conn_type && p.running in
      keep_if kept (cull_peers m now).peers ≡ keep_if kept m.peers
unfolding cull_peers remove_if
keep_if-cull_peers m now = keep_if-keep_if _ _ (λ p e. ground arith) m.peers

-- Removing an outgoing peer leaves every incoming peer, also one of the same host.
pub keep_if-remove_outgoing_peer :
    (m : PeerManager) (id : Bytes)
    → let kept = λ (p : Peer). is_incoming p.conn_type in
      keep_if kept (remove_outgoing_peer m id).peers ≡ keep_if kept m.peers
unfolding remove_outgoing_peer remove_if
keep_if-remove_outgoing_peer m id = keep_if-keep_if _ _ (λ p e. ground arith) m.peers
