-- ===== src/PeerManager/Bounds.antt =====
-- The limits on the peers of src/PeerManager.cpp, and the changes of the list that keep them.
pub mod Steps
pub mod Kept
use clipp.Prelude.{
  ℕ, zero, suc, ◌+◌, ◌≤◌, ◌<◌, ◌≡◌, refl, sym, Bool, true, false, not, ◌&&◌, List, [], ◌∷◌, ◌++◌,
  map, keep_if, count_if, any_of, is_empty, subst, beq, list_order, ℕ_order, list_beq_iff,
  if◌then◌else◌, Bool-cases, inl, inr, ◌⊎◌, arith, ltb, leb,
}
use clipp.Bytes.{Bytes}
use clipp.PeerLimits.{
  max_pending_incoming_authentications, max_pending_incoming_authentications_per_ip,
  max_authenticated_incoming_peers, max_outgoing_peers, PendingAuthenticationAdmission, accepted,
  rejected_global_limit, rejected_per_ip_limit, evaluate_pending_authentication,
  can_establish_incoming, can_add_outgoing,
}
use clipp.PeerLimits.Throttle.{record_rejection}
use clipp.PeerManager.{
  Peer, PeerManager, ConnType, incoming, outgoing, new_manager, is_incoming_authentication_pending,
  outgoing_peer, incoming_peer, start,
}
use clipp.PeerManager.Admission.{
  rejected_global_auth_limit, rejected_per_ip_auth_limit, incoming_accepted, add_peer,
  add_incoming_peer, try_establish_incoming_peer, on_incoming_peer_left, outgoing_to, outgoes,
  pending_from,
}
use clipp.PeerManager.Removal.{
  remove_if, remove_peer, remove_outgoing_peer, cull_peers, clear_peers, broadcast_clipboard,
  broadcast_register_frame, broadcast_frame,
}
use clipp.PeerManager.Events.{
  ManagerEvent, manage, manage_all, change_at, change, authenticated, stopped, verified, connected,
  pinged, handshake, exit_worker, adds, adds_incoming, removes, removes_outgoing, broadcasts,
  broadcasts_register, broadcasts_frame, culls, clears, handshakes, connects, pings, exits,
}
use clipp.PeerManager.Counts.{
  count_if-append, count_if-keep_if, any_of-none, count_if-map, count_if-change_at,
}

-- The limits: at most 32 incoming peers that have not proved who they are, 8 from one address, and
-- at most 127 outgoing peers, one for each device.
pub record ListWithinLimits (ps : List Peer) : Type 0 where
  pub pending :
      count_if is_incoming_authentication_pending ps ≤ max_pending_incoming_authentications
  pub pending_per_ip :
      (ip : Bytes) → count_if (pending_from ip) ps ≤ max_pending_incoming_authentications_per_ip
  pub outgoing_peers : count_if outgoes ps ≤ max_outgoing_peers
  pub distinct : (host_id : Bytes) → count_if (outgoing_to host_id) ps ≤ 1

abbrev pub is_established : Peer → Bool
is_established p = p.incoming_established

-- The list of peers is within the limits, the counter of established incoming peers is the number of
-- them in the list, and they are at most 127.
pub record WithinLimits (m : PeerManager) : Type 0 where
  pub listed : ListWithinLimits m.peers
  pub counted : m.established_incoming_count ≡ count_if is_established m.peers
  pub established_peers : count_if is_established m.peers ≤ 127

-- A change of a peer that no limit notices.
pub record Tame (f : Peer → Peer) : Type 0 where
  pub pending :
      (p : Peer)
      → is_incoming_authentication_pending (f p) ≡ true
      → is_incoming_authentication_pending p ≡ true
  pub pending_per_ip :
      (ip : Bytes) (p : Peer) → pending_from ip (f p) ≡ true → pending_from ip p ≡ true
  pub outgoing_peers : (p : Peer) → outgoes (f p) ≡ true → outgoes p ≡ true
  pub distinct :
      (host_id : Bytes) (p : Peer) → outgoing_to host_id (f p) ≡ true → outgoing_to host_id p ≡ true

-- A list whose counts are no greater is within the limits too.
pub smaller :
    (ps qs : List Peer)
    → ((t : Peer → Bool) → count_if t qs ≤ count_if t ps)
    → ListWithinLimits ps
    → ListWithinLimits qs
smaller ps qs h v = record {
  pending = omega (arith, h is_incoming_authentication_pending, v.pending);
  pending_per_ip = λ ip. omega (arith, h (pending_from ip), v.pending_per_ip ip);
  outgoing_peers = omega (arith, h outgoes, v.outgoing_peers);
  distinct = λ id. omega (arith, h (outgoing_to id), v.distinct id);
}

pub change_at-ListWithinLimits :
    (f : Peer → Peer) (i : ℕ) (ps : List Peer)
    → Tame f
    → ListWithinLimits ps
    → ListWithinLimits (change_at i f ps)
change_at-ListWithinLimits f i ps t v = record {
  pending =
      omega
        (arith, count_if-change_at is_incoming_authentication_pending f t.pending i ps, v.pending);
  pending_per_ip = λ ip. omega (
    arith,
    count_if-change_at (pending_from ip) f (t.pending_per_ip ip) i ps,
    v.pending_per_ip ip,
  );
  outgoing_peers =
      omega (arith, count_if-change_at outgoes f t.outgoing_peers i ps, v.outgoing_peers);
  distinct = λ id.
      omega (arith, count_if-change_at (outgoing_to id) f (t.distinct id) i ps, v.distinct id);
}

pub map-ListWithinLimits :
    (f : Peer → Peer) (ps : List Peer) → Tame f → ListWithinLimits ps → ListWithinLimits (map f ps)
map-ListWithinLimits f ps t v = record {
  pending =
      omega (arith, count_if-map is_incoming_authentication_pending f t.pending ps, v.pending);
  pending_per_ip = λ ip.
      omega (arith, count_if-map (pending_from ip) f (t.pending_per_ip ip) ps, v.pending_per_ip ip);
  outgoing_peers = omega (arith, count_if-map outgoes f t.outgoing_peers ps, v.outgoing_peers);
  distinct = λ id. omega (arith, count_if-map (outgoing_to id) f (t.distinct id) ps, v.distinct id);
}

-- A change that leaves alone what the limits look at.
pub unnoticed :
    (f : Peer → Peer)
    → ((p : Peer) → (f p).conn_type ≡ p.conn_type)
    → ((p : Peer) → (f p).ip ≡ p.ip)
    → ((p : Peer) → p.conn_type ≡ outgoing → (f p).host_id ≡ p.host_id)
    → ((p : Peer)
        → (f p).incoming_authentication_pending ≡ true
        → p.incoming_authentication_pending ≡ true)
    → Tame f
unnoticed f c a h q = record {
  pending = λ p e. ground (arith, c p, q p);
  pending_per_ip = λ ip p e. ground (arith, c p, q p, a p);
  outgoing_peers = λ p e. ground (arith, c p);
  distinct = λ id p e. ground (arith, c p, h p);
}

appended-ListWithinLimits :
    (ps : List Peer) (p : Peer)
    → ListWithinLimits ps
    → (is_incoming_authentication_pending p ≡ true
        → (count_if is_incoming_authentication_pending ps < max_pending_incoming_authentications)
          × (count_if (pending_from p.ip) ps < max_pending_incoming_authentications_per_ip))
    → (outgoes p ≡ true
        → (count_if outgoes ps < max_outgoing_peers) × (count_if (outgoing_to p.host_id) ps ≡ 0))
    → ListWithinLimits (ps ++ p ∷ [])
appended-ListWithinLimits ps p v i o = record {
  pending = ground (arith, count_if-append is_incoming_authentication_pending ps p, v.pending);
  pending_per_ip = λ ip. elim (Bool-cases (beq p.ip ip)) [
    | inl same ↦
        subst
          (λ k.
            count_if (pending_from k) (ps ++ p ∷ []) ≤ max_pending_incoming_authentications_per_ip)
          ((list_beq_iff p.ip ip).0 same)
          (ground (arith, count_if-append (pending_from p.ip) ps p, v.pending_per_ip p.ip))
    | inr other ↦ ground (arith, count_if-append (pending_from ip) ps p, v.pending_per_ip ip, other)
  ];
  outgoing_peers = ground (arith, count_if-append outgoes ps p, v.outgoing_peers);
  distinct = λ id. elim (Bool-cases (beq p.host_id id)) [
    | inl same ↦
        subst (λ k. count_if (outgoing_to k) (ps ++ p ∷ []) ≤ 1)
          ((list_beq_iff p.host_id id).0 same)
          (ground (arith, count_if-append (outgoing_to p.host_id) ps p, v.distinct p.host_id))
    | inr other ↦ ground (arith, count_if-append (outgoing_to id) ps p, v.distinct id, other)
  ];
}

module _ (ps : List Peer) (port at : ℕ) (v : ListWithinLimits ps) where
  pub outgoing_listed :
      (name id ip : Bytes) (wakes : Bool)
      → count_if outgoes ps < max_outgoing_peers
      → count_if (outgoing_to id) ps ≡ 0
      → ListWithinLimits (ps ++ start wakes (outgoing_peer name id ip port at) ∷ [])
  unfolding start outgoing_peer
  outgoing_listed name id ip true r n =
      appended-ListWithinLimits ps _ v (λ e. ground arith) (λ e. (r, n))
  outgoing_listed name id ip false r n =
      appended-ListWithinLimits ps _ v (λ e. ground arith) (λ e. (r, n))

  pub incoming_listed :
      (ip : Bytes) (wakes : Bool)
      → count_if is_incoming_authentication_pending ps < max_pending_incoming_authentications
      → count_if (pending_from ip) ps < max_pending_incoming_authentications_per_ip
      → ListWithinLimits (ps ++ start wakes (incoming_peer ip port at) ∷ [])
  unfolding start incoming_peer
  incoming_listed ip true r n = appended-ListWithinLimits ps _ v (λ e. (r, n)) (λ e. ground arith)
  incoming_listed ip false r n = appended-ListWithinLimits ps _ v (λ e. (r, n)) (λ e. ground arith)
