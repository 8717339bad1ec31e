-- ===== src/PeerManager/Bounds/Kept.antt =====
-- The limits over the operations and worker steps of src/PeerManager.cpp and src/Peer.cpp.
use clipp.Prelude.{
  ℕ, ◌+◌, ◌<◌, ◌≡◌, ◌==◌, ltb, sym, subst, some, ◌++◌, Bool-cases, Option-cases, inl, inr, refl,
  Bool, true, false, List, [], ◌∷◌, map, count_if, list_order, ℕ_order, if◌then◌else◌, arith,
}
use clipp.Bytes.{Bytes}
use clipp.PeerLimits.{max_authenticated_incoming_peers, can_establish_incoming}
use clipp.PeerManager.{shown, incoming, OutboundMessage, Peer, PeerManager, new_manager}
use clipp.PeerManager.Admission.{
  established, established_first, try_establish_incoming_peer, on_incoming_peer_left,
}
use clipp.PeerManager.Removal.{
  push, remove_peer, remove_outgoing_peer, cull_peers, broadcast_clipboard,
  broadcast_register_frame, broadcast_frame,
}
use clipp.PeerManager.Events.{
  change, change_at, peer_at, in_handshake, exited, settle, ManagerEvent, manage, manage_all,
  authenticated, stopped, verified, handshake, exit_worker, adds, adds_incoming, removes,
  removes_outgoing, broadcasts, broadcasts_register, broadcasts_frame, culls, clears, handshakes,
  connects, pings, exits,
}
use clipp.PeerManager.Bounds.{
  WithinLimits, is_established, Tame, map-ListWithinLimits, change_at-ListWithinLimits, unnoticed,
}
use clipp.PeerManager.Counts.{count_if-map_unnoticed, count_if-changed, peer_at-change_at}
use clipp.PeerManager.Bounds.Steps.{
  add_peer-WithinLimits, add_incoming_peer-WithinLimits, remove_if-WithinLimits, same_count,
  clear_peers-WithinLimits, change-WithinLimits,
}

stopped-Tame : Tame stopped
stopped-Tame = unnoticed stopped (λ p. refl) (λ p. refl) (λ p e. refl) (λ p e. ground arith)

authenticated-Tame : Tame authenticated
authenticated-Tame =
    unnoticed authenticated (λ p. refl) (λ p. refl) (λ p e. refl) (λ p e. ground arith)

push-Tame : (message : OutboundMessage) → Tame (push message)
push-Tame message = unnoticed (push message) (λ p. refl) (λ p. refl) (λ p e. refl) (λ p e. e)

serve-Tame :
    (message : OutboundMessage)
    → Tame (λ p. if p.remote_serves_registers then push message p else p)
serve-Tame message =
    unnoticed _ (λ p. ground arith) (λ p. ground arith) (λ p e. ground arith) (λ p e. ground arith)

verified-Tame : (id name : Bytes) (serves : Bool) → Tame (verified id name serves)
verified-Tame id name serves =
    unnoticed (verified id name serves) (λ p. ground arith) (λ p. ground arith)
      (λ p e. ground arith) (λ p e. ground arith)

mapped-WithinLimits :
    (f : Peer → Peer)
    → Tame f
    → ((p : Peer) → is_established (f p) ≡ is_established p)
    → (m : PeerManager) → WithinLimits m
    → WithinLimits (record m { peers = map f m.peers })
mapped-WithinLimits f t h m v =
    same_count m _ v (map-ListWithinLimits f m.peers t v.listed) refl
      (count_if-map_unnoticed is_established f h m.peers)

verified-established :
    (id name : Bytes) (serves : Bool) (p : Peer)
    → in_handshake p ≡ true
    → (is_established (verified id name serves (authenticated p)) ≡ true)
      × (is_established p ≡ false)
verified-established id name serves p h = (ground (arith, h), ground (arith, h))

module _ (i : ℕ) (id name : Bytes) (serves : Bool) (at : ℕ) where
  settle-accepted :
      (b : Bool) (m : PeerManager)
      → settle i id name serves at (m, if b then established_first else established)
        ≡ record (change m i (verified id name serves)) {
          notices = m.notices ++ shown name id incoming at ∷ [];
        }
  unfolding settle
  settle-accepted true m = refl
  settle-accepted false m = refl

  -- The manager counts the peer whose worker has come out of its handshake.
  accepted-WithinLimits :
      (m : PeerManager) (p : Peer)
      → WithinLimits m
      → peer_at i m.peers ≡ some (authenticated p)
      → in_handshake p ≡ true
      → m.established_incoming_count < 127
      → WithinLimits
          (record (change
            (record m { established_incoming_count = m.established_incoming_count + 1 })
            i
            (verified id name serves)) { notices = m.notices ++ shown name id incoming at ∷ [] })
  accepted-WithinLimits m p v e h room =
      let (now_so, not_before) = verified-established id name serves p h in
      let moved =
        count_if-changed is_established (verified id name serves) i m.peers (authenticated p) e in
      let one_more : count_if is_established (change_at i (verified id name serves) m.peers)
          ≡ count_if is_established m.peers + 1 =
        ground (arith, moved, now_so, not_before) in
      record {
        listed =
            change_at-ListWithinLimits (verified id name serves) i m.peers
              (verified-Tame id name serves) v.listed;
        counted = omega (arith, one_more, v.counted);
        established_peers = omega (arith, one_more, v.counted, room);
      }

  settle-WithinLimits :
      (m : PeerManager) (p : Peer) (at_log : ℕ)
      → WithinLimits m
      → peer_at i m.peers ≡ some (authenticated p)
      → in_handshake p ≡ true
      → WithinLimits (settle i id name serves at (try_establish_incoming_peer m at_log))
  unfolding try_establish_incoming_peer can_establish_incoming
  settle-WithinLimits m p at_log v e h =
      elim (Bool-cases (ltb m.established_incoming_count max_authenticated_incoming_peers)) [
        | inl room ↦ rw room (
            subst WithinLimits (sym (settle-accepted (m.established_incoming_count == 0) _))
              (accepted-WithinLimits m p v e h (ground (arith, room))))
        | inr full ↦ rw full (
            unfold settle in
            change-WithinLimits stopped stopped-Tame (λ p. refl) _ i
              (same_count m _ v v.listed refl refl))
      ]

handshake-WithinLimits :
    (m : PeerManager) (i : ℕ) (id name : Bytes) (serves : Bool) (at at_log : ℕ)
    → WithinLimits m
    → WithinLimits (handshake m i id name serves at at_log)
unfolding handshake
handshake-WithinLimits m i id name serves at at_log v = elim (Option-cases (peer_at i m.peers)) [
  | inl nobody ↦ rw (handshake, nobody) v
  | inr (p, there) ↦ elim (Bool-cases (in_handshake p)) [
    | inl during ↦
        rw (handshake, there, during)
          (settle-WithinLimits i id name serves at (change m i authenticated) p at_log
            (change-WithinLimits authenticated authenticated-Tame (λ p. refl) m i v)
            (peer_at-change_at authenticated i m.peers p there) during)
    | inr not_during ↦ rw (handshake, there, not_during) v
  ]
]

exited-Tame : Tame exited
exited-Tame = unnoticed exited (λ p. refl) (λ p. refl) (λ p e. refl) (λ p e. ground arith)

exit_worker-WithinLimits :
    (m : PeerManager) (i : ℕ) → WithinLimits m → WithinLimits (exit_worker m i)
unfolding exit_worker on_incoming_peer_left
exit_worker-WithinLimits m i v = elim (Option-cases (peer_at i m.peers)) [
  | inl nobody ↦ rw (exit_worker, nobody) v
  | inr (p, there) ↦
      let moved = count_if-changed is_established exited i m.peers p there in
      let listed' = change_at-ListWithinLimits exited i m.peers exited-Tame v.listed in
      elim (Bool-cases p.incoming_established) [
        | inl was ↦
            let one_less : count_if is_established (change_at i exited m.peers) + 1
                ≡ count_if is_established m.peers =
              ground (arith, moved, was) in
            let some_left : ltb 0 m.established_incoming_count ≡ true =
              ground (arith, one_less, v.counted) in
            rw (exit_worker, there, was, some_left)
              (record {
                listed = listed';
                counted = omega (arith, one_less, v.counted);
                established_peers = omega (arith, one_less, v.established_peers);
              })
        | inr was_not ↦
            let same : count_if is_established (change_at i exited m.peers)
                ≡ count_if is_established m.peers =
              ground (arith, moved, was_not) in
            rw (exit_worker, there, was_not) (same_count m _ v listed' refl same)
      ]
]

manage-WithinLimits :
    (m : PeerManager) (e : ManagerEvent) → WithinLimits m → WithinLimits (manage m e)
unfolding manage remove_peer remove_outgoing_peer cull_peers broadcast_clipboard
    broadcast_register_frame broadcast_frame
manage-WithinLimits m (adds name id ip port a b wakes) v =
    add_peer-WithinLimits m name id ip port a b wakes v
manage-WithinLimits m (adds_incoming ip port a b wakes) v =
    add_incoming_peer-WithinLimits m ip port a b wakes v
manage-WithinLimits m (removes id) v = remove_if-WithinLimits _ m v
manage-WithinLimits m (removes_outgoing id) v = remove_if-WithinLimits _ m v
manage-WithinLimits m (broadcasts payload) v = mapped-WithinLimits _ (push-Tame _) (λ p. refl) m v
manage-WithinLimits m (broadcasts_register tag body) v =
    mapped-WithinLimits _ (serve-Tame _) (λ p. ground arith) m v
manage-WithinLimits m (broadcasts_frame tag body) v =
    mapped-WithinLimits _ (push-Tame _) (λ p. refl) m v
manage-WithinLimits m (culls now) v = remove_if-WithinLimits _ m v
manage-WithinLimits m clears v = clear_peers-WithinLimits m v
manage-WithinLimits m (handshakes i id name serves at l) v =
    handshake-WithinLimits m i id name serves at l v
manage-WithinLimits m (connects i name serves) v =
    change-WithinLimits _ (unnoticed _ (λ p. refl) (λ p. refl) (λ p e. refl) (λ p e. e)) (λ p. refl)
      m i v
manage-WithinLimits m (pings i now) v =
    change-WithinLimits _ (unnoticed _ (λ p. refl) (λ p. refl) (λ p e. refl) (λ p e. e)) (λ p. refl)
      m i v
manage-WithinLimits m (exits i) v = exit_worker-WithinLimits m i v

pub new_manager-WithinLimits : WithinLimits new_manager
unfolding new_manager count_if
new_manager-WithinLimits = record {
  listed = record {
    pending = omega arith;
    pending_per_ip = λ ip. omega arith;
    outgoing_peers = omega arith;
    distinct = λ id. omega arith;
  };
  counted = refl;
  established_peers = omega arith;
}

-- From a manager within the limits every sequence of operations and worker steps leads to one within
-- the limits: at most 32 incoming peers pending authentication, 8 from one address, at most 127
-- outgoing peers, one for each host id, and at most 127 established incoming peers, whose number is
-- what the counter says.
pub manage_all-WithinLimits :
    (m : PeerManager) (es : List ManagerEvent) → WithinLimits m → WithinLimits (manage_all m es)
unfolding manage_all
manage_all-WithinLimits m [] v = v
manage_all-WithinLimits m (e ∷ es) v =
    manage_all-WithinLimits (manage m e) es (manage-WithinLimits m e v)
