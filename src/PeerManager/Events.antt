-- ===== src/PeerManager/Events.antt =====
-- What happens to the manager: its operations, and the steps of the peers' worker threads that it can
-- see (src/Peer.cpp), each of which names a peer by its position in the list.
use clipp.Prelude.{
  ℕ, zero, suc, Bool, true, false, not, ◌&&◌, Option, none, some, List, [], ◌∷◌, ◌++◌,
  if◌then◌else◌,
}
use clipp.Bytes.{Bytes}
use clipp.PeerManager.{
  Peer, PeerManager, shown, is_incoming, incoming, is_incoming_authentication_pending,
}
use clipp.PeerManager.Admission.{
  add_peer, add_incoming_peer, try_establish_incoming_peer, on_incoming_peer_left,
  IncomingPeerEstablishment, rejected_peer_limit,
}
use clipp.PeerManager.Removal.{
  remove_peer, remove_outgoing_peer, cull_peers, clear_peers, broadcast_clipboard,
  broadcast_register_frame, broadcast_frame,
}

unfoldable pub change_at : ℕ → (Peer → Peer) → List Peer → List Peer
change_at i f [] = []
change_at zero f (p ∷ ps) = f p ∷ ps
change_at (suc i) f (p ∷ ps) = p ∷ change_at i f ps

unfoldable pub peer_at : ℕ → List Peer → Option Peer
peer_at i [] = none
peer_at zero (p ∷ ps) = some p
peer_at (suc i) (p ∷ ps) = peer_at i ps

abbrev pub change : PeerManager → ℕ → (Peer → Peer) → PeerManager
change m i f = record m { peers = change_at i f m.peers }

abbrev pub authenticated : Peer → Peer
authenticated p = record p { incoming_authentication_pending = false }

abbrev pub stopped : Peer → Peer
stopped p = record p { incoming_authentication_pending = false; running = false }

-- Only the worker of an incoming peer learns the peer's identity; the manager has counted it.
abbrev pub verified : Bytes → Bytes → Bool → Peer → Peer
verified host_id host_name serves p =
    if is_incoming p.conn_type
    then record p {
      host_id = host_id;
      host_name = host_name;
      incoming_established = true;
      remote_serves_registers = serves;
    }
    else p

-- The end of a handshake in ThreadProcRecv; `created_at` is for the display.
unfoldable pub settle :
    ℕ → Bytes → Bytes → Bool → ℕ → PeerManager × IncomingPeerEstablishment → PeerManager
settle i host_id host_name serves created_at (m, rejected_peer_limit) = change m i stopped
settle i host_id host_name serves created_at (m, result) =
    record (change m i (verified host_id host_name serves)) {
      notices = m.notices ++ shown host_name host_id incoming created_at ∷ [];
    }

-- The worker of an incoming peer is in the handshake until then.
abbrev pub in_handshake : Peer → Bool
in_handshake p = is_incoming_authentication_pending p && not p.incoming_established

unfoldable pub handshake : PeerManager → ℕ → Bytes → Bytes → Bool → ℕ → ℕ → PeerManager
unfolding settle
handshake m i host_id host_name serves created_at at_log = elim (peer_at i m.peers) [
  | none ↦ m
  | some p ↦
      if in_handshake p
      then settle i host_id host_name serves created_at
          (try_establish_incoming_peer (change m i authenticated) at_log)
      else m
]

-- An outgoing connection is made: the peer's name may have changed, its identity may not.
abbrev pub connected : Bytes → Bool → Peer → Peer
connected host_name serves p = record p { host_name = host_name; remote_serves_registers = serves }

abbrev pub pinged : ℕ → Peer → Peer
pinged now p = record p { last_ping_received_at = now }

-- The end of a worker; an incoming peer that was established leaves.
abbrev pub exited : Peer → Peer
exited p = record (stopped p) { incoming_established = false }

unfoldable pub exit_worker : PeerManager → ℕ → PeerManager
exit_worker m i = elim (peer_at i m.peers) [
  | none ↦ m
  | some p ↦ change (if p.incoming_established then on_incoming_peer_left m else m) i exited
]

pub data ManagerEvent : Type 0 where
  adds : Bytes → Bytes → Bytes → ℕ → ℕ → ℕ → Bool → ManagerEvent
  adds_incoming : Bytes → ℕ → ℕ → ℕ → Bool → ManagerEvent
  removes removes_outgoing broadcasts : Bytes → ManagerEvent
  broadcasts_register broadcasts_frame : Bytes → Bytes → ManagerEvent
  culls : ℕ → ManagerEvent
  clears : ManagerEvent
  handshakes : ℕ → Bytes → Bytes → Bool → ℕ → ℕ → ManagerEvent
  connects : ℕ → Bytes → Bool → ManagerEvent
  pings : ℕ → ℕ → ManagerEvent
  exits : ℕ → ManagerEvent

unfoldable pub manage : PeerManager → ManagerEvent → PeerManager
manage m (adds name id ip port at_log at_create wakes) =
    (add_peer m name id ip port at_log at_create wakes).0
manage m (adds_incoming ip port at_log at_create wakes) =
    (add_incoming_peer m ip port at_log at_create wakes).0
manage m (removes id) = remove_peer m id
manage m (removes_outgoing id) = remove_outgoing_peer m id
manage m (broadcasts payload) = (broadcast_clipboard m payload).0
manage m (broadcasts_register tag body) = broadcast_register_frame m tag body
manage m (broadcasts_frame tag body) = broadcast_frame m tag body
manage m (culls now) = cull_peers m now
manage m clears = clear_peers m
manage m (handshakes i id name serves at at_log) = handshake m i id name serves at at_log
manage m (connects i name serves) = change m i (connected name serves)
manage m (pings i now) = change m i (pinged now)
manage m (exits i) = exit_worker m i

unfoldable pub manage_all : PeerManager → List ManagerEvent → PeerManager
manage_all m [] = m
manage_all m (e ∷ es) = manage_all (manage m e) es
