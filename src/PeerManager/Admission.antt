-- ===== src/PeerManager/Admission.antt =====
-- The admission of peers: AddPeer, AddIncomingPeer, TryEstablishIncomingPeer and OnIncomingPeerLeft of
-- src/PeerManager.cpp.
use clipp.Prelude.{
  ℕ, ◌+◌, ◌-◌, Bool, not, ◌&&◌, [], ◌∷◌, ◌++◌, ltb, ◌==◌, beq, is_empty, list_order, ℕ_order,
  count_if, any_of, if◌then◌else◌,
}
use clipp.Bytes.{Bytes}
use clipp.PeerLimits.{
  accepted, rejected_global_limit, rejected_per_ip_limit, evaluate_pending_authentication,
  can_establish_incoming, can_add_outgoing,
}
use clipp.PeerLimits.Throttle.{record_rejection}
use clipp.PeerManager.{
  Peer, PeerManager, outgoing, shown, is_outgoing, is_incoming_authentication_pending,
  outgoing_peer, incoming_peer, start,
}

pub data OutgoingPeerAdmission : Type 0 where
  outgoing_accepted already_present outgoing_rejected_peer_limit : OutgoingPeerAdmission

pub data IncomingPeerAdmission : Type 0 where
  incoming_accepted rejected_missing_address : IncomingPeerAdmission
  rejected_global_auth_limit rejected_per_ip_auth_limit : IncomingPeerAdmission

pub data IncomingPeerEstablishment : Type 0 where
  established established_first rejected_peer_limit : IncomingPeerEstablishment

abbrev pub outgoing_to : Bytes → Peer → Bool
outgoing_to host_id p = beq p.host_id host_id && is_outgoing p.conn_type

abbrev pub outgoes : Peer → Bool
outgoes p = is_outgoing p.conn_type

abbrev pub pending_from : Bytes → Peer → Bool
pending_from ip p = is_incoming_authentication_pending p && beq p.ip ip

-- AddPeer; the throttle, if it is asked, reads the clock at `at_log`, and the new peer at `at_create`.
unfoldable pub add_peer :
    PeerManager → Bytes → Bytes → Bytes → ℕ → ℕ → ℕ → Bool → PeerManager × OutgoingPeerAdmission
add_peer m host_name host_id ip port at_log at_create wakes =
    if any_of (outgoing_to host_id) m.peers
    then (m, already_present)
    else if not (can_add_outgoing (count_if outgoes m.peers))
    then (
      record m { outgoing_peer_log = (record_rejection m.outgoing_peer_log at_log).0 },
      outgoing_rejected_peer_limit,
    )
    else (
      record m {
        notices = m.notices ++ shown host_name host_id outgoing at_create ∷ [];
        peers = m.peers ++ start wakes (outgoing_peer host_name host_id ip port at_create) ∷ [];
      },
      outgoing_accepted,
    )

-- AddIncomingPeer, for the address of the socket's peer, which is empty where it is not known.
unfoldable pub add_incoming_peer :
    PeerManager → Bytes → ℕ → ℕ → ℕ → Bool → PeerManager × IncomingPeerAdmission
add_incoming_peer m ip port at_log at_create wakes =
    if is_empty ip
    then (m, rejected_missing_address)
    else elim (evaluate_pending_authentication (count_if is_incoming_authentication_pending m.peers)
        (count_if (pending_from ip) m.peers)) [
          | rejected_global_limit ↦ (
            record m {
              global_pending_auth_log = (record_rejection m.global_pending_auth_log at_log).0;
            },
            rejected_global_auth_limit,
          )
          | rejected_per_ip_limit ↦ (
            record m {
              per_ip_pending_auth_log = (record_rejection m.per_ip_pending_auth_log at_log).0;
            },
            rejected_per_ip_auth_limit,
          )
          | accepted ↦ (
            record m { peers = m.peers ++ start wakes (incoming_peer ip port at_create) ∷ [] },
            incoming_accepted,
          )
        ]

-- TryEstablishIncomingPeer
unfoldable pub try_establish_incoming_peer :
    PeerManager → ℕ → PeerManager × IncomingPeerEstablishment
try_establish_incoming_peer m at_log =
    if not (can_establish_incoming m.established_incoming_count)
    then (
      record m {
        established_incoming_log = (record_rejection m.established_incoming_log at_log).0;
      },
      rejected_peer_limit,
    )
    else (
      record m { established_incoming_count = m.established_incoming_count + 1 },
      if m.established_incoming_count == 0 then established_first else established,
    )

-- OnIncomingPeerLeft
unfoldable pub on_incoming_peer_left : PeerManager → PeerManager
on_incoming_peer_left m =
    if ltb 0 m.established_incoming_count
    then record m { established_incoming_count = m.established_incoming_count - 1 }
    else m
