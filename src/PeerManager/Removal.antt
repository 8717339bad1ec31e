-- ===== src/PeerManager/Removal.antt =====
-- The removal of peers and the messages to all of them: src/PeerManager.cpp. A peer that is removed is
-- stopped, which joins its thread, so that the end of its worker is a part of its removal.
use clipp.Prelude.{
  ℕ, ◌-◌, ◌*◌, Bool, List, not, ◌&&◌, ◌||◌, [], ◌∷◌, ◌++◌, leb, beq, map, length, list_order,
  ℕ_order, keep_if, if◌then◌else◌,
}
use clipp.Bytes.{Bytes}
use clipp.PeerManager.Admission.{on_incoming_peer_left}
use clipp.PeerManager.{
  Peer, PeerManager, Notice, removed, is_outgoing, is_incoming, OutboundMessage, clipboard_payload,
  raw_frame,
}

abbrev pub removal : Peer → Notice
removal p = removed p.host_id p.conn_type

-- The workers of peers that are removed end, and the established incoming ones say so.
unfoldable pub leave_all : List Peer → PeerManager → PeerManager
leave_all [] m = m
leave_all (p ∷ ps) m = leave_all ps (if p.incoming_established then on_incoming_peer_left m else m)

-- erase(remove_if(...)): the peers that fail the test stay, and the display hears of the others, which
-- are stopped and destroyed.
unfoldable pub remove_if : (Peer → Bool) → PeerManager → PeerManager
unfolding leave_all
remove_if gone m = record (leave_all (keep_if gone m.peers) m) {
  notices = m.notices ++ map removal (keep_if gone m.peers);
  peers = keep_if (λ p. not (gone p)) m.peers;
}

-- RemovePeer
unfoldable pub remove_peer : PeerManager → Bytes → PeerManager
remove_peer m host_id = remove_if (λ p. beq p.host_id host_id) m

-- RemoveOutgoingPeer
unfoldable pub remove_outgoing_peer : PeerManager → Bytes → PeerManager
remove_outgoing_peer m host_id = remove_if (λ p. is_outgoing p.conn_type && beq p.host_id host_id) m

abbrev pub minute : ℕ
minute = 60 * 1000

-- The test of CullPeers: stopped, or incoming and silent for a minute. A ping of after the reading
-- `now` gives a negative silence in the code and 0 here, so neither reaches a minute.
abbrev pub is_culled : ℕ → Peer → Bool
is_culled now p =
    not p.running
    || (is_incoming p.conn_type
        && (leb minute (now - p.created_at) && leb minute (now - p.last_ping_received_at)))

-- CullPeers
unfoldable pub cull_peers : PeerManager → ℕ → PeerManager
cull_peers m now = remove_if (is_culled now) m

-- ClearPeers
unfoldable pub clear_peers : PeerManager → PeerManager
unfolding leave_all
clear_peers m = record (leave_all m.peers m) {
  notices = m.notices ++ map removal m.peers;
  peers = [];
}

-- PushMessage and PushRawFrame
abbrev pub push : OutboundMessage → Peer → Peer
push message p = record p { message_queue = p.message_queue ++ message ∷ [] }

-- BroadcastClipboard
unfoldable pub broadcast_clipboard : PeerManager → Bytes → PeerManager × ℕ
broadcast_clipboard m payload =
    (record m { peers = map (push (clipboard_payload payload)) m.peers }, length m.peers)

-- BroadcastRegisterFrame: to the peers that serve registers.
unfoldable pub broadcast_register_frame : PeerManager → Bytes → Bytes → PeerManager
broadcast_register_frame m tag body = record m {
  peers =
      map (λ (p : Peer). if p.remote_serves_registers then push (raw_frame tag body) p else p)
        m.peers;
}

-- BroadcastFrame: to every peer.
unfoldable pub broadcast_frame : PeerManager → Bytes → Bytes → PeerManager
broadcast_frame m tag body = record m { peers = map (push (raw_frame tag body)) m.peers }
