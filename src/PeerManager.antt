-- ===== src/PeerManager.antt =====
-- The peers of a device: src/PeerManager.h, src/PeerManager.cpp, and of src/Peer.h and src/Peer.cpp
-- what the manager reads and changes of a peer. A time point of the steady clock is a number of
-- milliseconds. What is shown to the user is the list `notices`; log lines are left out, but not the
-- throttles that decide on them. The mutex of the list makes an operation one step.
pub mod Admission
pub mod Removal
pub mod Events
pub mod Counts
pub mod Bounds
pub mod Discovery
use clipp.Prelude.{ℕ, Bool, true, false, ◌&&◌, List, [], ◌∷◌, ◌==◌}
use clipp.Bytes.{Bytes}
use clipp.PeerLimits.Throttle.{DefensiveLogThrottle, new_throttle}

pub data ConnType : Type 0 where
  incoming outgoing : ConnType

-- std::variant<std::shared_ptr<const ClipboardPayload>, OutboundRawFrame>
pub data OutboundMessage : Type 0 where
  clipboard_payload : Bytes → OutboundMessage
  raw_frame : Bytes → Bytes → OutboundMessage

-- `incoming_established` is the local variable of the worker ThreadProcRecv: the manager has counted the
-- peer, and has not been told that it left.
pub record Peer : Type 0 where
  pub conn_type : ConnType
  pub host_name : Bytes
  pub host_id : Bytes
  pub ip : Bytes
  pub port : ℕ
  pub created_at : ℕ
  pub last_ping_received_at : ℕ
  pub running : Bool
  pub incoming_authentication_pending : Bool
  pub incoming_established : Bool
  pub remote_serves_registers : Bool
  pub message_queue : List OutboundMessage

abbrev pub is_outgoing : ConnType → Bool
is_outgoing outgoing = true
is_outgoing incoming = false

abbrev pub is_incoming : ConnType → Bool
is_incoming incoming = true
is_incoming outgoing = false

-- HostId's default: sixteen zero bytes.
abbrev pub no_host_id : Bytes
no_host_id = 0 ∷ 0 ∷ 0 ∷ 0 ∷ 0 ∷ 0 ∷ 0 ∷ 0 ∷ 0 ∷ 0 ∷ 0 ∷ 0 ∷ 0 ∷ 0 ∷ 0 ∷ 0 ∷ []

-- The two constructors of Peer.
unfoldable pub outgoing_peer : Bytes → Bytes → Bytes → ℕ → ℕ → Peer
outgoing_peer host_name host_id ip port now = record {
  conn_type = outgoing;
  host_name = host_name;
  host_id = host_id;
  ip = ip;
  port = port;
  created_at = now;
  last_ping_received_at = now;
  running = false;
  incoming_authentication_pending = false;
  incoming_established = false;
  remote_serves_registers = false;
  message_queue = [];
}

unfoldable pub incoming_peer : Bytes → ℕ → ℕ → Peer
incoming_peer ip port now = record {
  conn_type = incoming;
  host_name = [];
  host_id = no_host_id;
  ip = ip;
  port = port;
  created_at = now;
  last_ping_received_at = now;
  running = false;
  incoming_authentication_pending = true;
  incoming_established = false;
  remote_serves_registers = false;
  message_queue = [];
}

-- Start; `wakes` is whether the wake socket could be created.
unfoldable pub start : Bool → Peer → Peer
start true p = record p { running = true }
start false p = record p { incoming_authentication_pending = false; running = false }

abbrev pub is_incoming_authentication_pending : Peer → Bool
is_incoming_authentication_pending p = is_incoming p.conn_type && p.incoming_authentication_pending

-- Calls of g_peerDisplay.
pub data Notice : Type 0 where
  shown : Bytes → Bytes → ConnType → ℕ → Notice
  removed : Bytes → ConnType → Notice

pub record PeerManager : Type 0 where
  pub peers : List Peer
  pub established_incoming_count : ℕ
  pub global_pending_auth_log : DefensiveLogThrottle
  pub per_ip_pending_auth_log : DefensiveLogThrottle
  pub established_incoming_log : DefensiveLogThrottle
  pub outgoing_peer_log : DefensiveLogThrottle
  pub notices : List Notice

-- The default report interval of a throttle is a minute.
abbrev pub report_interval : ℕ
report_interval = 60000

unfoldable pub new_manager : PeerManager
new_manager = record {
  peers = [];
  established_incoming_count = 0;
  global_pending_auth_log = new_throttle report_interval;
  per_ip_pending_auth_log = new_throttle report_interval;
  established_incoming_log = new_throttle report_interval;
  outgoing_peer_log = new_throttle report_interval;
  notices = [];
}
