-- ===== src/PeerLimits.antt =====
-- Admission limits and the throttle of their log lines: src/PeerLimits.h and
-- src/DefensiveLogThrottle.h. A steady_clock time point is a number of ticks that does not fall.
pub mod Throttle
use clipp.Prelude.{
  ℕ, ◌+◌, ◌≤◌, ◌<◌, ◌≡◌, Bool, true, false, List, [], ◌∷◌, ltb, leb, length, if◌then◌else◌, arith,
}
use clipp.Bytes.{Bytes}

abbrev pub max_pending_incoming_authentications : ℕ
max_pending_incoming_authentications = 32

abbrev pub max_pending_incoming_authentications_per_ip : ℕ
max_pending_incoming_authentications_per_ip = 8

abbrev pub max_authenticated_incoming_peers : ℕ
max_authenticated_incoming_peers = 127

abbrev pub max_outgoing_peers : ℕ
max_outgoing_peers = 127

pub data PendingAuthenticationAdmission : Type 0 where
  accepted rejected_global_limit rejected_per_ip_limit : PendingAuthenticationAdmission

unfoldable pub evaluate_pending_authentication : ℕ → ℕ → PendingAuthenticationAdmission
evaluate_pending_authentication pending_global pending_for_ip =
    if leb max_pending_incoming_authentications pending_global
    then rejected_global_limit
    else if leb max_pending_incoming_authentications_per_ip pending_for_ip
    then rejected_per_ip_limit
    else accepted

unfoldable pub can_establish_incoming : ℕ → Bool
can_establish_incoming established_incoming =
    ltb established_incoming max_authenticated_incoming_peers

unfoldable pub can_add_outgoing : ℕ → Bool
can_add_outgoing outgoing_peers = ltb outgoing_peers max_outgoing_peers
