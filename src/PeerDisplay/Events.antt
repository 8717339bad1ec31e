-- ===== src/PeerDisplay/Events.antt =====
-- Sequences of the operations of src/PeerDisplay.h.
use clipp.Prelude.{ℕ, Option, List, [], ◌∷◌}
use clipp.Bytes.{Bytes}
use clipp.PopupText.{WString}
use clipp.PeerManager.{ConnType}
use clipp.PeerDisplay.{
  PeerConnState, PeerDisplay, notify_peer, notify_peer_conn_state, notify_peer_bytes,
  notify_peer_removed, query_and_register_display, unregister_display,
}

-- What the peers' workers and the windows call.
pub data DisplayEvent : Type 0 where
  joins : WString → Bytes → ℕ → ConnType → ℕ → DisplayEvent
  leaves : Bytes → ConnType → DisplayEvent
  changes_state : WString → Bytes → PeerConnState → DisplayEvent
  counts_bytes : Bytes → ℕ → ℕ → DisplayEvent
  watches : Option ℕ → ℕ → DisplayEvent
  unwatches : ℕ → DisplayEvent

unfoldable pub show_event : PeerDisplay → DisplayEvent → PeerDisplay
show_event d (joins name host os conn since) = notify_peer name host os conn since d
show_event d (leaves host conn) = notify_peer_removed host conn d
show_event d (changes_state name host state) = notify_peer_conn_state name host state d
show_event d (counts_bytes host sent received) = notify_peer_bytes host sent received d
show_event d (watches watcher user_data) = (query_and_register_display d watcher user_data).0
show_event d (unwatches id) = unregister_display d id

unfoldable pub show_events : PeerDisplay → List DisplayEvent → PeerDisplay
show_events d [] = d
show_events d (e ∷ es) = show_events (show_event d e) es
