-- ===== src/Examples/Displays.antt =====
-- Runs of the table of src/PeerDisplay.cpp.
use clipp.Prelude.{
  ◌≡◌, refl, true, some, List, [], ◌∷◌, count_if, any_of, list_beq, list_less, keep_if,
}
use clipp.PeerManager.{incoming, outgoing}
use clipp.PeerDisplay.{
  new_display, connected, connected_count, has_connectivity_issue, PeerDisplay, find_entry_of,
  tell_entry, call_watchers, calls_to, insert_entry, sort_entries, change_entry, erase_entry,
  unregister_display, found_or_new, join_entry, notify_peer, notify_peer_conn_state,
  notify_peer_removed, notify_peer_bytes, leave_entry, query_and_register_display,
}
use clipp.PeerDisplay.Events.{
  DisplayEvent, joins, leaves, changes_state, counts_bytes, watches, unwatches, show_event,
  show_events,
}
use clipp.PeerDisplay.Consistent.{Shown, show_events-Shown}

abbrev two_peers : List DisplayEvent
two_peers =
    watches (some 5) 0
    ∷ changes_state (66 ∷ []) (2 ∷ []) connected
    ∷ joins (65 ∷ []) (1 ∷ []) 3 incoming 40
    ∷ joins [] (2 ∷ []) 0 outgoing 50
    ∷ counts_bytes (1 ∷ []) 7 9
    ∷ leaves (2 ∷ []) outgoing
    ∷ unwatches 1
    ∷ []

shown_count : connected_count (show_events new_display two_peers) ≡ 1
unfolding connected_count has_connectivity_issue new_display show_events show_event
    unregister_display notify_peer_removed leave_entry find_entry_of notify_peer_bytes tell_entry
    call_watchers calls_to change_entry erase_entry insert_entry notify_peer sort_entries
    found_or_new join_entry notify_peer_conn_state query_and_register_display count_if any_of
    list_beq list_less keep_if
shown_count = refl

-- The host that only connects to us has an issue to show.
shown_issue :
    any_of has_connectivity_issue (PeerDisplay.entries (show_events new_display two_peers)) ≡ true
unfolding connected_count has_connectivity_issue new_display show_events show_event
    unregister_display notify_peer_removed leave_entry find_entry_of notify_peer_bytes tell_entry
    call_watchers calls_to change_entry erase_entry insert_entry notify_peer sort_entries
    found_or_new join_entry notify_peer_conn_state query_and_register_display count_if any_of
    list_beq list_less keep_if
shown_issue = refl

show_events-Shown_example : Shown (show_events new_display two_peers)
unfolding new_display
show_events-Shown_example = show_events-Shown new_display two_peers (tt, tt)
