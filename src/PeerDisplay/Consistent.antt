-- ===== src/PeerDisplay/Consistent.antt =====
-- The invariant of the table of src/PeerDisplay.cpp, over any sequence of its events.
use clipp.Prelude.{
  ℕ, refl, sym, subst, ◌||◌, none, some, List, [], ◌∷◌, ltb, list_order, ℕ_order, Bool-cases, inl,
  inr,
}
use clipp.Bytes.{Bytes}
use clipp.PopupText.{WString}
use clipp.PeerManager.{ConnType, incoming, outgoing}
use clipp.PeerDisplay.{
  PeerConnState, PeerDisplayItem, PeerDisplay, PeerDisplayUpdate, updated, find_entry_of,
  call_watchers, blank_item, with_flags, one_less, join_entry, renamed, tell_entry, notify_peer,
  notify_peer_conn_state, notify_peer_bytes, leave_entry, notify_peer_removed,
  query_and_register_display, unregister_display,
}
use clipp.PeerDisplay.Events.{
  DisplayEvent, joins, leaves, changes_state, counts_bytes, watches, unwatches, show_event,
  show_events,
}
use clipp.PeerDisplay.Sorted.{
  FlagsOk, EntriesOk, Keeps, change_entry-EntriesOk, erase_entry-EntriesOk, sort_entries-IsSorted,
  found_or_new-EntriesOk, change_to-EntriesOk,
}

join_entry-Keeps : (os : ℕ) (conn : ConnType) (since : ℕ) → Keeps (join_entry os conn since)
unfolding join_entry
join_entry-Keeps os incoming since = record { same_host = λ i. refl; flags = λ i b. (refl, refl) }
join_entry-Keeps os outgoing since = record { same_host = λ i. refl; flags = λ i b. (refl, refl) }

abbrev pub Shown : PeerDisplay → Type 0
Shown d = EntriesOk d.entries

call_watchers-Shown :
    (u : PeerDisplayUpdate) (d : PeerDisplay) → Shown d → Shown (call_watchers u d)
unfolding call_watchers
call_watchers-Shown u d v = v

tell_entry-Shown : (host : Bytes) (d : PeerDisplay) → Shown d → Shown (tell_entry host d)
unfolding tell_entry call_watchers
tell_entry-Shown host d v =
    elim (find_entry_of host d.entries)
      as (λ o.
        EntriesOk
          (PeerDisplay.entries (elim o [ none ↦ d | some i ↦ call_watchers (updated i) d ]))) [
            | none ↦ v
            | some i ↦ v
          ]

notify_peer-Shown :
    (name : WString) (host : Bytes) (os : ℕ) (conn : ConnType) (since : ℕ) (d : PeerDisplay)
    → Shown d
    → Shown (notify_peer name host os conn since d)
unfolding notify_peer
notify_peer-Shown name host os conn since d v =
    let named =
      found_or_new-EntriesOk (renamed name) (record { same_host = λ i. refl; flags = λ i b. b })
        (blank_item name host) d.entries (refl, refl) v in
    let joined =
      change_entry-EntriesOk (join_entry os conn since) (join_entry-Keeps os conn since) host _
        named in
    tell_entry-Shown host _ (subst EntriesOk (sym (sort_entries-IsSorted _ joined.0)) joined)

notify_peer_conn_state-Shown :
    (name : WString) (host : Bytes) (state : PeerConnState) (d : PeerDisplay)
    → Shown d
    → Shown (notify_peer_conn_state name host state d)
unfolding notify_peer_conn_state
notify_peer_conn_state-Shown name host state d v =
    tell_entry-Shown host (record d { entries = _ })
      (found_or_new-EntriesOk _ (record { same_host = λ i. refl; flags = λ i b. b })
        (record (blank_item name host) { outgoing_conn_state = state }) d.entries (refl, refl) v)

notify_peer_bytes-Shown :
    (host : Bytes) (sent received : ℕ) (d : PeerDisplay)
    → Shown d
    → Shown (notify_peer_bytes host sent received d)
unfolding notify_peer_bytes
notify_peer_bytes-Shown host sent received d v =
    tell_entry-Shown host _ (
      change_entry-EntriesOk _ (record { same_host = λ i. refl; flags = λ i b. b }) host d.entries
        v)

leave_entry-Shown :
    (d : PeerDisplay) (i : PeerDisplayItem) → FlagsOk i → Shown d → Shown (leave_entry d i)
unfolding leave_entry call_watchers
leave_entry-Shown d i b v =
    elim (Bool-cases (ltb 0 i.incoming_connection_count || ltb 0 i.outgoing_connection_count)) [
      | inl more ↦ rw more (change_to-EntriesOk i d.entries b v)
      | inr last ↦ rw last (erase_entry-EntriesOk i.host_id d.entries v)
    ]

notify_peer_removed-Shown :
    (host : Bytes) (conn : ConnType) (d : PeerDisplay)
    → Shown d
    → Shown (notify_peer_removed host conn d)
unfolding notify_peer_removed
notify_peer_removed-Shown host conn d v =
    elim (find_entry_of host d.entries)
      as (λ o.
        Shown (elim o [ none ↦ d | some i ↦ leave_entry d (with_flags (one_less conn i)) ])) [
          | none ↦ v
          | some i ↦ leave_entry-Shown d (with_flags (one_less conn i)) (refl, refl) v
        ]

show_event-Shown : (d : PeerDisplay) (e : DisplayEvent) → Shown d → Shown (show_event d e)
unfolding show_event query_and_register_display unregister_display
show_event-Shown d (joins name host os conn since) v = notify_peer-Shown name host os conn since d v
show_event-Shown d (leaves host conn) v = notify_peer_removed-Shown host conn d v
show_event-Shown d (changes_state name host state) v =
    notify_peer_conn_state-Shown name host state d v
show_event-Shown d (counts_bytes host sent received) v =
    notify_peer_bytes-Shown host sent received d v
show_event-Shown d (watches watcher user_data) v = v
show_event-Shown d (unwatches id) v = v

-- After every sequence of events, from any table that is in order, the entries stand by their host ids, no host
-- has two of them, and the bools of an entry say whether its counts of connections are above zero.
pub show_events-Shown :
    (d : PeerDisplay) (events : List DisplayEvent) → Shown d → Shown (show_events d events)
unfolding show_events
show_events-Shown d [] v = v
show_events-Shown d (e ∷ es) v = show_events-Shown (show_event d e) es (show_event-Shown d e v)
