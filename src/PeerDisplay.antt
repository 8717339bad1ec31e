-- ===== src/PeerDisplay.antt =====
-- The table of peers for the user interface: src/PeerDisplay.h and src/PeerDisplay.cpp. A time point is a
-- number, 0 for the one that a new item has, and a host id a list of bytes. The watchers' calls come behind the change, in one step.
pub mod Events
pub mod Sorted
pub mod Consistent
use clipp.Prelude.{
  ℕ, zero, suc, ◌+◌, ◌-◌, ◌%◌, Bool, true, false, not, ◌&&◌, ◌||◌, Option, none, some, List, [],
  ◌∷◌, ◌++◌, ltb, leb, ◌==◌, beq, list_less, list_order, ℕ_order, is_empty, any_of, count_if,
  keep_if, if◌then◌else◌,
}
use clipp.Bytes.{Bytes, u64_mod}
use clipp.PopupText.{WString}
use clipp.PeerManager.{ConnType, incoming, outgoing}

pub data PeerConnState : Type 0 where
  connecting connected backoff failed : PeerConnState

-- OsType::Unknown; the other systems are other numbers.
abbrev pub unknown_os : ℕ
unknown_os = 0

pub record PeerDisplayItem : Type 0 where
  pub host_name : WString
  pub host_id : Bytes
  pub os_type : ℕ
  pub has_incoming_connection : Bool
  pub has_outgoing_connection : Bool
  pub outgoing_conn_state : PeerConnState
  pub bytes_sent : ℕ
  pub bytes_received : ℕ
  pub connected_since : ℕ
  pub incoming_connection_count : ℕ
  pub outgoing_connection_count : ℕ

pub data PeerDisplayUpdate : Type 0 where
  updated removed : PeerDisplayItem → PeerDisplayUpdate

pub record DisplayWatcher : Type 0 where
  pub watcher_id : ℕ
  pub watcher : Option ℕ
  pub user_data : ℕ

pub record DisplayCall : Type 0 where
  pub watcher : ℕ
  pub user_data : ℕ
  pub update : PeerDisplayUpdate

pub record PeerDisplay : Type 0 where
  pub entries : List PeerDisplayItem
  pub watchers : List DisplayWatcher
  pub next_watcher_id : ℕ
  pub called : List DisplayCall

unfoldable pub new_display : PeerDisplay
new_display = record { entries = []; watchers = []; next_watcher_id = 1; called = [] }

abbrev pub is_connected : PeerConnState → Bool
is_connected connected = true
is_connected s = false

unfoldable pub has_connectivity_issue : PeerDisplayItem → Bool
has_connectivity_issue i =
    if not (is_connected i.outgoing_conn_state) then true else not i.has_incoming_connection

unfoldable pub connected_count : PeerDisplay → ℕ
connected_count d =
    count_if
      (λ (i : PeerDisplayItem). is_connected i.outgoing_conn_state || i.has_incoming_connection)
      d.entries

abbrev pub is_host : Bytes → PeerDisplayItem → Bool
is_host host i = beq i.host_id host

-- std::find_if, where it finds an entry.
unfoldable pub find_entry_of : Bytes → List PeerDisplayItem → Option PeerDisplayItem
find_entry_of host [] = none
find_entry_of host (e ∷ es) =
    let rest = find_entry_of host es in if is_host host e then some e else rest

-- The change of the entry that std::find_if finds, and its erasure.
unfoldable pub change_entry :
    (PeerDisplayItem → PeerDisplayItem) → Bytes → List PeerDisplayItem → List PeerDisplayItem
change_entry f host [] = []
change_entry f host (e ∷ es) =
    let rest = change_entry f host es in if is_host host e then f e ∷ es else e ∷ rest

unfoldable pub erase_entry : Bytes → List PeerDisplayItem → List PeerDisplayItem
erase_entry host [] = []
erase_entry host (e ∷ es) =
    let rest = erase_entry host es in if is_host host e then es else e ∷ rest

-- std::upper_bound and insert: in front of the first entry with a greater host id.
unfoldable pub insert_entry : PeerDisplayItem → List PeerDisplayItem → List PeerDisplayItem
insert_entry x [] = x ∷ []
insert_entry x (e ∷ es) =
    let rest = insert_entry x es in if list_less x.host_id e.host_id then x ∷ e ∷ es else e ∷ rest

-- The std::sort of NotifyPeer.
unfoldable pub sort_entries : List PeerDisplayItem → List PeerDisplayItem
sort_entries [] = []
sort_entries (e ∷ es) = insert_entry e (sort_entries es)

unfoldable pub calls_to : PeerDisplayUpdate → List DisplayWatcher → List DisplayCall
calls_to u [] = []
calls_to u (w ∷ ws) = elim w.watcher [
  | none ↦ calls_to u ws
  | some f ↦ record { watcher = f; user_data = w.user_data; update = u } ∷ calls_to u ws
]

unfoldable pub call_watchers : PeerDisplayUpdate → PeerDisplay → PeerDisplay
call_watchers u d = record d { called = d.called ++ calls_to u d.watchers }

abbrev pub blank_item : WString → Bytes → PeerDisplayItem
blank_item name host = record {
  host_name = name;
  host_id = host;
  os_type = unknown_os;
  has_incoming_connection = false;
  has_outgoing_connection = false;
  outgoing_conn_state = connecting;
  bytes_sent = 0;
  bytes_received = 0;
  connected_since = 0;
  incoming_connection_count = 0;
  outgoing_connection_count = 0;
}

-- The two bools, from the counts.
abbrev pub with_flags : PeerDisplayItem → PeerDisplayItem
with_flags i = record i {
  has_incoming_connection = ltb 0 i.incoming_connection_count;
  has_outgoing_connection = ltb 0 i.outgoing_connection_count;
}

abbrev pub one_more : ConnType → PeerDisplayItem → PeerDisplayItem
one_more incoming i = record i {
  incoming_connection_count = (i.incoming_connection_count + 1) % u64_mod;
}
one_more outgoing i = record i {
  outgoing_connection_count = (i.outgoing_connection_count + 1) % u64_mod;
}

-- `if (count > 0) --count`
abbrev pub one_less : ConnType → PeerDisplayItem → PeerDisplayItem
one_less incoming i = record i { incoming_connection_count = i.incoming_connection_count - 1 }
one_less outgoing i = record i { outgoing_connection_count = i.outgoing_connection_count - 1 }

-- What NotifyPeer does with the entry.
unfoldable pub join_entry : ℕ → ConnType → ℕ → PeerDisplayItem → PeerDisplayItem
join_entry os conn since i =
    let known = record i {
      os_type = if i.os_type == unknown_os && not (os == unknown_os) then os else i.os_type;
    } in
    let counted = with_flags (one_more conn known) in
    record counted {
      connected_since =
          if i.connected_since == 0 || ltb since i.connected_since
          then since
          else i.connected_since;
    }

abbrev pub renamed : WString → PeerDisplayItem → PeerDisplayItem
renamed name i = record i { host_name = if is_empty name then i.host_name else name }

-- The entry that there is, changed, or a new one.
unfoldable pub found_or_new :
    (PeerDisplayItem → PeerDisplayItem)
    → PeerDisplayItem
    → List PeerDisplayItem
    → List PeerDisplayItem
found_or_new f fresh es =
    if any_of (is_host fresh.host_id) es
    then change_entry f fresh.host_id es
    else insert_entry fresh es

-- The end of an operation on the entry of a host: the watchers get it.
unfoldable pub tell_entry : Bytes → PeerDisplay → PeerDisplay
unfolding call_watchers
tell_entry host d = elim (find_entry_of host d.entries) [
  | none ↦ d
  | some i ↦ call_watchers (updated i) d
]

unfoldable pub notify_peer : WString → Bytes → ℕ → ConnType → ℕ → PeerDisplay → PeerDisplay
notify_peer name host os conn since d = tell_entry host (record d {
  entries = sort_entries (
      change_entry (join_entry os conn since) host
        (found_or_new (renamed name) (blank_item name host) d.entries));
})

unfoldable pub notify_peer_conn_state : WString → Bytes → PeerConnState → PeerDisplay → PeerDisplay
notify_peer_conn_state name host state d = tell_entry host (record d {
  entries =
      found_or_new
        (λ i. record i {
          host_name = if not (is_empty name) && is_empty i.host_name then name else i.host_name;
          outgoing_conn_state = state;
        })
        (record (blank_item name host) { outgoing_conn_state = state }) d.entries;
})

unfoldable pub notify_peer_bytes : Bytes → ℕ → ℕ → PeerDisplay → PeerDisplay
notify_peer_bytes host sent received d = tell_entry host (record d {
  entries =
      change_entry
        (λ i. record i {
          bytes_sent = (i.bytes_sent + sent) % u64_mod;
          bytes_received = (i.bytes_received + received) % u64_mod;
        })
        host d.entries;
})

-- The item that a removal is told with.
abbrev pub without_connections : PeerDisplayItem → PeerDisplayItem
without_connections i = record i {
  has_incoming_connection = false;
  has_outgoing_connection = false;
  connected_since = 0;
}

unfoldable pub leave_entry : PeerDisplay → PeerDisplayItem → PeerDisplay
leave_entry d i =
    if ltb 0 i.incoming_connection_count || ltb 0 i.outgoing_connection_count
    then call_watchers (updated i)
        (record d { entries = change_entry (λ e. i) i.host_id d.entries })
    else call_watchers (removed (without_connections i))
        (record d { entries = erase_entry i.host_id d.entries })

unfoldable pub notify_peer_removed : Bytes → ConnType → PeerDisplay → PeerDisplay
unfolding leave_entry
notify_peer_removed host conn d = elim (find_entry_of host d.entries) [
  | none ↦ d
  | some i ↦ leave_entry d (with_flags (one_less conn i))
]

unfoldable pub query_and_register_display :
    PeerDisplay → Option ℕ → ℕ → PeerDisplay × (ℕ × List PeerDisplayItem)
query_and_register_display d watcher user_data = (
  record d {
    watchers =
        d.watchers
        ++ record { watcher_id = d.next_watcher_id; watcher = watcher; user_data = user_data } ∷ [];
    next_watcher_id = (d.next_watcher_id + 1) % u64_mod;
  },
  (d.next_watcher_id, d.entries),
)

unfoldable pub unregister_display : PeerDisplay → ℕ → PeerDisplay
unregister_display d id = record d {
  watchers = keep_if (λ (w : DisplayWatcher). not (w.watcher_id == id)) d.watchers;
}
