-- ===== src/Activity/Operations.antt =====
-- The operations of src/ClipboardActivityStore.cpp. The readings of the clock are arguments.
use clipp.Prelude.{
  ℕ, ◌+◌, ◌-◌, ◌%◌, Bool, true, false, not, Option, none, some, List, [], ◌∷◌, ◌++◌, map, leb, ◌==◌,
  length, is_empty, take, drop, keep_if, if◌then◌else◌,
}
use clipp.Bytes.{Bytes, u64_mod}
use clipp.Payload.{ClipboardPayload, clipp_format_none, is_zero}
use clipp.Activity.{
  Item, ItemHeader, Update, added, removed, moved, cleared, WatcherRegistration, ActivityStore,
  has_id, has_guid, guid_of, find_if, erase_first, insert_item, notify_watchers,
}
use clipp.Activity.Trim.{apply_limits}

-- The item of the same event, which an event that has no guid does not have.
unfoldable pub same_event : Bytes → List Item → Option Item
same_event guid items = if is_zero guid then none else find_if (has_guid guid) items

abbrev pub item_of : ℕ → ℕ → ClipboardPayload → Item
item_of id now p = record { header = record { id = id; timestamp = now }; payload = p }

-- The middle of AddItem: an echo, a re-share that moves its item, or a new item.
unfoldable pub place_item :
    ActivityStore → ClipboardPayload → ℕ → Option Item → Option (ActivityStore × List Update) × ℕ
place_item s p now (some e) =
    if leb p.meta.timestamp e.payload.meta.timestamp then (none, e.header.id) else (
      some (
        record s {
          items =
              insert_item (item_of e.header.id now p)
                (erase_first (has_guid p.meta.event_guid) s.items);
        },
        moved e.header.id ∷ [],
      ),
      e.header.id,
    )
place_item s p now none = (
  some (
    record s {
      items = insert_item (item_of s.next_item_id now p) s.items;
      next_item_id = (s.next_item_id + 1) % u64_mod;
    },
    added s.next_item_id ∷ [],
  ),
  s.next_item_id,
)

-- What changes where something was placed.
unfoldable pub settle_item :
    ActivityStore → ℕ → Option (ActivityStore × List Update) → ActivityStore
settle_item s at_limits none = s
settle_item s at_limits (some change) = notify_watchers (apply_limits at_limits change)

-- Add and AddItem: the id of the item, or 0 where there is no payload.
unfoldable pub add_item : ActivityStore → Option ClipboardPayload → ℕ → ℕ → ActivityStore × ℕ
unfolding place_item settle_item same_event
add_item s none now at_limits = (s, 0)
add_item s (some p) now at_limits =
    if p.meta.format_id == clipp_format_none
    then (s, 0)
    else let (change, id) = place_item s p now (same_event p.meta.event_guid s.items) in
      (settle_item s at_limits change, id)

unfoldable pub set_limits : ActivityStore → ℕ → ℕ → ℕ → ℕ → ActivityStore
set_limits s memory_limit_bytes max_age_seconds max_items now = notify_watchers (
    apply_limits now (
      record s {
        limits = record {
          memory_limit_bytes = memory_limit_bytes;
          max_age_seconds = max_age_seconds;
          max_items = max_items;
        };
      },
      [],
    ))

abbrev pub header_of : Item → ItemHeader
header_of i = i.header

-- Snapshot
unfoldable pub snapshot : ActivityStore → ℕ → ActivityStore × List ItemHeader
snapshot s now = let s' = notify_watchers (apply_limits now (s, [])) in (s', map header_of s'.items)

-- PayloadReference and FindItem
unfoldable pub payload_reference : ActivityStore → ℕ → Option ClipboardPayload
payload_reference s id = elim (find_if (has_id id) s.items) [
  | none ↦ none
  | some i ↦ some i.payload
]

unfoldable pub find_item : ActivityStore → ℕ → Option Item
find_item s id = find_if (has_id id) s.items

-- The end of Remove and RemoveByEventGuid, for the item that was found.
unfoldable pub erase_item : ActivityStore → (Item → Bool) → Option Item → ActivityStore × Bool
erase_item s p none = (s, false)
erase_item s p (some i) =
    (notify_watchers (record s { items = erase_first p s.items }, removed i.header.id ∷ []), true)

unfoldable pub remove : ActivityStore → ℕ → ActivityStore × Bool
unfolding erase_item
remove s id = erase_item s (has_id id) (find_if (has_id id) s.items)

unfoldable pub remove_by_event_guid : ActivityStore → Bytes → ActivityStore × Bool
unfolding erase_item
remove_by_event_guid s guid =
    if is_zero guid
    then (s, false)
    else erase_item s (has_guid guid) (find_if (has_guid guid) s.items)

unfoldable pub clear : ActivityStore → ActivityStore
clear s = if is_empty s.items then s else notify_watchers (record s { items = [] }, cleared ∷ [])

-- QueryAndRegister: the new watcher hears of what follows, and gets the items as they are.
unfoldable pub query_and_register :
    ActivityStore → Option ℕ → ℕ → ℕ → ActivityStore × (ℕ × List ItemHeader)
query_and_register s watcher user_data now =
    let s' = notify_watchers (apply_limits now (s, [])) in
    (
      record s' {
        watchers =
            s.watchers
            ++ record { watcher_id = s.next_watcher_id; watcher = watcher; user_data = user_data }
              ∷ [];
        next_watcher_id = (s.next_watcher_id + 1) % u64_mod;
      },
      (s.next_watcher_id, map header_of s'.items),
    )

unfoldable pub unregister : ActivityStore → ℕ → ActivityStore
unregister s watcher_id = record s {
  watchers = keep_if (λ (w : WatcherRegistration). not (w.watcher_id == watcher_id)) s.watchers;
}

-- Sixteen zero bytes.
abbrev pub zero_guid : Bytes
zero_guid = 0 ∷ 0 ∷ 0 ∷ 0 ∷ 0 ∷ 0 ∷ 0 ∷ 0 ∷ 0 ∷ 0 ∷ 0 ∷ 0 ∷ 0 ∷ 0 ∷ 0 ∷ 0 ∷ []

-- TailEventGuid: the guid of the last item.
unfoldable pub last_guid : List Item → Bytes
last_guid [] = zero_guid
last_guid (i ∷ []) = guid_of i
last_guid (i ∷ j ∷ is) = last_guid (j ∷ is)

unfoldable pub tail_event_guid : ActivityStore → Bytes
unfolding last_guid
tail_event_guid s = last_guid s.items

-- The items behind the first one of an event; `none` where there is none.
unfoldable pub items_after : Bytes → List Item → Option (List Item)
items_after guid [] = none
items_after guid (i ∷ is) = if has_guid guid i then some is else items_after guid is

abbrev pub payload_of : Item → ClipboardPayload
payload_of i = i.payload

-- ItemsSince: from the item behind the anchor on, or else the most recent ones.
unfoldable pub items_since : ActivityStore → Bytes → ℕ → List ClipboardPayload
items_since s from_guid max_items =
    let recent = drop (length s.items - max_items) s.items in
    let start : List Item =
      elim (if is_zero from_guid then none else items_after from_guid s.items) [
        | none ↦ recent
        | some later ↦ later
      ] in
    map payload_of (take max_items start)
