-- ===== src/Activity.antt =====
-- The stream of clipboard activity: the state of src/ClipboardActivityStore.h, and the functions on
-- lists that src/ClipboardActivityStore.cpp is made of. A time point of the system clock is a number
-- of ticks. AddItem, which alone puts items into the store, refuses a null payload, so an item's
-- payload is not null. An operation is one step under
-- the mutex, which leaves in `owed` the calls that NotifyWatchers makes when the mutex is released: those
-- of all operations, in the order in which they had the mutex. Watched has when they are made.
pub mod Trim
pub mod Evict
pub mod Bounds
pub mod Since
pub mod Valid
pub mod Kept
pub mod Runs
pub mod Mirror
pub mod Operations
pub mod Calls
pub mod Watched
use clipp.Prelude.{
  ℕ, ◌+◌, ◌*◌, Bool, ◌&&◌, Option, none, some, List, [], ◌∷◌, ◌++◌, map, ltb, ◌==◌, beq, list_order,
  ℕ_order, is_empty, length, if◌then◌else◌,
}
use clipp.Bytes.{Bytes}
use clipp.Payload.{ClipboardPayload}

pub record ItemHeader : Type 0 where
  pub id : ℕ
  pub timestamp : ℕ

pub record Item : Type 0 where
  pub header : ItemHeader
  pub payload : ClipboardPayload

pub record Limits : Type 0 where
  pub memory_limit_bytes : ℕ
  pub max_age_seconds : ℕ
  pub max_items : ℕ

pub data Update : Type 0 where
  added removed moved : ℕ → Update
  cleared : Update

-- The watcher is `none` where the std::function is empty.
pub record WatcherRegistration : Type 0 where
  pub watcher_id : ℕ
  pub watcher : Option ℕ
  pub user_data : ℕ

-- A call of a watcher.
pub record Delivery : Type 0 where
  pub watcher_id : ℕ
  pub watcher : ℕ
  pub user_data : ℕ
  pub update : Update

pub record ActivityStore : Type 0 where
  pub items : List Item
  pub watchers : List WatcherRegistration
  pub limits : Limits
  pub next_item_id : ℕ
  pub next_watcher_id : ℕ
  pub owed : List Delivery

abbrev pub default_limits : Limits
default_limits = record {
  memory_limit_bytes = 256 * 1024 * 1024;
  max_age_seconds = 24 * 60 * 60;
  max_items = 1000;
}

unfoldable pub new_activity : ActivityStore
new_activity = record {
  items = [];
  watchers = [];
  limits = default_limits;
  next_item_id = 1;
  next_watcher_id = 1;
  owed = [];
}

abbrev pub event_time : Item → ℕ
event_time i = i.payload.meta.timestamp

abbrev pub guid_of : Item → Bytes
guid_of i = i.payload.meta.event_guid

abbrev pub has_id : ℕ → Item → Bool
has_id id i = i.header.id == id

abbrev pub has_guid : Bytes → Item → Bool
has_guid guid i = beq (guid_of i) guid

-- std::find_if, and items_.erase of what it finds.
unfoldable pub find_if : (Item → Bool) → List Item → Option Item
find_if p [] = none
find_if p (i ∷ is) = if p i then some i else find_if p is

unfoldable pub erase_first : (Item → Bool) → List Item → List Item
erase_first p [] = []
erase_first p (i ∷ is) = if p i then is else i ∷ erase_first p is

-- std::lower_bound by the time of the event, and items_.insert: in front of the first item that is
-- not earlier. The items are in the order of these times, which std::lower_bound asks for.
unfoldable pub insert_item : Item → List Item → List Item
insert_item x [] = x ∷ []
insert_item x (i ∷ is) =
    if ltb (event_time i) (event_time x) then i ∷ insert_item x is else x ∷ i ∷ is

-- The calls of NotifyWatchers: each update to each watcher that has a function.
unfoldable pub calls_of : Update → List WatcherRegistration → List Delivery
calls_of u [] = []
calls_of u (w ∷ ws) = elim w.watcher [
  | none ↦ calls_of u ws
  | some f ↦
      record { watcher_id = w.watcher_id; watcher = f; user_data = w.user_data; update = u }
      ∷ calls_of u ws
]

unfoldable pub deliveries : List WatcherRegistration → List Update → List Delivery
deliveries ws [] = []
deliveries ws (u ∷ us) = calls_of u ws ++ deliveries ws us

-- The end of an operation: the copy of the watchers and the updates, as the calls that are owed now.
unfoldable pub notify_watchers : ActivityStore × List Update → ActivityStore
notify_watchers (s, updates) = record s { owed = s.owed ++ deliveries s.watchers updates }
