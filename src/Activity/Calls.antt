-- ===== src/Activity/Calls.antt =====
-- Sequences of calls on the store of src/ClipboardActivityStore.cpp that can change it.
use clipp.Prelude.{ℕ, Option, List, [], ◌∷◌}
use clipp.Bytes.{Bytes}
use clipp.Payload.{ClipboardPayload}
use clipp.Activity.{ActivityStore}
use clipp.Activity.Operations.{
  add_item, set_limits, snapshot, remove, remove_by_event_guid, clear, query_and_register,
  unregister,
}

pub data ActivityCall : Type 0 where
  adds : Option ClipboardPayload → ℕ → ℕ → ActivityCall
  sets_limits : ℕ → ℕ → ℕ → ℕ → ActivityCall
  snapshots removes : ℕ → ActivityCall
  removes_event : Bytes → ActivityCall
  clears : ActivityCall
  registers : Option ℕ → ℕ → ℕ → ActivityCall
  unregisters : ℕ → ActivityCall

unfoldable pub act : ActivityStore → ActivityCall → ActivityStore
act s (adds p now at_limits) = (add_item s p now at_limits).0
act s (sets_limits memory age count now) = set_limits s memory age count now
act s (snapshots now) = (snapshot s now).0
act s (removes id) = (remove s id).0
act s (removes_event guid) = (remove_by_event_guid s guid).0
act s clears = clear s
act s (registers watcher user_data now) = (query_and_register s watcher user_data now).0
act s (unregisters id) = unregister s id

unfoldable pub act_all : ActivityStore → List ActivityCall → ActivityStore
act_all s [] = s
act_all s (c ∷ cs) = act_all (act s c) cs
