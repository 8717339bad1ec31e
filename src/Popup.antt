-- ===== src/Popup.antt =====
-- The popup of src/PopupModel.h and src/PopupModel.cpp. A pointer to an item is the item: the vectors
-- that the visible items point into change only together with them.
pub mod Events
pub mod Selected
pub mod Named
use clipp.Prelude.{
  ℕ, zero, suc, ◌+◌, ◌-◌, Bool, true, false, not, ◌&&◌, Option, none, some, List, [], ◌∷◌, ◌++◌,
  ltb, leb, length, is_empty, keep_if, min, if◌then◌else◌,
}
use clipp.Bytes.{Bytes}
use clipp.PopupText.{WString, contains_insensitive}

pub data Kind : Type 0 where
  register history : Kind

pub record PopupItem : Type 0 where
  pub kind : Kind
  pub history_id : ℕ
  pub register_name : Bytes
  pub search_text : WString
  pub actionable : Bool

pub data Group : Type 0 where
  registers history : Group

pub data Mode : Type 0 where
  browse edit : Mode

pub data EscapeResult : Type 0 where
  left_edit_mode cleared_filter close : EscapeResult

pub record Selection : Type 0 where
  pub group : Group
  pub index : ℕ

pub record PopupModel : Type 0 where
  pub registers : List PopupItem
  pub history : List PopupItem
  pub visible_registers : List PopupItem
  pub visible_history : List PopupItem
  pub filter : WString
  pub selection : Option Selection
  pub mode : Mode

unfoldable pub new_popup : PopupModel
new_popup = record {
  registers = [];
  history = [];
  visible_registers = [];
  visible_history = [];
  filter = [];
  selection = none;
  mode = Mode.browse;
}

abbrev pub passes : WString → PopupItem → Bool
passes filter item = contains_insensitive item.search_text filter

unfoldable pub refilter : PopupModel → PopupModel
refilter m = record m {
  visible_registers = keep_if (passes m.filter) m.registers;
  visible_history = keep_if (passes m.filter) m.history;
}

abbrev pub group_items : PopupModel → Group → List PopupItem
group_items m Group.registers = m.visible_registers
group_items m Group.history = m.visible_history

abbrev pub empty : PopupModel → Bool
empty m = is_empty m.visible_registers && is_empty m.visible_history

abbrev other_group : Group → Group
other_group Group.registers = Group.history
other_group Group.history = Group.registers

-- `firstNonEmpty` of ClampSelection.
unfoldable pub first_non_empty : PopupModel → Option Selection
first_non_empty m =
    if not (is_empty m.visible_history)
    then some (record { group = Group.history; index = 0 })
    else if not (is_empty m.visible_registers)
    then some (record { group = Group.registers; index = 0 })
    else none

-- The top of a group, where it has rows.
unfoldable pub top_of : PopupModel → Group → Option Selection → Option Selection
top_of m g otherwise =
    if is_empty (group_items m g) then otherwise else some (record { group = g; index = 0 })

unfoldable pub clamped : PopupModel → Option Group → Option Selection → Option Selection
unfolding top_of first_non_empty
clamped m none none = first_non_empty m
clamped m (some g) none = top_of m g (first_non_empty m)
clamped m preferred (some s) =
    if is_empty (group_items m s.group)
    then top_of m (other_group s.group) none
    else some (record s { index = min s.index (length (group_items m s.group) - 1) })

unfoldable pub clamp_selection : Option Group → PopupModel → PopupModel
unfolding clamped
clamp_selection preferred m = record m { selection = clamped m preferred m.selection }

abbrev pub selected_group : Option Selection → Option Group
selected_group none = none
selected_group (some s) = some s.group

unfoldable pub set_items : PopupModel → List PopupItem → List PopupItem → PopupModel
set_items m rs hs =
    clamp_selection (selected_group m.selection)
      (refilter (record m { registers = rs; history = hs }))

unfoldable pub set_filter : PopupModel → WString → PopupModel
set_filter m text =
    clamp_selection (selected_group m.selection)
      (record (refilter (record m { filter = text })) { selection = none })

unfoldable pub append_to_filter : PopupModel → ℕ → PopupModel
append_to_filter m ch = set_filter m (m.filter ++ ch ∷ [])

-- std::wstring::pop_back
unfoldable pub without_last : WString → WString
without_last [] = []
without_last (c ∷ []) = []
without_last (c ∷ d ∷ cs) = c ∷ without_last (d ∷ cs)

unfoldable pub backspace_filter : PopupModel → PopupModel × Bool
unfolding without_last
backspace_filter m =
    if is_empty m.filter then (m, false) else (set_filter m (without_last m.filter), true)

-- The row of a list, where it has one.
unfoldable pub item_at : List PopupItem → ℕ → Option PopupItem
item_at [] i = none
item_at (x ∷ xs) zero = some x
item_at (x ∷ xs) (suc i) = item_at xs i

unfoldable pub selected_item : PopupModel → Option PopupItem
unfolding item_at
selected_item m = elim m.selection [
  | none ↦ none
  | some s ↦ item_at (group_items m s.group) s.index
]

-- MoveUp, MoveDown, MoveLeft and MoveRight.
abbrev pub step_up : Selection → Selection
step_up s = if ltb 0 s.index then record s { index = s.index - 1 } else s

abbrev pub step_down : PopupModel → Selection → Selection
step_down m s =
    if ltb (s.index + 1) (length (group_items m s.group))
    then record s { index = s.index + 1 }
    else s

abbrev pub hop_left : PopupModel → Group → ℕ → Selection
hop_left m Group.registers i = record { group = Group.registers; index = i }
hop_left m Group.history i =
    if is_empty m.visible_registers
    then record { group = Group.history; index = i }
    else record { group = Group.registers; index = min i (length m.visible_registers - 1) }

abbrev pub hop_right : PopupModel → Group → ℕ → Selection
hop_right m Group.history i = record { group = Group.history; index = i }
hop_right m Group.registers i =
    if is_empty m.visible_history
    then record { group = Group.registers; index = i }
    else record { group = Group.history; index = min i (length m.visible_history - 1) }

-- A move of the selection that there is.
abbrev pub moved : (Selection → Selection) → PopupModel → PopupModel
moved f m = record m { selection = elim m.selection [ none ↦ none | some s ↦ some (f s) ] }

unfoldable pub move_up : PopupModel → PopupModel
move_up m = moved step_up m

unfoldable pub move_down : PopupModel → PopupModel
move_down m = moved (step_down m) m

unfoldable pub move_left : PopupModel → PopupModel
move_left m = moved (λ s. hop_left m s.group s.index) m

unfoldable pub move_right : PopupModel → PopupModel
move_right m = moved (λ s. hop_right m s.group s.index) m

unfoldable pub select_at : PopupModel → Group → ℕ → PopupModel
select_at m g i =
    if leb (length (group_items m g)) i
    then m
    else record m { selection = some (record { group = g; index = i }) }

unfoldable pub enter_edit_mode : PopupModel → PopupModel
enter_edit_mode m = record m { mode = Mode.edit }

unfoldable pub leave_edit_mode : PopupModel → PopupModel
leave_edit_mode m = record m { mode = Mode.browse }

unfoldable pub escape_in : Mode → PopupModel → PopupModel × EscapeResult
escape_in Mode.edit m = (record m { mode = Mode.browse }, left_edit_mode)
escape_in Mode.browse m =
    if is_empty m.filter then (m, close) else (set_filter m [], cleared_filter)

unfoldable pub handle_escape : PopupModel → PopupModel × EscapeResult
unfolding escape_in
handle_escape m = escape_in m.mode m
