-- ===== src/Popup/Events.antt =====
-- Sequences of what a shell calls on the popup of src/PopupModel.cpp.
use clipp.Prelude.{ℕ, List, [], ◌∷◌}
use clipp.PopupText.{WString}
use clipp.Popup.{
  PopupItem, Group, PopupModel, set_items, set_filter, append_to_filter, backspace_filter, move_up,
  move_down, move_left, move_right, select_at, enter_edit_mode, leave_edit_mode, handle_escape,
}

pub data PopupEvent : Type 0 where
  sets_items : List PopupItem → List PopupItem → PopupEvent
  sets_filter : WString → PopupEvent
  appends : ℕ → PopupEvent
  backspaces moves_up moves_down moves_left moves_right : PopupEvent
  selects : Group → ℕ → PopupEvent
  enters_edit leaves_edit escapes : PopupEvent

unfoldable pub handle : PopupModel → PopupEvent → PopupModel
handle m (sets_items rs hs) = set_items m rs hs
handle m (sets_filter text) = set_filter m text
handle m (appends ch) = append_to_filter m ch
handle m backspaces = (backspace_filter m).0
handle m moves_up = move_up m
handle m moves_down = move_down m
handle m moves_left = move_left m
handle m moves_right = move_right m
handle m (selects g i) = select_at m g i
handle m enters_edit = enter_edit_mode m
handle m leaves_edit = leave_edit_mode m
handle m escapes = (handle_escape m).0

unfoldable pub handle_all : PopupModel → List PopupEvent → PopupModel
handle_all m [] = m
handle_all m (e ∷ es) = handle_all (handle m e) es
