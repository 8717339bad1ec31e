-- ===== src/Examples/Popups.antt =====
-- Runs of the popup of src/PopupModel.cpp and of the texts of src/PopupTextMatch.h.
use clipp.Prelude.{
  ℕ, ◌+◌, ◌≤◌, ◌≡◌, ◌↔◌, refl, true, false, not, some, List, [], ◌∷◌, ◌++◌, length, is_empty,
  any_of, keep_if, arith, if◌then◌else◌, leb, drop,
}
use clipp.PopupText.{
  WString, contains_insensitive, contains_from, starts_insensitive, find_matches, matches_from,
  max_highlight_ranges, re_window_row_text, window_around_first_match, text_fits_in_row,
  without_leading, without_trailing,
}
use clipp.PopupText.Contains.{Occurs, contains_insensitive-Occurs}
use clipp.PopupText.Hits.{HitsAt, find_matches-contains_insensitive}
use clipp.PopupText.Windows.{
  find_matches-re_window_row_text, contains_insensitive-window_around_first_match,
}
use clipp.Popup.{
  PopupItem, Kind, new_popup, selected_item, item_at, set_items, set_filter, move_left, move_down,
  append_to_filter, refilter, clamp_selection, clamped, top_of, first_non_empty,
}
use clipp.Popup.Events.{PopupEvent, sets_items, appends, moves_down, moves_left, handle, handle_all}
use clipp.Popup.Selected.{IsValid, handle_all-IsValid, new_popup-IsValid}
use clipp.Popup.Named.{
  candidate, next_auto_register_name, all_taken, is_name, next_auto_register_name-some,
}

-- "Hello, HELLO", and "hell"
abbrev greeting : WString
greeting = 72 ∷ 101 ∷ 108 ∷ 108 ∷ 111 ∷ 44 ∷ 32 ∷ 72 ∷ 69 ∷ 76 ∷ 76 ∷ 79 ∷ []

abbrev typed : WString
typed = 104 ∷ 101 ∷ 108 ∷ 108 ∷ []

contains_insensitive-Occurs_example :
    (contains_insensitive greeting typed ≡ true) ↔ Occurs greeting typed
contains_insensitive-Occurs_example = contains_insensitive-Occurs greeting typed

find_matches-contains_insensitive_example :
    HitsAt greeting typed 0 (find_matches greeting typed)
    × ((length (find_matches greeting typed) ≤ max_highlight_ranges)
        × (is_empty (find_matches greeting typed) ≡ not (contains_insensitive greeting typed)))
find_matches-contains_insensitive_example = find_matches-contains_insensitive greeting typed refl

two_hits : find_matches greeting typed ≡ 0 ∷ 7 ∷ []
unfolding find_matches matches_from starts_insensitive
two_hits = refl

found : contains_insensitive greeting typed ≡ true
unfolding contains_insensitive contains_from starts_insensitive
found = refl

find_matches-re_window_row_text_example :
    starts_insensitive (drop (if leb 0 12 then 0 else 13) (re_window_row_text greeting typed)) typed
    ≡ true
find_matches-re_window_row_text_example =
    find_matches-re_window_row_text greeting typed 0 (7 ∷ []) refl two_hits

contains_insensitive-window_around_first_match_example :
    contains_insensitive (window_around_first_match greeting typed) typed ≡ true
contains_insensitive-window_around_first_match_example =
    contains_insensitive-window_around_first_match greeting typed refl (omega arith) found

trailing_newline : text_fits_in_row (typed ++ 10 ∷ []) ≡ true
unfolding text_fits_in_row without_leading without_trailing any_of
trailing_newline = refl

abbrev row : Kind → WString → PopupItem
row kind text = record {
  kind = kind;
  history_id = 1;
  register_name = [];
  search_text = text;
  actionable = true;
}

abbrev keys : List PopupEvent
keys =
    sets_items (row Kind.register typed ∷ [])
      (row Kind.history greeting ∷ row Kind.history (97 ∷ []) ∷ [])
    ∷ moves_down
    ∷ moves_left
    ∷ appends 72
    ∷ []

handle_all-IsValid_example : IsValid (handle_all new_popup keys)
handle_all-IsValid_example = handle_all-IsValid new_popup keys new_popup-IsValid

register_is_selected : selected_item (handle_all new_popup keys) ≡ some (row Kind.register typed)
unfolding selected_item handle_all handle new_popup set_items set_filter move_down move_left
    append_to_filter refilter clamp_selection clamped top_of first_non_empty item_at keep_if
    contains_insensitive contains_from starts_insensitive
register_is_selected = refl

next_auto_register_name-some_example :
    (m : ℕ) × ((next_auto_register_name (candidate 1 ∷ []) ≡ some (candidate (1 + m)))
      × ((m ≤ 1)
          × ((all_taken 1 m (candidate 1 ∷ []) ≡ true)
              × (any_of (is_name (candidate (1 + m))) (candidate 1 ∷ []) ≡ false))))
next_auto_register_name-some_example = next_auto_register_name-some (candidate 1 ∷ []) (omega arith)
