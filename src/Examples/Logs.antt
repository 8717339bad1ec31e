-- ===== src/Examples/Logs.antt =====
-- Runs of the log window of src/TerminalLogBuffer.h, on lines of src/Logger.cpp.
use clipp.Prelude.{◌+◌, ◌-◌, ◌≡◌, ◌≤◌, refl, [], ◌∷◌, ◌++◌, length, drop, arith, any_of}
use clipp.PopupText.{WString}
use clipp.TerminalLog.{new_log, append_ansi_log_text, push_front, trimmed, split_lines, pop_to}
use clipp.TerminalLog.Logged.{warning, console_line}
use clipp.TerminalLog.Bounded.{append_ansi_log_text_bounds}
use clipp.TerminalLog.Rendered.{shown, append-console_line}

abbrev noon : WString
noon = 49 ∷ 50 ∷ []

abbrev place : WString
place = 102 ∷ []

abbrev words : WString
words = 104 ∷ 105 ∷ []

append-console_line_example :
    (append_ansi_log_text (new_log 1) (console_line noon warning place words)).1.added_lines
    ≡ shown noon warning place words ∷ []
append-console_line_example =
    append-console_line (new_log 1) noon warning place words (unfold any_of in refl)
      (unfold any_of in refl) (unfold any_of in refl) refl

-- Three lines for a log of two.
abbrev three : WString
three = 97 ∷ 13 ∷ 10 ∷ 98 ∷ 10 ∷ 99 ∷ 10 ∷ []

append_ansi_log_text_bounds_example :
    let (after, result) = append_ansi_log_text (new_log 2) three in
    (after.lines ≡ drop result.removed_line_count ((new_log 2).lines ++ result.added_lines))
    × ((result.removed_line_count
          ≡ length (new_log 2).lines + length result.added_lines - (new_log 2).max_lines)
        × (length after.lines ≤ (new_log 2).max_lines))
append_ansi_log_text_bounds_example =
    append_ansi_log_text_bounds (new_log 2) three (unfold new_log in omega arith)

one_is_removed : (append_ansi_log_text (new_log 2) three).1.removed_line_count ≡ 1
unfolding append_ansi_log_text new_log trimmed split_lines push_front pop_to
one_is_removed = refl
