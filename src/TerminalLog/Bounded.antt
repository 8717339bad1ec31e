-- ===== src/TerminalLog/Bounded.antt =====
-- What src/TerminalLogBuffer.h keeps of the lines that it is given.
use clipp.Prelude.{
  ℕ, suc, ◌+◌, ◌-◌, ◌≤◌, ◌≡◌, refl, sym, ap, ◌∙◌, false, List, [], ◌∷◌, ◌++◌, map, ltb, length,
  length-append, drop, is_empty, arith, Bool-cases, inl, inr, append-nil,
}
use clipp.PopupText.{WString}
use clipp.TerminalLog.{
  Line, TerminalLogBuffer, trimmed, split_lines, parse_ansi_line, pop_to, append_ansi_log_text,
}

pop_to-drop :
    (max_lines : ℕ) (ls : List Line)
    → ((pop_to max_lines ls).0 ≡ drop (pop_to max_lines ls).1 ls)
      × ((pop_to max_lines ls).1 ≡ length ls - max_lines)
unfolding pop_to
pop_to-drop max_lines [] = (refl, omega arith)
pop_to-drop max_lines (l ∷ ls) = elim (Bool-cases (ltb max_lines (length (l ∷ ls)))) [
  | inl over ↦
      let (kept, count) = pop_to-drop max_lines ls in
      let next : suc (pop_to max_lines ls).1 ≡ (pop_to max_lines ls).1 + 1 = omega arith in
      rw over (kept ∙ ap (λ n. drop n (l ∷ ls)) next, ground (arith, over, count))
  | inr few ↦ rw few (refl, ground (arith, few))
]

pop_to_bounds : (max_lines : ℕ) (ls : List Line) → length (pop_to max_lines ls).0 ≤ max_lines
unfolding pop_to
pop_to_bounds max_lines [] = omega arith
pop_to_bounds max_lines (l ∷ ls) = ground (arith, pop_to_bounds max_lines ls)

-- Appending a text keeps the newest lines, at most the largest number of them: the lines that were
-- there, followed by the lines that were added, without as many at the front as are reported as removed,
-- which are just those that are too many; for a log that had no more lines than that before.
pub append_ansi_log_text_bounds :
    (b : TerminalLogBuffer) (text : WString)
    → length b.lines ≤ b.max_lines
    → let (after, result) = append_ansi_log_text b text in
      (after.lines ≡ drop result.removed_line_count (b.lines ++ result.added_lines))
      × ((result.removed_line_count ≡ length b.lines + length result.added_lines - b.max_lines)
          × (length after.lines ≤ b.max_lines))
unfolding append_ansi_log_text
append_ansi_log_text_bounds b text h = elim (Bool-cases (is_empty (trimmed text))) [
  | inl nothing ↦ rw nothing (sym (append-nil b.lines), (omega (arith, h), h))
  | inr some_lines ↦
      let added = map parse_ansi_line (split_lines false (trimmed text)) in
      let (kept, count) = pop_to-drop b.max_lines (b.lines ++ added) in
      rw some_lines (
        kept,
        (
          omega (arith, count, length-append b.lines added),
          pop_to_bounds b.max_lines (b.lines ++ added),
        ),
      )
]
