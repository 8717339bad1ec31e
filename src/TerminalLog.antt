-- ===== src/TerminalLog.antt =====
-- The log window's lines: src/TerminalLogBuffer.h. A std::wstring is the list of the numbers of its
-- characters. The `int` of a part of an ANSI code is a number: the code does not wrap where it fits.
pub mod Bounded
pub mod Logged
pub mod Rendered
use clipp.Prelude.{
  ℕ, zero, suc, ◌+◌, ◌-◌, ◌*◌, Bool, true, false, not, ◌&&◌, ◌||◌, Option, none, some, List, [],
  ◌∷◌, ◌++◌, map, ltb, leb, ◌==◌, length, is_empty, if◌then◌else◌,
}
use clipp.PopupText.{WString}

pub data Color : Type 0 where
  default gray dim_cyan cyan green yellow red : Color

pub record Run : Type 0 where
  pub text : WString
  pub color : Color

pub record Line : Type 0 where
  pub runs : List Run
  pub plain_text : WString

pub record AppendResult : Type 0 where
  pub added_lines : List Line
  pub removed_line_count : ℕ

pub record TerminalLogBuffer : Type 0 where
  pub max_lines : ℕ
  pub lines : List Line

unfoldable pub new_log : ℕ → TerminalLogBuffer
new_log max_lines = record { max_lines = max_lines; lines = [] }

unfoldable pub clear_log : TerminalLogBuffer → TerminalLogBuffer
clear_log b = record b { lines = [] }

abbrev pub ends_line : ℕ → Bool
ends_line c = c == 13 || c == 10

-- The loop that takes line ends off the back.
unfoldable pub trimmed : WString → WString
trimmed [] = []
trimmed (c ∷ cs) = let rest = trimmed cs in if ends_line c && is_empty rest then [] else c ∷ rest

-- A character in front of the first of some pieces.
unfoldable pub push_front : ℕ → List WString → List WString
push_front c [] = (c ∷ []) ∷ []
push_front c (l ∷ ls) = (c ∷ l) ∷ ls

-- The pieces between line ends, where a line feed right behind a carriage return belongs to it.
unfoldable pub split_lines : Bool → WString → List WString
unfolding push_front
split_lines after_cr [] = [] ∷ []
split_lines after_cr (c ∷ cs) =
    let plain = split_lines false cs in
    let behind = split_lines true cs in
    if after_cr && c == 10
    then plain
    else if ends_line c
    then [] ∷ (if c == 13 then behind else plain)
    else push_front c plain

-- The pieces between semicolons.
unfoldable pub split_parts : WString → List WString
unfolding push_front
split_parts [] = [] ∷ []
split_parts (c ∷ cs) = let rest = split_parts cs in if c == 59 then [] ∷ rest else push_front c rest

unfoldable pub digits_value : ℕ → WString → Option ℕ
digits_value value [] = some value
digits_value value (c ∷ cs) =
    let rest = digits_value (value * 10 + (c - 48)) cs in
    if ltb c 48 || ltb 57 c then none else rest

unfoldable pub part_value : WString → Option ℕ
unfolding digits_value
part_value part = if is_empty part then none else digits_value 0 part

pub record Style : Type 0 where
  pub dim : Bool
  pub bold : Bool
  pub foreground : Option ℕ

abbrev pub plain_style : Style
plain_style = record { dim = false; bold = false; foreground = none }

unfoldable pub apply_value : Style → Option ℕ → Style
apply_value s none = s
apply_value s (some v) =
    if v == 0
    then plain_style
    else if v == 1
    then record s { bold = true }
    else if v == 2
    then record s { dim = true }
    else if v == 22
    then record s { dim = false; bold = false }
    else if v == 36 || (v == 90 || (leb 30 v && leb v 37))
    then record s { foreground = some v }
    else if v == 39
    then record s { foreground = none }
    else s

unfoldable pub apply_parts : Style → List WString → Style
unfolding part_value apply_value
apply_parts s [] = s
apply_parts s (p ∷ ps) = apply_parts (apply_value s (part_value p)) ps

unfoldable pub style_color : Style → Option ℕ → Color
style_color s none = default
style_color s (some f) =
    if f == 90
    then gray
    else if f == 36
    then (if s.dim then dim_cyan else cyan)
    else if s.bold && f == 32
    then green
    else if s.bold && f == 33
    then yellow
    else if s.bold && f == 31
    then red
    else default

unfoldable pub color_for_ansi_code : WString → Color
unfolding style_color apply_parts
color_for_ansi_code code =
    if is_empty code
    then default
    else let s = apply_parts plain_style (split_parts code) in style_color s s.foreground

-- flushText
unfoldable pub flush_text : Color → WString → Line → Line
flush_text color current parsed = if is_empty current then parsed else record {
  runs = parsed.runs ++ record { text = current; color = color } ∷ [];
  plain_text = parsed.plain_text ++ current;
}

-- Where the loop is: in a text, at the bracket behind an escape, or in a code.
pub data Scan : Type 0 where
  in_text at_bracket : Scan
  in_code : WString → Scan

abbrev pub opens : WString → Bool
opens [] = false
opens (c ∷ cs) = c == 91

unfoldable pub scan : WString → Scan → Color → WString → Line → Line
unfolding flush_text color_for_ansi_code
scan [] mode color current parsed = flush_text color current parsed
scan (c ∷ cs) in_text color current parsed =
    let escape = scan cs at_bracket color [] (flush_text color current parsed) in
    let plain = scan cs in_text color (current ++ c ∷ []) parsed in
    if c == 27 && opens cs then escape else plain
scan (c ∷ cs) at_bracket color current parsed = scan cs (in_code []) color current parsed
scan (c ∷ cs) (in_code code) color current parsed =
    let done = scan cs in_text (color_for_ansi_code code) current parsed in
    let more = scan cs (in_code (code ++ c ∷ [])) color current parsed in
    if c == 109 then done else more

unfoldable pub parse_ansi_line : WString → Line
parse_ansi_line line = scan line in_text default [] (record { runs = []; plain_text = [] })

-- `while (lines_.size() > maxLines_)`: what is left, and how many were removed.
unfoldable pub pop_to : ℕ → List Line → List Line × ℕ
pop_to max_lines [] = ([], 0)
pop_to max_lines (l ∷ ls) =
    let (kept, count) = pop_to max_lines ls in
    if ltb max_lines (length (l ∷ ls)) then (kept, count + 1) else (l ∷ ls, 0)

unfoldable pub append_ansi_log_text : TerminalLogBuffer → WString → TerminalLogBuffer × AppendResult
append_ansi_log_text b text =
    let core = trimmed text in
    if is_empty core
    then (b, record { added_lines = []; removed_line_count = 0 })
    else let added = map parse_ansi_line (split_lines false core) in
      let (kept, count) = pop_to b.max_lines (b.lines ++ added) in
      (record b { lines = kept }, record { added_lines = added; removed_line_count = count })

unfoldable pub append_all : TerminalLogBuffer → List WString → TerminalLogBuffer
append_all b [] = b
append_all b (t ∷ ts) = append_all (append_ansi_log_text b t).0 ts

unfoldable pub set_ansi_log_text : TerminalLogBuffer → List WString → TerminalLogBuffer
set_ansi_log_text b texts = append_all (clear_log b) texts

abbrev pub line_count : TerminalLogBuffer → ℕ
line_count b = length b.lines

unfoldable pub plain_lines : List Line → WString
plain_lines [] = []
plain_lines (l ∷ ls) = l.plain_text ++ 10 ∷ plain_lines ls

abbrev pub plain_text_of : TerminalLogBuffer → WString
plain_text_of b = plain_lines b.lines
