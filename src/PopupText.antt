-- ===== src/PopupText.antt =====
-- The texts of the popup: src/PopupTextMatch.h, and the filter of src/PopupModel.cpp. A std::wstring is
-- the list of the numbers of its characters.
pub mod Contains
pub mod Hits
pub mod Windows
use clipp.Prelude.{
  ℕ, zero, suc, ◌+◌, ◌-◌, Bool, true, false, not, ◌&&◌, ◌||◌, List, [], ◌∷◌, ◌++◌, ltb, leb, ◌==◌,
  length, is_empty, take, drop, any_of, if◌then◌else◌,
}

abbrev pub WString : Type 0
WString = List ℕ

-- FoldAscii, and `fold` of ContainsInsensitive.
abbrev pub fold_ascii : ℕ → ℕ
fold_ascii ch = if leb 65 ch && leb ch 90 then ch - 65 + 97 else ch

-- The inner loops of ContainsInsensitive and FindMatches: whether a text starts with the needle.
unfoldable pub starts_insensitive : WString → WString → Bool
starts_insensitive text [] = true
starts_insensitive [] (n ∷ needle) = false
starts_insensitive (t ∷ text) (n ∷ needle) =
    fold_ascii t == fold_ascii n && starts_insensitive text needle

-- The outer loop of ContainsInsensitive; its argument is what is left behind `start`.
unfoldable pub contains_from : WString → WString → Bool
contains_from [] needle = false
contains_from (t ∷ text) needle =
    let rest = contains_from text needle in
    if leb (length needle) (length (t ∷ text))
    then if starts_insensitive (t ∷ text) needle then true else rest
    else false

unfoldable pub contains_insensitive : WString → WString → Bool
contains_insensitive haystack needle =
    if is_empty needle
    then true
    else if ltb (length haystack) (length needle)
    then false
    else contains_from haystack needle

abbrev pub max_highlight_ranges : ℕ
max_highlight_ranges = 200

-- The loop of FindMatches, at the position `start`: `skip` characters of the last hit are left, and
-- `room` hits can still be taken.
unfoldable pub matches_from : WString → WString → ℕ → ℕ → ℕ → List ℕ
matches_from [] needle start skip room = []
matches_from (t ∷ text) needle start (suc skip) room =
    matches_from text needle (start + 1) skip room
matches_from (t ∷ text) needle start zero room =
    let miss = matches_from text needle (start + 1) 0 room in
    let hit = matches_from text needle (start + 1) (length needle - 1) (room - 1) in
    if leb (length needle) (length (t ∷ text))
    then if starts_insensitive (t ∷ text) needle
      then start ∷ (if leb room 1 then [] else hit)
      else miss
    else []

unfoldable pub find_matches : WString → WString → List ℕ
find_matches text needle =
    if is_empty needle || ltb (length text) (length needle)
    then []
    else matches_from text needle 0 0 max_highlight_ranges

-- Space, tab, carriage return, line feed.
abbrev pub is_blank : ℕ → Bool
is_blank ch = ch == 32 || (ch == 9 || (ch == 13 || ch == 10))

-- find_first_not_of: what is left behind the blanks.
unfoldable pub without_leading : WString → WString
without_leading [] = []
without_leading (c ∷ cs) = let rest = without_leading cs in if is_blank c then rest else c ∷ cs

-- find_last_not_of: what is left before the blanks.
unfoldable pub without_trailing : WString → WString
without_trailing [] = []
without_trailing (c ∷ cs) =
    let rest = without_trailing cs in if is_blank c && is_empty rest then [] else c ∷ rest

abbrev pub row_fit_chars : ℕ
row_fit_chars = 60

-- TextFitsInRow; the text between the blanks is empty where there is nothing but blanks.
unfoldable pub text_fits_in_row : WString → Bool
text_fits_in_row full =
    let core = without_trailing (without_leading full) in
    not (any_of (λ c. c == 10) core) && leb (length core) row_fit_chars

abbrev pub row_match_lead_chars : ℕ
row_match_lead_chars = 12

abbrev pub ellipsis : ℕ
ellipsis = 8230

-- The end of ReWindowRowText.
unfoldable pub shift_row : WString → List ℕ → WString
shift_row text [] = text
shift_row text (m ∷ ms) =
    if ltb row_match_lead_chars m then ellipsis ∷ drop (m - row_match_lead_chars) text else text

unfoldable pub re_window_row_text : WString → WString → WString
unfolding shift_row
re_window_row_text text filter =
    if is_empty filter then text else shift_row text (find_matches text filter)

abbrev pub preview_lead_chars : ℕ
preview_lead_chars = 400

abbrev pub preview_window_chars : ℕ
preview_window_chars = 2500

-- Where the window of WindowAroundFirstMatch begins.
unfoldable pub window_begin : List ℕ → ℕ
window_begin [] = 0
window_begin (m ∷ ms) = if ltb preview_lead_chars m then m - preview_lead_chars else 0

unfoldable pub clip_markers : WString → ℕ → WString → WString
clip_markers full begin shown =
    (if ltb 0 begin then ellipsis ∷ 32 ∷ [] else [])
    ++ (shown ++ (if ltb (begin + length shown) (length full) then 32 ∷ ellipsis ∷ [] else []))

unfoldable pub window_around_first_match : WString → WString → WString
unfolding window_begin clip_markers
window_around_first_match full filter =
    let begin = window_begin (if is_empty filter then [] else find_matches full filter) in
    clip_markers full begin (take preview_window_chars (drop begin full))
