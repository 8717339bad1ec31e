-- ===== src/TerminalLog/Rendered.antt =====
-- From the lines that src/Logger.cpp writes to the lines that src/TerminalLogBuffer.h shows.
use clipp.Prelude.{
  ℕ, ◌≡◌, refl, sym, ap, ◌∙◌, Bool, true, false, ◌||◌, List, [], ◌∷◌, ◌++◌, ◌==◌, any_of, is_empty,
  if◌then◌else◌, arith, Bool-cases, inl, inr, append-nil, append_assoc,
}
use clipp.PopupText.{WString}
use clipp.TerminalLog.{
  Color, default, gray, dim_cyan, cyan, green, yellow, red, Line, TerminalLogBuffer, ends_line,
  trimmed, push_front, split_lines, split_parts, digits_value, part_value, apply_value, apply_parts,
  style_color, color_for_ansi_code, flush_text, in_text, scan, parse_ansi_line,
  append_ansi_log_text,
}
use clipp.TerminalLog.Logged.{
  Level, ddebug, debug, info, warning, error, off, level_to_string, level_to_color, reset_color,
  gray_code, level_part, function_part, console_line,
}

-- A character that a log text is cut or coloured by.
abbrev pub is_control : ℕ → Bool
is_control c = c == 27 || ends_line c

-- A text between colours.
abbrev pub IsPlain : WString → Type 0
IsPlain text = any_of is_control text ≡ false

abbrev pub color_of : Level → Color
color_of ddebug = dim_cyan
color_of debug = cyan
color_of info = green
color_of warning = yellow
color_of error = red
color_of off = default

any_of-append :
    {A : Type 0} (p : A → Bool) (xs ys : List A)
    → any_of p (xs ++ ys) ≡ (any_of p xs || any_of p ys)
unfolding any_of
any_of-append p [] ys = refl
any_of-append p (x ∷ xs) ys = ground (arith, any_of-append p xs ys)

scan-append :
    (text rest : WString) (color : Color) (current : WString) (parsed : Line)
    → IsPlain text
    → scan (text ++ rest) in_text color current parsed
      ≡ scan rest in_text color (current ++ text) parsed
unfolding scan any_of
scan-append [] rest color current parsed h =
    ap (λ l. scan rest in_text color l parsed) (sym (append-nil current))
scan-append (c ∷ cs) rest color current parsed h =
    let other : (c == 27) ≡ false = ground (arith, h) in
    rw other (
      scan-append cs rest color (current ++ c ∷ []) parsed (ground (arith, h))
      ∙ ap (λ l. scan rest in_text color l parsed) (append_assoc current (c ∷ []) cs))

trimmed-append : (text : WString) → any_of ends_line text ≡ false → trimmed (text ++ 10 ∷ []) ≡ text
unfolding trimmed any_of
trimmed-append [] h = refl
trimmed-append (c ∷ cs) h = rw (trimmed-append cs (ground (arith, h))) (ground (arith, h))

split_lines-single :
    (text : WString) → any_of ends_line text ≡ false → split_lines false text ≡ text ∷ []
unfolding split_lines any_of push_front
split_lines-single [] h = refl
split_lines-single (c ∷ cs) h = ground (arith, split_lines-single cs, h)

scan-level_to_color :
    (level : Level) (rest : WString) (color : Color) (current : WString) (parsed : Line)
    → scan (level_to_color level ++ rest) in_text color current parsed
      ≡ scan rest in_text (color_of level) [] (flush_text color current parsed)
unfolding level_to_color scan color_for_ansi_code split_parts push_front apply_parts part_value
    digits_value apply_value style_color
scan-level_to_color ddebug rest color current parsed = refl
scan-level_to_color debug rest color current parsed = refl
scan-level_to_color info rest color current parsed = refl
scan-level_to_color warning rest color current parsed = refl
scan-level_to_color error rest color current parsed = refl
scan-level_to_color off rest color current parsed = refl

scan-gray_code :
    (rest : WString) (color : Color) (current : WString) (parsed : Line)
    → scan (gray_code ++ rest) in_text color current parsed
      ≡ scan rest in_text gray [] (flush_text color current parsed)
unfolding scan color_for_ansi_code split_parts push_front apply_parts part_value digits_value
    apply_value style_color
scan-gray_code rest color current parsed = refl

scan-reset_color :
    (rest : WString) (color : Color) (current : WString) (parsed : Line)
    → scan (reset_color ++ rest) in_text color current parsed
      ≡ scan rest in_text default [] (flush_text color current parsed)
unfolding scan color_for_ansi_code split_parts push_front apply_parts part_value digits_value
    apply_value style_color
scan-reset_color rest color current parsed = refl

scan-all :
    (text : WString) (color : Color) (parsed : Line)
    → IsPlain text
    → scan text in_text color [] parsed ≡ flush_text color text parsed
unfolding scan
scan-all text color parsed h =
    ap (λ t. scan t in_text color [] parsed) (sym (append-nil text))
    ∙ scan-append text [] color [] parsed h

both_plain :
    (p : ℕ → Bool) (xs ys : WString)
    → any_of p xs ≡ false
    → any_of p ys ≡ false
    → any_of p (xs ++ ys) ≡ false
both_plain p xs ys h k = any_of-append p xs ys ∙ rw (h, k) refl

level_to_string-IsPlain : (level : Level) → IsPlain (level_to_string level)
unfolding level_to_string any_of
level_to_string-IsPlain ddebug = refl
level_to_string-IsPlain debug = refl
level_to_string-IsPlain info = refl
level_to_string-IsPlain warning = refl
level_to_string-IsPlain error = refl
level_to_string-IsPlain off = refl

level_to_color-ends_line : (level : Level) → any_of ends_line (level_to_color level) ≡ false
unfolding level_to_color any_of
level_to_color-ends_line ddebug = refl
level_to_color-ends_line debug = refl
level_to_color-ends_line info = refl
level_to_color-ends_line warning = refl
level_to_color-ends_line error = refl
level_to_color-ends_line off = refl

level_part-IsPlain : (level : Level) → IsPlain (level_part level)
unfolding level_part any_of
level_part-IsPlain level =
    both_plain is_control (level_to_string level) (93 ∷ 32 ∷ []) (level_to_string-IsPlain level)
      refl

function_part-IsPlain : (function : WString) → IsPlain function → IsPlain (function_part function)
unfolding function_part any_of
function_part-IsPlain function h = both_plain is_control function (93 ∷ 32 ∷ []) h refl

one_line : (text : WString) → IsPlain text → any_of ends_line text ≡ false
unfolding any_of
one_line [] h = refl
one_line (c ∷ cs) h = ground (arith, one_line cs, h)

-- What the log window shows of a line of the logger.
abbrev pub shown : WString → Level → WString → WString → Line
shown time level function message = record {
  runs =
      record { text = time; color = gray }
      ∷ record { text = level_part level; color = color_of level }
      ∷ record { text = function_part function; color = gray }
      ∷ (if is_empty message then [] else record { text = message; color = default } ∷ []);
  plain_text = ((time ++ level_part level) ++ function_part function) ++ message;
}

same_line :
    (l : Line) (more : WString)
    → is_empty more ≡ true
    → l ≡ record l { plain_text = l.plain_text ++ more }
same_line l [] h = λ i. record l { plain_text = sym (append-nil l.plain_text) i }
same_line l (c ∷ cs) h = ground arith

module _ (time : WString) (level : Level) (function message : WString) where
  abbrev body : WString
  body =
      gray_code
      ++ (time
          ++ (level_to_color level
              ++ (level_part level
                  ++ (gray_code ++ (function_part function ++ (reset_color ++ message))))))

  abbrev flushed : Line
  flushed = flush_text default message (
      flush_text gray (function_part function) (
        flush_text (color_of level) (level_part level)
          (flush_text gray time (record { runs = []; plain_text = [] }))))

  flushed-shown : is_empty time ≡ false → flushed ≡ shown time level function message
  unfolding flush_text level_part function_part
  flushed-shown h = elim (Bool-cases (is_empty message)) [
    | inl nothing ↦ rw h (rw nothing (same_line _ message nothing))
    | inr something ↦ rw h (rw something refl)
  ]

  parse-body :
      IsPlain time
      → IsPlain function
      → IsPlain message
      → is_empty time ≡ false
      → parse_ansi_line body ≡ shown time level function message
  unfolding parse_ansi_line flush_text
  parse-body ht hf hm h =
      scan-gray_code _ default [] _
      ∙ scan-append time _ gray [] _ ht
      ∙ scan-level_to_color level _ gray time _
      ∙ scan-append (level_part level) _ (color_of level) [] _ (level_part-IsPlain level)
      ∙ scan-gray_code _ (color_of level) (level_part level) _
      ∙ scan-append (function_part function) _ gray [] _ (function_part-IsPlain function hf)
      ∙ scan-reset_color message gray (function_part function) _
      ∙ scan-all message default _ hm
      ∙ flushed-shown h

  body-ends_line : IsPlain time → IsPlain function → IsPlain message → any_of ends_line body ≡ false
  unfolding any_of
  body-ends_line ht hf hm = both_plain ends_line time _ (one_line time ht) (
      both_plain ends_line (level_to_color level) _ (level_to_color-ends_line level) (
        both_plain ends_line (level_part level) _
          (one_line (level_part level) (level_part-IsPlain level))
          (both_plain ends_line (function_part function) _
            (one_line (function_part function) (function_part-IsPlain function hf))
            (one_line message hm))))

-- A line of the logger, appended to the log window, adds one line, with the time and the function in
-- gray, the level in its colour and the message in the default one, if the time, the function and the
-- message have no escape and no line end, and the time is not empty.
pub append-console_line :
    (b : TerminalLogBuffer) (time : WString) (level : Level) (function message : WString)
    → IsPlain time
    → IsPlain function
    → IsPlain message
    → is_empty time ≡ false
    → (append_ansi_log_text b (console_line time level function message)).1.added_lines
      ≡ shown time level function message ∷ []
unfolding append_ansi_log_text console_line
append-console_line b time level function message ht hf hm h =
    let flat = body-ends_line time level function message ht hf hm in
    rw (trimmed-append (body time level function message) flat) (
      rw (split_lines-single (body time level function message) flat)
        (ap (λ l. l ∷ []) (parse-body time level function message ht hf hm h)))
