-- ===== src/TerminalLog/Logged.antt =====
-- The lines that src/Logger.cpp writes for a terminal, with the levels of src/Logger.h.
use clipp.Prelude.{[], ◌∷◌, ◌++◌}
use clipp.PopupText.{WString}

pub data Level : Type 0 where
  ddebug debug info warning error off : Level

unfoldable pub level_to_string : Level → WString
level_to_string ddebug = 100 ∷ 100 ∷ 101 ∷ 98 ∷ 117 ∷ 103 ∷ []
level_to_string debug = 100 ∷ 101 ∷ 98 ∷ 117 ∷ 103 ∷ []
level_to_string info = 105 ∷ 110 ∷ 102 ∷ 111 ∷ []
level_to_string warning = 119 ∷ 97 ∷ 114 ∷ 110 ∷ 105 ∷ 110 ∷ 103 ∷ []
level_to_string error = 101 ∷ 114 ∷ 114 ∷ 111 ∷ 114 ∷ []
level_to_string off = 111 ∷ 102 ∷ 102 ∷ []

-- LevelToColor: "\x1b[0;2;36m" and so on.
unfoldable pub level_to_color : Level → WString
level_to_color ddebug = 27 ∷ 91 ∷ 48 ∷ 59 ∷ 50 ∷ 59 ∷ 51 ∷ 54 ∷ 109 ∷ []
level_to_color debug = 27 ∷ 91 ∷ 48 ∷ 59 ∷ 51 ∷ 54 ∷ 109 ∷ []
level_to_color info = 27 ∷ 91 ∷ 48 ∷ 59 ∷ 49 ∷ 59 ∷ 51 ∷ 50 ∷ 109 ∷ []
level_to_color warning = 27 ∷ 91 ∷ 48 ∷ 59 ∷ 49 ∷ 59 ∷ 51 ∷ 51 ∷ 109 ∷ []
level_to_color error = 27 ∷ 91 ∷ 48 ∷ 59 ∷ 49 ∷ 59 ∷ 51 ∷ 49 ∷ 109 ∷ []
level_to_color off = 27 ∷ 91 ∷ 48 ∷ 109 ∷ []

abbrev pub reset_color : WString
reset_color = 27 ∷ 91 ∷ 48 ∷ 109 ∷ []

abbrev pub gray_code : WString
gray_code = 27 ∷ 91 ∷ 48 ∷ 59 ∷ 57 ∷ 48 ∷ 109 ∷ []

-- What stands between the time and the function, and around the function.
unfoldable pub level_part : Level → WString
level_part level = 32 ∷ 91 ∷ (level_to_string level ++ 93 ∷ 32 ∷ [])

unfoldable pub function_part : WString → WString
function_part function = 91 ∷ (function ++ 93 ∷ 32 ∷ [])

-- The line for the console, with the line feed of std::endl.
unfoldable pub console_line : WString → Level → WString → WString → WString
console_line time level function message =
    (gray_code
      ++ (time
          ++ (level_to_color level
              ++ (level_part level
                  ++ (gray_code ++ (function_part function ++ (reset_color ++ message)))))))
    ++ 10 ∷ []
