-- ===== src/PipeEcho/Tests.antt =====
-- 44-1-pipe_echo.c for two lines.
use tlpi_practice.Common.{◌≡◌, refl, some, none, [], ◌∷◌}
use tlpi_practice.Common.CString.{cstring}
use tlpi_practice.Common.Text.{text}
use tlpi_practice.PipeEcho.{raise, round, rounds}

two_lines : (rounds (some (text "ab1") ∷ some (text "c") ∷ none ∷ []) [] []).1 ≡ text "AB1CC"
unfolding rounds round raise cstring text
two_lines = refl
