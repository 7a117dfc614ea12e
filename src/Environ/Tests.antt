-- ===== src/Environ/Tests.antt =====
-- 6-3-environ.c with two variables.
use tlpi_practice.Common.{◌≡◌, refl, false, some, List, [], ◌∷◌}
use tlpi_practice.Common.Disk.{Bytes}
use tlpi_practice.Common.Text.{text}
use tlpi_practice.Environ.{setenv, getenv, putenv, is_prefix, unsetenv, strstr}
use tlpi_practice.Environ.Unset.{occurs, unsetenv-occurs}

abbrev env : List Bytes
env = text "A=1" ∷ text "B=A" ∷ []

-- A variable that is there is overwritten without `overwrite`, and a new one is not set.
overwrites : setenv (text "A") (text "2") false env ≡ text "A=2" ∷ text "B=A" ∷ []
unfolding setenv getenv putenv is_prefix text
overwrites = refl

refuses_new : setenv (text "C") (text "2") false env ≡ env
unfolding setenv getenv putenv is_prefix text
refuses_new = refl

unsetenv-occurs_example : unsetenv (text "C") env ≡ some env
unfolding occurs strstr is_prefix text
unsetenv-occurs_example = unsetenv-occurs (text "C") env
