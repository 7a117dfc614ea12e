-- ===== src/Environ.antt =====
-- 6-3-environ.c: `setenv` and `unsetenv` over the strings of `environ`.
mod Unset
mod Tests
use tlpi_practice.Common.{
  ℕ, zero, suc, Bool, true, false, not, ◌&&◌, ◌||◌, Option, none, some, List, [], ◌∷◌, ◌++◌, length,
  ltb, ◌==◌, if◌then◌else◌,
}
use tlpi_practice.Common.Disk.{Bytes}

unfoldable pub is_prefix : Bytes → Bytes → Bool
is_prefix [] s = true
is_prefix (a ∷ xs) [] = false
is_prefix (a ∷ xs) (b ∷ s) = (a == b) && is_prefix xs s

-- Whether `strstr (s, name)` finds the name.
unfoldable pub strstr : Bytes → Bytes → Bool
unfolding is_prefix
strstr name [] = is_prefix name []
strstr name (b ∷ s) = is_prefix name (b ∷ s) || strstr name s

-- Whether `getenv` finds a string that begins with the name and `=`.
unfoldable pub getenv : Bytes → List Bytes → Bool
unfolding is_prefix
getenv name [] = false
getenv name (s ∷ ss) = is_prefix (name ++ b'=' ∷ []) s || getenv name ss

-- `putenv` of the string of a name: in the place of the first one of the name, or at the end.
unfoldable pub putenv : Bytes → Bytes → List Bytes → List Bytes
unfolding is_prefix
putenv name new [] = new ∷ []
putenv name new (s ∷ ss) =
    if is_prefix (name ++ b'=' ∷ []) s then new ∷ ss else s ∷ putenv name new ss

-- The test of `setenv` as it stands.
unfoldable pub setenv : Bytes → Bytes → Bool → List Bytes → List Bytes
unfolding getenv putenv
setenv name value overwrite env =
    if not (getenv name env) && not overwrite then env else putenv name (name ++ b'=' ∷ value) env

-- The first loop of `unsetenv`: the strings that it moves to the front.
unfoldable pub kept : Bytes → List Bytes → List Bytes
unfolding strstr
kept name [] = []
kept name (s ∷ ss) = if strstr name s then kept name ss else s ∷ kept name ss

-- The second loop, `while (i < j) environ[i] = NULL`, ends at once or never, which is none.
unfoldable pub unsetenv : Bytes → List Bytes → Option (List Bytes)
unfolding kept
unsetenv name env = if ltb (length (kept name env)) (length env) then none else some (kept name env)
