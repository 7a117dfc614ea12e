-- ===== src/Ttyname.antt =====
-- 62-2-do_ttyname.c: `my_ttyname`, which looks for the device below /dev and then below /dev/pts.
mod Finds
mod Tests
use tlpi_practice.Common.{
  ℕ, zero, suc, Bool, true, false, Option, none, some, List, [], ◌∷◌, ◌++◌, ◌==◌, replicate,
  if◌then◌else◌,
}
use tlpi_practice.Common.Disk.{Bytes, overlay}
use tlpi_practice.Common.Text.{text}

-- An entry of a directory, with the `st_rdev` that `stat` gives.
pub record Item : Type 0 where
  pub name : Bytes
  pub rdev : Option ℕ

-- What `opendir` and the calls of `readdir` give: the entries, and whether the last call fails.
pub record Directory : Type 0 where
  pub items : List Item
  pub broken : Bool

abbrev pub path_max : ℕ
path_max = 4096

-- `strcpy(res + at, s)`
abbrev pub strcpy : Bytes → ℕ → Bytes → Bytes
strcpy res at s = overlay res at (s ++ 0 ∷ [])

pub data Search : Type 0 where
  -- `res` is returned, as it is then
  returns : Bytes → Search
  null : Search
  missing : Search

-- One of the two loops, which puts a name that it finds at `at`.
unfoldable pub search : ℕ → ℕ → Bytes → Bool → List Item → Search
search wanted at res broken [] = if broken then null else missing
search wanted at res broken (e ∷ es) = elim e.rdev [
  | none ↦ null
  | some rdev ↦
      if rdev == wanted then returns (strcpy res at e.name) else search wanted at res broken es
]

-- The array `res` behind `memset` and the first `strcpy`.
unfoldable pub initial : Bytes
initial = strcpy (replicate path_max 0) 0 (text "/dev/")

-- The result: the array that is returned, or none for NULL. An `opendir` of /dev/pts that fails is
-- left out, as the code does not look at it.
unfoldable pub my_ttyname : Option ℕ → Option Directory → Directory → Option Bytes
unfolding search initial
my_ttyname none dev pts = none
my_ttyname (some rdev) none pts = none
my_ttyname (some rdev) (some dev) pts = elim (search rdev 5 initial dev.broken dev.items) [
  | returns res ↦ some res
  | null ↦ none
  | missing ↦ elim (search rdev 9 (strcpy initial 4 (text "/pts")) pts.broken pts.items) [
    | returns res ↦ some res
    | null ↦ none
    | missing ↦ none
  ]
]
