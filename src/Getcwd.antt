-- ===== src/Getcwd.antt =====
-- 18-5-my_getcwd.c: `m_getcwd`, which climbs to the root and looks for each directory in the one
-- above it.
mod Climb
pub mod PathText
mod Tests
use tlpi_practice.Common.{
  ℕ, zero, suc, ◌+◌, Bool, true, false, ◌&&◌, Option, none, some, List, [], ◌∷◌, ◌++◌, leb, ◌==◌,
  length, if◌then◌else◌,
}
use tlpi_practice.Common.CString.{cstring}
use tlpi_practice.Common.Disk.{Bytes, overlay}

pub record Stat : Type 0 where
  pub dev : ℕ
  pub ino : ℕ

abbrev pub same : Stat → Stat → Bool
same a b = (a.dev == b.dev) && (a.ino == b.ino)

-- What `readdir` gives: a name, with what `lstat` tells of it.
pub record Item : Type 0 where
  pub name : Bytes
  pub lstat : Option Stat

-- The directories, by number: what `stat` tells of each, the one above it, whether `chdir` may go
-- there, and what is listed, with whether `readdir` ends with an error.
pub record System : Type 0 where
  pub stat : ℕ → Option Stat
  pub parent : ℕ → ℕ
  pub may_enter : ℕ → Bool
  pub items : ℕ → List Item
  pub broken : ℕ → Bool

pub data Failure : Type 0 where
  stat_fails chdir_fails readdir_fails lstat_fails not_found : Failure

pub data Search : Type 0 where
  found : Bytes → Search
  stops : Failure → Search

-- The loop over the entries of the upper directory.
unfoldable pub find_ent : Stat → Bool → List Item → Search
find_ent s broken [] = stops (if broken then readdir_fails else not_found)
find_ent s broken (e ∷ es) = elim e.lstat [
  | none ↦ stops lstat_fails
  | some t ↦ if same t s then found e.name else find_ent s broken es
]

pub data Climbed : Type 0 where
  at_root : List Bytes → Climbed
  failed : Failure → Climbed
  -- the fuel is used up
  runs_on : Climbed

-- `while (1)`: the list behind `header` grows at its front.
unfoldable pub climb : ℕ → System → ℕ → List Bytes → Climbed
unfolding find_ent
climb zero sys d names = runs_on
climb (suc fuel) sys d names = elim (sys.stat d) [
  | none ↦ failed stat_fails
  | some local ↦ elim (sys.stat (sys.parent d)) [
    | none ↦ failed stat_fails
    | some upper ↦
        if same local upper
        then at_root names
        else if sys.may_enter (sys.parent d)
        then elim (find_ent local (sys.broken (sys.parent d)) (sys.items (sys.parent d))) [
          | found name ↦ climb fuel sys (sys.parent d) (name ∷ names)
          | stops f ↦ failed f
        ]
        else failed chdir_fails
  ]
]

pub data Result : Type 0 where
  -- the memory behind `buf` when it is returned
  returns : Bytes → Result
  -- NULL, with errno ERANGE
  erange : Result
  exits : Failure → Result
  no_end : Result

-- The loop over the list: the bytes that are put into `buf`, and the offset behind them.
unfoldable pub put_names : List Bytes → ℕ → Bytes → Result
put_names [] offset buf = returns buf
put_names (name ∷ names) offset buf =
    let slash = overlay buf offset (b'/' ∷ []) in
    let copied = overlay slash (suc offset) (name ++ 0 ∷ []) in
    let rest = put_names names (length (cstring copied)) copied in
    if leb (length buf) (offset + length name + 1) then erange else rest

-- `buf` is as large as `size` says.
unfoldable pub m_getcwd : ℕ → System → ℕ → Bytes → Result
unfolding climb put_names
m_getcwd fuel sys d buf = elim (climb fuel sys d []) [
  | at_root names ↦ put_names names 0 buf
  | failed f ↦ exits f
  | runs_on ↦ no_end
]
