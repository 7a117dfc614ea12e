-- ===== src/Realpath.antt =====
-- 18-3-my_realpath.c: `realpath`, over the bytes before the NUL of its buffer. A path of 4096 bytes
-- and more, which the system takes nowhere, and a result of that length are left out.
mod Parts
mod Tests
use tlpi_practice.Common.{
  ℕ, zero, suc, ◌+◌, Bool, true, false, Option, none, some, List, [], ◌∷◌, ◌++◌, length, drop, ◌==◌,
  map, if◌then◌else◌,
}
use tlpi_practice.Common.CString.{cstring}
use tlpi_practice.Common.Disk.{Bytes}

-- What `lstat` and `readlink` tell of a path.
pub data Status : Type 0 where
  missing plain unreadable_link : Status
  link : Bytes → Status

pub data Failure : Type 0 where
  getcwd_fails lstat_fails readlink_fails : Failure

pub data Result : Type 0 where
  returns : Bytes → Result
  exits : Failure → Result
  -- the fuel is used up
  runs_on : Result

-- `if (*p == '/') *p = '\0'`
abbrev pub without_slash : ℕ → ℕ
without_slash b = if b == b'/' then 0 else b

abbrev pub begins_with_slash : Bytes → Bool
begins_with_slash [] = false
begins_with_slash (b ∷ bs) = b == b'/'

-- The path that a part leads to behind `resolve_path`, with the link that it may be.
unfoldable pub step : (Bytes → Status) → Bytes → Bytes → Result
step status resolve_path part =
    let whole = resolve_path ++ b'/' ∷ part in
    elim (status whole) [
      | missing ↦ exits lstat_fails
      | plain ↦ returns whole
      | unreadable_link ↦ exits readlink_fails
      | link target ↦
          if begins_with_slash target
          then returns target
          else returns (resolve_path ++ b'/' ∷ target)
    ]

-- `for (p = _path; *p != '\0'; p += strlen(p) + 1)`, where the list holds the bytes from `p` on, and
-- NULs behind them.
unfoldable pub walk : (Bytes → Status) → ℕ → Bytes → Bytes → Result
unfolding step
walk status zero p resolve_path = runs_on
walk status (suc fuel) p resolve_path = elim (cstring p) [
  | [] ↦ returns resolve_path
  | b ∷ bs ↦ elim (step status resolve_path (b ∷ bs)) [
    | returns resolved ↦ walk status fuel (drop (length (b ∷ bs) + 1) p) resolved
    | exits f ↦ exits f
    | runs_on ↦ runs_on
  ]
]

-- `resolve_path` is filled with NULs to begin with. A part has a byte at least, so that as many
-- rounds as the path has bytes, and one, are enough.
unfoldable pub realpath : (Bytes → Status) → Option Bytes → Bytes → Result
unfolding walk
realpath status cwd path =
    let start : Option Bytes = if begins_with_slash path then some [] else cwd in
    elim start [
      | none ↦ exits getcwd_fails
      | some resolve_path ↦ walk status (suc (length path)) (map without_slash path) resolve_path
    ]
