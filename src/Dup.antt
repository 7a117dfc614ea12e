-- ===== src/Dup.antt =====
-- 5-4-fcntl_to_dup.c: `dup` and `dup2` by `fcntl`, over the table of descriptors of a process.
mod Refines
mod Tests
use tlpi_practice.Common.{
  ℕ, zero, suc, ◌-◌, Bool, true, false, Option, none, some, ltb, ◌==◌, if◌then◌else◌,
}
use tlpi_practice.Common.Threads.{put}

-- The open file of each descriptor.
abbrev pub Table : Type 0
Table = ℕ → Option ℕ

-- `errno` behind a call; `as_before` where it has not been set.
pub data Errno : Type 0 where
  ebadf einval emfile as_before : Errno

-- A new descriptor, or -1 with `errno`; and the table after the call.
pub data Result : Type 0 where
  fd : ℕ → Table → Result
  fails : Errno → Table → Result

-- The lowest free descriptor of the `n` from `from` on.
unfoldable pub lowest_free : ℕ → ℕ → Table → Option ℕ
lowest_free zero from t = none
lowest_free (suc n) from t =
    let rest = lowest_free n (suc from) t in elim (t from) [ none ↦ some from | some file ↦ rest ]

-- `fcntl (old, F_DUPFD, from)` of the system, with `limit` descriptors.
unfoldable pub f_dupfd : ℕ → ℕ → ℕ → Table → Result
unfolding lowest_free
f_dupfd limit old from t = elim (t old) [
  | none ↦ fails ebadf t
  | some file ↦
      if ltb from limit
      then elim (lowest_free (limit - from) from t) [
        | none ↦ fails emfile t
        | some new ↦ fd new (put t new (some file))
      ]
      else fails einval t
]

-- `fcntl (fd, F_GETFL)`, as a test of whether the descriptor is open.
unfoldable pub is_open : ℕ → Table → Bool
is_open d t = elim (t d) [ none ↦ false | some file ↦ true ]

abbrev pub close : ℕ → Table → Table
close d t = put t d none

unfoldable pub mydup : ℕ → ℕ → Table → Result
mydup limit oldfd t = f_dupfd limit oldfd 0 t

-- A negative `newfd` is `none`.
unfoldable pub mydup2 : ℕ → ℕ → Option ℕ → Table → Result
unfolding f_dupfd is_open
mydup2 limit oldfd none t = fails as_before t
mydup2 limit oldfd (some newfd) t =
    if is_open oldfd t
    then (if oldfd == newfd
        then fd newfd t
        else f_dupfd limit oldfd newfd (if is_open newfd t then close newfd t else t))
    else fails ebadf t
