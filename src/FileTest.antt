-- ===== src/FileTest.antt =====
-- 14-1-file_create_test.c: create `nf` files of random names, remember the names in order, and
-- remove the files in that order.
mod Names
mod Restores
mod Tests
use tlpi_practice.Common.{
  ℕ, zero, suc, ◌+◌, ◌/◌, ◌%◌, Bool, true, false, not, ◌||◌, Option, none, some, List, [], ◌∷◌, ltb,
  if◌then◌else◌,
}
use tlpi_practice.Common.Disk.{Bytes}
use tlpi_practice.Common.CString.{strcmp, is_negative, is_zero}

-- The names of the files of the directory.
abbrev pub Directory : Type 0
Directory = List Bytes

pub has_file : Bytes → Directory → Bool
has_file name [] = false
has_file name (f ∷ fs) = is_zero (strcmp name f) || has_file name fs

-- `unlink`, which fails on a name that is not there.
pub unlink : Bytes → Directory → Option Directory
unlink name [] = none
unlink name (f ∷ fs) =
    let rest = unlink name fs in
    if is_zero (strcmp name f)
    then some fs
    else elim rest [ none ↦ none | some fs' ↦ some (f ∷ fs') ]

-- The list behind the header node `arr`.
unfoldable pub insert : Bytes → List Bytes → List Bytes
insert filename [] = filename ∷ []
insert filename (p ∷ ps) =
    if is_negative (strcmp filename p) then filename ∷ p ∷ ps else p ∷ insert filename ps

abbrev digit : ℕ → ℕ
digit n = b'0' + n % 10

-- `snprintf (filename, 8, "x%06d", code)`, where `code` has six digits at most.
unfoldable pub filename : ℕ → Bytes
filename code =
    b'x'
    ∷ digit (code / 100000)
    ∷ digit (code / 10000)
    ∷ digit (code / 1000)
    ∷ digit (code / 100)
    ∷ digit (code / 10)
    ∷ digit code
    ∷ []

-- How a run ends, with the directory it leaves; `waiting` is a loop that wants more numbers.
pub data Result {ℓ} (A : Type ℓ) : Type ℓ where
  ok : A → Result A
  usage_err : Result A
  err_exit : Directory → Result A
  waiting : Directory → Result A

-- What `rand` returns in one round, and whether `open` and `write` work where no file of the
-- name is there.
pub record Round : Type 0 where
  pub rand : ℕ
  pub opens : Bool
  pub writes : Bool

-- The loop that creates the files, with `n` of them to go.
pub create : ℕ → List Round → Directory → List Bytes → Result (Directory × List Bytes)
unfolding has_file insert filename
create zero rounds dir arr = ok (dir, arr)
create (suc n) [] dir arr = waiting dir
create (suc n) (r ∷ rounds) dir arr =
    let name = filename (r.rand % 1000000) in
    elim (has_file name dir) [
      | true ↦ create (suc n) rounds dir arr
      | false ↦
          if not r.opens
          then err_exit dir
          else if not r.writes
          then err_exit (name ∷ dir)
          else create n rounds (name ∷ dir) (insert name arr)
    ]

-- The loop that removes them.
pub remove : List Bytes → Directory → Result Directory
unfolding unlink
remove [] dir = ok dir
remove (p ∷ ps) dir = elim (unlink p dir) [ none ↦ err_exit dir | some dir' ↦ remove ps dir' ]

-- `main` between its two calls of `gettimeofday`, for a directory.
unfoldable pub run : ℕ → List Round → Directory → Result Directory
unfolding create remove
run nf rounds dir = elim (create nf rounds dir []) [
  | ok (dir', arr) ↦ remove arr dir'
  | usage_err ↦ usage_err
  | err_exit dir' ↦ err_exit dir'
  | waiting dir' ↦ waiting dir'
]

-- `main` from the test of `nf` on, which is 0 here where `atoi` returns less.
unfoldable pub main : ℕ → List Round → Directory → Result Directory
unfolding run
main nf rounds dir = if ltb nf 1000 || ltb 20000 nf then usage_err else run nf rounds dir
