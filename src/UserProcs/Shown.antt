-- ===== src/UserProcs/Shown.antt =====
-- 12-1-show_user_procs.c: what `main` prints for a directory of processes.
use tlpi_practice.Common.{
  ℕ, ◌≡◌, Bool, true, false, Bool-cases, Option, none, some, inl, inr, List, [], ◌∷◌, ◌++◌,
}
use mathlib.Core.List.{append_assoc, append-nil}
use tlpi_practice.Common.CString.{strcmp, is_zero}
use tlpi_practice.Common.Disk.{Bytes, overlay}
use tlpi_practice.Common.Text.{text}
use tlpi_practice.UserProcs.{
  read_loop, behind_scan, close_file, visit, show, System, Run, returns, main, fresh, filename,
  is_dot,
}
use tlpi_practice.UserProcs.Status.{Process, status, Good, is_of, shown, scan-status}

read_loop-status :
    (uid : ℕ) (ends : Bool) (b : ℕ) (bs : Bytes) (more : List Bytes) (stale : Bytes) (p : Process)
    (out : Bytes) (k : Bytes → Run)
    → overlay stale 0 (b ∷ bs) ≡ status p
    → Good p
    → close_file true (read_loop uid ends ((b ∷ bs) ∷ more) stale (fresh out)) k
      ≡ k (out ++ shown uid p)
unfolding read_loop close_file behind_scan
read_loop-status uid ends b bs more stale p out k e good =
    rw (e, scan-status uid p out good)
      (elim (Bool-cases (is_of uid p)) [ inl h ↦ rw h | inr h ↦ rw (h, append-nil out) ])

-- The names of the directory, with what the program prints for them: nothing for `.` and `..`, and
-- for what has no status to be opened; and for a process its name, if the uid is that of the user.
pub data Listed (sys : System) (uid : ℕ) : List Bytes → Bytes → Type 0 where
  done : Listed sys uid [] []
  dot :
      (d : Bytes) (ds : List Bytes) (out : Bytes)
      → is_dot d ≡ true
      → Listed sys uid ds out
      → Listed sys uid (d ∷ ds) out
  unopened :
      (d : Bytes) (ds : List Bytes) (out : Bytes)
      → is_dot d ≡ false
      → sys.opens (filename d) ≡ none
      → Listed sys uid ds out
      → Listed sys uid (d ∷ ds) out
  process :
      (d : Bytes) (ds : List Bytes) (out : Bytes) (p : Process) (b : ℕ) (bs : Bytes)
      (more : List Bytes) (ends : Bool)
      → is_dot d ≡ false
      → sys.opens (filename d) ≡ some (record { parts = (b ∷ bs) ∷ more; ends = ends })
      → sys.closes (filename d) ≡ true
      → overlay (sys.stale (filename d)) 0 (b ∷ bs) ≡ status p
      → Good p
      → Listed sys uid ds out
      → Listed sys uid (d ∷ ds) (shown uid p ++ out)

show-Listed :
    (sys : System) (uid : ℕ) (names : List Bytes) (out before : Bytes)
    → sys.readdir_fails ≡ false
    → Listed sys uid names out
    → show sys uid names before ≡ returns (before ++ out)
unfolding show visit
show-Listed sys uid _ _ before r done = rw (r, append-nil before)
show-Listed sys uid _ _ before r (dot d ds out e rest) =
    rw e (show-Listed sys uid ds out before r rest)
show-Listed sys uid _ _ before r (unopened d ds out e o rest) =
    rw (e, o) (show-Listed sys uid ds out before r rest)
show-Listed sys uid _ _ before r (process d ds out p b bs more ends e o c s good rest) = rw (
  e,
  o,
  c,
  read_loop-status uid ends b bs more (sys.stale (filename d)) p before (show sys uid ds) s good,
  show-Listed sys uid ds out (before ++ shown uid p) r rest,
  append_assoc before (shown uid p) out,
)

-- For a user that the password file has, and a directory that is read to its end without an error,
-- whose names are each `.` or `..`, a name with no status to be opened, or a process whose status
-- file is closed without an error and whose name and uid stand in whole lines of the buffer behind
-- the first read, with no such words in its other whole lines and no line longer than the arrays:
-- `main` returns, and prints the names of exactly the processes with the uid of the user, in the
-- order of the directory, each in a line.
pub main-Listed :
    (sys : System) (getpwnam : Bytes → Option ℕ) (username : Bytes) (uid : ℕ) (names : List Bytes)
    (out : Bytes)
    → is_zero (strcmp username (text "--help")) ≡ false
    → getpwnam username ≡ some uid
    → sys.readdir_fails ≡ false
    → Listed sys uid names out
    → main sys getpwnam (some names) (username ∷ []) ≡ returns out
unfolding main
main-Listed sys getpwnam username uid names out h g r l =
    rw (h, g, show-Listed sys uid names out [] r l)
