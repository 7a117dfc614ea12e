-- ===== src/Flock.antt =====
-- 55-2-flock_dead_lock.c: two processes that lock two files in opposite orders. The files are opened
-- before `fork`, so that the descriptors of both processes refer to the same open files.
mod Progress
mod Tests
use tlpi_practice.Common.{ℕ, zero, suc, ◌+◌, ◌≡◌, Bool, true, false, ◌⊎◌, Option, none, some}

pub data File : Type 0 where
  f1 f2 : File

pub data Process : Type 0 where
  child parent : Process

-- Before the first lock, `sem_wait`, `sem_post` and the second lock, and in `pause`.
pub data Pc : Type 0 where
  first wait post second paused : Pc

-- An open file; it, not a process, holds a lock of `flock`.
pub data Opened : Type 0 where
  shared : File → Opened
  own : Process → File → Opened

-- What a descriptor of a process refers to, by whether the files were opened before `fork`.
unfoldable pub refers : Bool → Process → File → Opened
refers true p f = shared f
refers false p f = own p f

abbrev pub first_file : Process → File
first_file child = f1
first_file parent = f2

abbrev pub second_file : Process → File
second_file child = f2
second_file parent = f1

pub record State : Type 0 where
  pub lock1 : Option Opened
  pub lock2 : Option Opened
  pub sem : ℕ
  pub at_child : Pc
  pub at_parent : Pc

-- `sem_open` with the value 1, and then `fork`.
abbrev pub start : State
start = record { lock1 = none; lock2 = none; sem = 1; at_child = first; at_parent = first }

abbrev pub lock_of : State → File → Option Opened
lock_of s f1 = s.lock1
lock_of s f2 = s.lock2

abbrev pub set_lock : State → File → Opened → State
set_lock s f1 o = record s { lock1 = some o }
set_lock s f2 o = record s { lock2 = some o }

abbrev pub pc_of : State → Process → Pc
pc_of s child = s.at_child
pc_of s parent = s.at_parent

abbrev pub goto : State → Process → Pc → State
goto s child c = record s { at_child = c }
goto s parent c = record s { at_parent = c }

-- `flock` goes on where no other open file holds the lock.
abbrev pub Free : State → File → Opened → Type 0
Free s f o = (lock_of s f ≡ none) ⊎ (lock_of s f ≡ some o)

-- The statement that a process executes next.
pub data Step (before_fork : Bool) : State → State → Type 0 where
  locks_first :
      (s : State) (p : Process)
      → pc_of s p ≡ first
      → Free s (first_file p) (refers before_fork p (first_file p))
      → Step before_fork s
          (goto (set_lock s (first_file p) (refers before_fork p (first_file p))) p wait)
  waits :
      (s : State) (p : Process) (n : ℕ)
      → pc_of s p ≡ wait
      → s.sem ≡ suc n
      → Step before_fork s (goto (record s { sem = n }) p post)
  posts :
      (s : State) (p : Process)
      → pc_of s p ≡ post
      → Step before_fork s (goto (record s { sem = suc s.sem }) p second)
  locks_second :
      (s : State) (p : Process)
      → pc_of s p ≡ second
      → Free s (second_file p) (refers before_fork p (second_file p))
      → Step before_fork s
          (goto (set_lock s (second_file p) (refers before_fork p (second_file p))) p paused)

pub data Reachable (before_fork : Bool) : State → Type 0 where
  begins : Reachable before_fork start
  steps :
      {s s' : State} → Reachable before_fork s → Step before_fork s s' → Reachable before_fork s'

-- No process can go on.
abbrev pub Stuck : Bool → State → Type 0
Stuck before_fork s = (s' : State) → ¬ Step before_fork s s'
