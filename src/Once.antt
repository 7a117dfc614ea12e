-- ===== src/Once.antt =====
-- 31-1-one_time_init.c: `one_time_init`, called by any number of threads on one control block. Loads
-- and stores of `inited` are single steps, in one order for all threads.
mod Zone
mod Runs
mod Tests
use tlpi_practice.Common.{ℕ, zero, suc, ◌≡◌, refl, Bool, true, false, Option, none, some}
use tlpi_practice.Common.Threads.{put}

-- Where a thread is: before the first test, before the lock, before the second test, before the
-- call of `init`, in it, behind it, before the unlock, and behind it all.
pub data Pc : Type 0 where
  outer_test lock inner_test call calling store unlock returned : Pc

-- `inited` and who holds `lock`, and how often `init` has been called and has returned.
pub record State : Type 0 where
  pub inited : Bool
  pub holder : Option ℕ
  pub called : ℕ
  pub finished : ℕ
  pub pc : ℕ → Pc

abbrev pub start : State
start = record { inited = false; holder = none; called = 0; finished = 0; pc = λ t. outer_test }

abbrev pub at : State → ℕ → Pc → State
at s t p = record s { pc = put s.pc t p }

-- The statement that a thread executes next.
pub data Step : State → State → Type 0 where
  skips : (s : State) (t : ℕ) → s.pc t ≡ outer_test → s.inited ≡ true → Step s (at s t returned)
  enters : (s : State) (t : ℕ) → s.pc t ≡ outer_test → s.inited ≡ false → Step s (at s t lock)
  locks :
      (s : State) (t : ℕ)
      → s.pc t ≡ lock
      → s.holder ≡ none
      → Step s (at (record s { holder = some t }) t inner_test)
  finds_done : (s : State) (t : ℕ) → s.pc t ≡ inner_test → s.inited ≡ true → Step s (at s t unlock)
  finds_undone : (s : State) (t : ℕ) → s.pc t ≡ inner_test → s.inited ≡ false → Step s (at s t call)
  calls :
      (s : State) (t : ℕ)
      → s.pc t ≡ call
      → Step s (at (record s { called = suc s.called }) t calling)
  finishes :
      (s : State) (t : ℕ)
      → s.pc t ≡ calling
      → Step s (at (record s { finished = suc s.finished }) t store)
  stores : (s : State) (t : ℕ) → s.pc t ≡ store → Step s (at (record s { inited = true }) t unlock)
  unlocks :
      (s : State) (t : ℕ) → s.pc t ≡ unlock → Step s (at (record s { holder = none }) t returned)

pub data Reachable : State → Type 0 where
  begins : Reachable start
  steps : {s s' : State} → Reachable s → Step s s' → Reachable s'
