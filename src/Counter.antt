-- ===== src/Counter.antt =====
-- 30-1-changed_simple_thread.c: two threads that add to `glob`, each in three statements. Loads and
-- stores of `glob` are single steps, in one order for all threads. `glob` and `loc` are words of 32
-- bits, of which those from 2 ^ 31 on are the negative numbers.
mod Bounds
mod Tests
use tlpi_practice.Common.{ℕ, suc, ◌<◌, ◌≡◌, ◌%◌, ◌^◌}

-- `loc++`
unfoldable pub plus_one : ℕ → ℕ
plus_one loc = suc loc % 2 ^ 32

-- Where a thread is in a round: before the load, the increment, the store, and the call of `printf`.
pub data Pc : Type 0 where
  load increment store print : Pc

-- The locals of `threadFunc`.
pub record Thread : Type 0 where
  pub j : ℕ
  pub loc : ℕ
  pub pc : Pc

-- The next statement of a thread, if its loop is not at its end, with `glob` before and behind it;
-- what is printed is not kept.
pub data Move (loops : ℕ) : ℕ → Thread → ℕ → Thread → Type 0 where
  loads :
      (g j loc : ℕ)
      → j < loops
      → Move loops g
          (record { j = j; loc = loc; pc = load })
          g
          (record { j = j; loc = g; pc = increment })
  increments :
      (g j loc : ℕ)
      → Move loops g
          (record { j = j; loc = loc; pc = increment })
          g
          (record { j = j; loc = plus_one loc; pc = store })
  stores :
      (g j loc : ℕ)
      → Move loops g
          (record { j = j; loc = loc; pc = store })
          loc
          (record { j = j; loc = loc; pc = print })
  prints :
      (g j loc : ℕ)
      → Move loops g
          (record { j = j; loc = loc; pc = print })
          g
          (record { j = suc j; loc = loc; pc = load })

pub record State : Type 0 where
  pub glob : ℕ
  pub t1 : Thread
  pub t2 : Thread

abbrev pub begin : Thread
begin = record { j = 0; loc = 0; pc = load }

abbrev pub start : State
start = record { glob = 0; t1 = begin; t2 = begin }

pub data Step (loops : ℕ) : State → State → Type 0 where
  first :
      {g g' : ℕ} {a a' : Thread} (b : Thread)
      → Move loops g a g' a'
      → Step loops (record { glob = g; t1 = a; t2 = b }) (record { glob = g'; t1 = a'; t2 = b })
  second :
      {g g' : ℕ} (a : Thread) {b b' : Thread}
      → Move loops g b g' b'
      → Step loops (record { glob = g; t1 = a; t2 = b }) (record { glob = g'; t1 = a; t2 = b' })

pub data Reachable (loops : ℕ) : State → Type 0 where
  begins : Reachable loops start
  steps : {s s' : State} → Reachable loops s → Step loops s s' → Reachable loops s'

-- `threadFunc` has left its loop.
abbrev pub Returned : ℕ → Thread → Type 0
Returned loops t = (t.j ≡ loops) × (t.pc ≡ load)
