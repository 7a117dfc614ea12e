-- ===== src/Semaphore.antt =====
-- 47-4-reserverSemNB.c: binary semaphores on one semaphore of System V, and 47-2-sync_with_sem.c, a
-- parent that waits for its child on one.
mod Undo
mod Waits
mod Tests
use tlpi_practice.Common.{
  ℕ, zero, suc, ◌+◌, ◌-◌, Bool, true, false, ◌||◌, not, Option, none, some, List, [], ◌∷◌,
  if◌then◌else◌,
}

-- The semaphore, and what is undone when the process ends: how much is given back and taken away
-- for its operations with SEM_UNDO.
pub record Sem : Type 0 where
  pub value : ℕ
  pub give_back : ℕ
  pub take_away : ℕ

pub data Errno : Type 0 where
  eintr eagain : Errno

-- A call returns 0 or -1 with `errno`, or it still waits.
pub data Result : Type 0 where
  done : Sem → Result
  fails : Errno → Sem → Result
  waits : Sem → Result

-- What happens while a call waits: a signal with a handler, or a release by another process.
pub data Event : Type 0 where
  signal released : Event

-- `bsUseSemUndo` and `bsRetryOnEintr`.
pub record Flags : Type 0 where
  pub undo : Bool
  pub retry : Bool

abbrev pub defaults : Flags
defaults = record { undo = false; retry = true }

-- SETVAL, which also clears what is to be undone.
abbrev pub init_sem_available : Sem
init_sem_available = record { value = 1; give_back = 0; take_away = 0 }

abbrev pub init_sem_in_use : Sem
init_sem_in_use = record { value = 0; give_back = 0; take_away = 0 }

-- `semop` with -1 where the value allows it.
abbrev pub taken : Bool → ℕ → Sem → Sem
taken undo left s = record s {
  value = left;
  give_back = if undo then suc s.give_back else s.give_back;
}

-- The loop around `semop`, from a value and with the events to come.
unfoldable pub reserve_from : Flags → ℕ → List Event → Sem → Result
reserve_from f (suc left) es s = done (taken f.undo left s)
reserve_from f zero [] s = waits (record s { value = 0 })
reserve_from f zero (signal ∷ es) s =
    let again = reserve_from f zero es s in
    if f.retry then again else fails eintr (record s { value = 0 })
reserve_from f zero (released ∷ es) s = done (taken f.undo 0 s)

unfoldable pub reserve_sem : Flags → List Event → Sem → Result
unfolding reserve_from
reserve_sem f es s = reserve_from f s.value es s

-- With IPC_NOWAIT, and without SEM_UNDO.
unfoldable pub reserve_sem_nb : Sem → Result
reserve_sem_nb s = elim s.value [ zero ↦ fails eagain s | suc left ↦ done (taken false left s) ]

unfoldable pub release_sem : Flags → Sem → Result
release_sem f s =
    done (record s {
      value = suc s.value;
      take_away = if f.undo then suc s.take_away else s.take_away;
    })

-- The end of the process.
abbrev pub exit_value : Sem → ℕ
exit_value s = s.value + s.give_back - s.take_away

-- The calls of one process, until one waits.
pub data Op : Type 0 where
  reserve : List Event → Op
  reserve_nb release : Op

unfoldable pub call : Flags → Op → Sem → Result
unfolding reserve_sem reserve_sem_nb release_sem
call f (reserve es) s = reserve_sem f es s
call f reserve_nb s = reserve_sem_nb s
call f release s = release_sem f s

unfoldable pub after : Result → Sem
after (done s) = s
after (fails e s) = s
after (waits s) = s

unfoldable pub is_waiting : Result → Bool
is_waiting (waits s) = true
is_waiting _ = false

unfoldable pub calls : Flags → List Op → Sem → Sem
unfolding call after is_waiting
calls f [] s = s
calls f (op ∷ ops) s =
    let r = call f op s in
    let rest = calls f ops (after r) in if is_waiting r then after r else rest

-- 47-2-sync_with_sem.c: the child's `semop` with +1, after its work, and the loop of the parent,
-- which always tries again after a signal.
abbrev pub child_finishes : Sem → Result
child_finishes s = release_sem defaults s

abbrev pub parent_waits : List Event → Result
parent_waits es = reserve_sem defaults es init_sem_in_use
