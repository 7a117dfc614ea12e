-- ===== src/Semaphore/Tests.antt =====
-- 47-4-reserverSemNB.c and 47-2-sync_with_sem.c, with signals and with SEM_UNDO.
use tlpi_practice.Common.{◌≡◌, refl, true, [], ◌∷◌}
use tlpi_practice.Semaphore.{
  signal, released, Flags, done, fails, eagain, reserve_from, reserve_sem, reserve_sem_nb,
  release_sem, reserve, reserve_nb, release, call, calls, after, is_waiting, exit_value,
  init_sem_available, init_sem_in_use, parent_waits,
}
use tlpi_practice.Semaphore.Undo.{awaited, awaited_by, awaited_from, Blocking, calls-exit_value}

abbrev undoes : Flags
undoes = record { undo = true; retry = true }

-- The parent waits through a signal for its child.
parent_goes_on : parent_waits (signal ∷ released ∷ []) ≡ done init_sem_in_use
unfolding reserve_sem reserve_from
parent_goes_on = refl

no_wait : reserve_sem_nb init_sem_in_use ≡ fails eagain init_sem_in_use
unfolding reserve_sem_nb
no_wait = refl

-- Reserved by `reserveSemNB` and released: the end of the process takes it away again.
nb_is_not_undone : exit_value (calls undoes (reserve_nb ∷ release ∷ []) init_sem_available) ≡ 0
unfolding calls call reserve_sem_nb release_sem after is_waiting
nb_is_not_undone = refl

calls-exit_value_example :
    exit_value
      (calls undoes (reserve [] ∷ reserve (released ∷ []) ∷ release ∷ []) init_sem_available)
    ≡ 2
unfolding awaited awaited_by awaited_from Blocking call reserve_sem release_sem reserve_from after
    is_waiting
calls-exit_value_example =
    calls-exit_value undoes (reserve [] ∷ reserve (released ∷ []) ∷ release ∷ []) init_sem_available
      refl tt refl refl
