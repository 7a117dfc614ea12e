-- ===== src/Flock/Tests.antt =====
-- 55-2-flock_dead_lock.c, and what it would do with files opened behind `fork`.
use tlpi_practice.Common.{◌≡◌, refl, ◌⊎◌, inl, inr, true, false, some}
use tlpi_practice.Flock.{
  f1, f2, child, parent, second, paused, own, refers, State, Step, locks_first, waits, posts,
  locks_second, Reachable, begins, steps, Stuck,
}
use tlpi_practice.Flock.Progress.{Reachable-goes}

-- Both processes have one lock and have passed the semaphore.
crossed : (s : State) × Reachable true s × (s.at_child ≡ second) × (s.at_parent ≡ second)
unfolding refers
crossed = (
  _,
  steps
      (steps
        (steps
          (steps
            (steps (steps begins (locks_first _ child refl (inl refl)))
              (locks_first _ parent refl (inl refl)))
            (waits _ child 0 refl refl))
          (posts _ child refl))
        (waits _ parent 0 refl refl))
      (posts _ parent refl),
  refl,
  refl,
)

Reachable-goes_example :
    ((crossed.0.at_child ≡ paused) × (crossed.0.at_parent ≡ paused))
    ⊎ ((s' : State) × Step true crossed.0 s')
Reachable-goes_example = Reachable-goes crossed.0 crossed.1

abbrev crossed_own : State
crossed_own = record {
  lock1 = some (own child f1);
  lock2 = some (own parent f2);
  sem = 1;
  at_child = second;
  at_parent = second;
}

-- With files that each process opens itself, the same order of statements ends in a deadlock.
crossed_own_reachable : Reachable false crossed_own
unfolding refers
crossed_own_reachable =
    steps
      (steps
        (steps
          (steps
            (steps (steps begins (locks_first _ child refl (inl refl)))
              (locks_first _ parent refl (inl refl)))
            (waits _ child 0 refl refl))
          (posts _ child refl))
        (waits _ parent 0 refl refl))
      (posts _ parent refl)

crossed_own-Stuck : Stuck false crossed_own
unfolding refers
crossed_own-Stuck _ (locks_first _ child e free) = cc
crossed_own-Stuck _ (locks_first _ parent e free) = cc
crossed_own-Stuck _ (waits _ child n e pos) = cc
crossed_own-Stuck _ (waits _ parent n e pos) = cc
crossed_own-Stuck _ (posts _ child e) = cc
crossed_own-Stuck _ (posts _ parent e) = cc
crossed_own-Stuck _ (locks_second _ child e (inl h)) = cc
crossed_own-Stuck _ (locks_second _ child e (inr h)) = cc
crossed_own-Stuck _ (locks_second _ parent e (inl h)) = cc
crossed_own-Stuck _ (locks_second _ parent e (inr h)) = cc
