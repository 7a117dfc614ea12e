-- ===== src/Once/Tests.antt =====
-- 31-1-one_time_init.c with two threads that both pass the first test.
use tlpi_practice.Common.{◌≡◌, ◌≤◌, refl}
use tlpi_practice.Once.{
  returned, State, enters, locks, finds_done, finds_undone, calls, finishes, stores, unlocks,
  Reachable, begins, steps,
}
use tlpi_practice.Once.Runs.{called-le_one, returned-finished}

-- Both threads pass the first test, the first of them runs `init`, and the second waits for the
-- lock and finds that it has been run.
both_pass : (s : State) × Reachable s × (s.called ≡ 1) × (s.pc 0 ≡ returned) × (s.pc 1 ≡ returned)
both_pass = (
  _,
  steps
      (steps
        (steps
          (steps
            (steps
              (steps
                (steps
                  (steps
                    (steps (steps (steps begins (enters _ 0 refl refl)) (enters _ 1 refl refl))
                      (locks _ 0 refl refl))
                    (finds_undone _ 0 refl refl))
                  (calls _ 0 refl))
                (finishes _ 0 refl))
              (stores _ 0 refl))
            (unlocks _ 0 refl))
          (locks _ 1 refl refl))
        (finds_done _ 1 refl refl))
      (unlocks _ 1 refl),
  refl,
  refl,
  refl,
)

called-le_one_example : both_pass.0.called ≤ 1
called-le_one_example = called-le_one both_pass.0 both_pass.1

returned-finished_example : (both_pass.0.called ≡ 1) × (both_pass.0.finished ≡ 1)
returned-finished_example = returned-finished both_pass.0 1 both_pass.1 both_pass.4
