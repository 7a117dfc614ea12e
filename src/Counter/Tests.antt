-- ===== src/Counter/Tests.antt =====
-- 30-1-changed_simple_thread.c with one loop each, where one addition is lost.
use tlpi_practice.Common.{◌≡◌, ◌≤◌, ◌<◌, ◌*◌, refl, arith}
use tlpi_practice.Counter.{
  plus_one, loads, increments, stores, prints, State, first, second, Reachable, begins, steps, load,
  Returned,
}
use tlpi_practice.Counter.Bounds.{glob-bounds}

-- Both threads load 0 before one of them stores.
lost_update : (s : State) × Reachable 1 s × Returned 1 s.t1 × Returned 1 s.t2 × (s.glob ≡ 1)
unfolding plus_one
lost_update = (
  record {
    glob = 1;
    t1 = record { j = 1; loc = 1; pc = load };
    t2 = record { j = 1; loc = 1; pc = load };
  },
  steps
      (steps
        (steps
          (steps
            (steps
              (steps
                (steps (steps begins (first _ (loads 0 0 0 (omega arith))))
                  (second _ (loads 0 0 0 (omega arith))))
                (first _ (increments 0 0 0)))
              (first _ (stores 0 0 1)))
            (first _ (prints 1 0 1)))
          (second _ (increments 1 0 0)))
        (second _ (stores 1 0 1)))
      (second _ (prints 1 0 1)),
  (refl, refl),
  (refl, refl),
  refl,
)

glob-bounds_example : (0 < lost_update.0.glob) × (lost_update.0.glob ≤ 2 * 1)
glob-bounds_example =
    glob-bounds 1 lost_update.0 (omega arith) (omega arith) lost_update.1 lost_update.2
      lost_update.3
