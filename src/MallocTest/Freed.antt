-- ===== src/MallocTest/Freed.antt =====
-- 7-1-malloc_test.c: the blocks that are freed have been allocated, and none is freed twice.
use tlpi_practice.Common.{
  ℕ, suc, ◌+◌, ◌^◌, ◌≡◌, ◌≤◌, ◌<◌, Bool, true, false, Option, none, some, List, [], ◌∷◌,
  if◌then◌else◌,
}
use tlpi_practice.Common.Disk.{Bytes}
use tlpi_practice.Numbers.{gn_gt_0, value, get_int}
use tlpi_practice.Numbers.Long.{ℤ}
use tlpi_practice.MallocTest.{max_allocs, Outcome, frees, overflows, runs_on, count, nth}

-- Indices from `low` on, each above the one before it, below `high`.
unfoldable pub Ascending : ℕ → ℕ → List ℕ → Type 0
Ascending low high [] = Unit {0}
Ascending low high (j ∷ js) = (low ≤ j) × (j < high) × Ascending (suc j) high js

unfoldable pub Safe : ℕ → Outcome → Type 0
Safe low (frees num js) = Ascending low num js
Safe low runs_on = ⊥
Safe low overflows = ⊥
Safe low _ = Unit {0}

-- An outcome that is safe from `j` on, and is for `num` blocks.
unfoldable SafeFor : ℕ → ℕ → Outcome → Type 0
SafeFor num low (frees n js) = (n ≡ num) × Ascending low num js
SafeFor num low runs_on = ⊥
SafeFor num low overflows = ⊥
SafeFor num low _ = Unit {0}

either :
    (num low : ℕ) (b : Bool) (x y : Outcome)
    → SafeFor num low x
    → SafeFor num low y
    → SafeFor num low (if b then x else y)
either num low true x y p q = p
either num low false x y p q = q

-- A step that is given and that getInt lets through leaves room below INT_MAX for an index.
unfoldable pub SmallStep : Option Bytes → Type 0
SmallStep none = Unit {0}
SmallStep (some arg) =
    (n : ℤ) → get_int (some arg) gn_gt_0 ≡ value n → count n + max_allocs < 2 ^ 31

abbrev pub step_arg : List Bytes → Option Bytes
step_arg (num_arg ∷ size_arg ∷ more) = nth 0 more
step_arg _ = none
