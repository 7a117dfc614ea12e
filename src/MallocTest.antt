-- ===== src/MallocTest.antt =====
-- 7-1-malloc_test.c: which of the blocks are freed, by the numeric arguments.
mod Freed
mod Tests
use tlpi_practice.Common.{
  ℕ, zero, suc, ◌+◌, ◌-◌, ◌^◌, Bool, true, false, Option, none, some, List, [], ◌∷◌, ltb,
  if◌then◌else◌,
}
use tlpi_practice.Common.Disk.{Bytes}
use tlpi_practice.Numbers.{gn_gt_0, gn_any_base, Result, value, gn_fail, Message, get_int}
use tlpi_practice.Numbers.Long.{ℤ, pos, negsuc}

abbrev pub max_allocs : ℕ
max_allocs = 1000000

pub data Outcome : Type 0 where
  usage : Outcome
  bad_number : Message → Outcome
  too_many_allocs free_max_too_large malloc_fails : Outcome
  -- how many blocks have been allocated, and the indices of those that are freed, in their order
  frees : ℕ → List ℕ → Outcome
  -- `j += freeStep` passes INT_MAX
  overflows : Outcome
  -- the fuel is used up
  runs_on : Outcome

-- An `int`; getInt lets no negative one through with GN_GT_0.
abbrev pub count : ℤ → ℕ
count (pos n) = n
count (negsuc n) = 0

-- What getInt makes of an argument, or what stands for one that is missing.
unfoldable pub number : Option Bytes → ℕ → ℕ → (ℕ → Outcome) → Outcome
number none flags default k = k default
number (some arg) flags default k = elim (get_int (some arg) flags) [
  | value n ↦ k (count n)
  | gn_fail m ↦ bad_number m
]

abbrev pub add_index : ℕ → Outcome → Outcome
add_index j o = elim o [ frees n js ↦ frees n (j ∷ js) | o' ↦ o' ]

-- `for (j = freeMin - 1; j < freeMax; j += freeStep)`
unfoldable pub free_loop : ℕ → ℕ → ℕ → ℕ → ℕ → Outcome
free_loop zero num step max j = runs_on
free_loop (suc fuel) num step max j =
    let rest = free_loop fuel num step max (j + step) in
    if ltb j max
    then (if ltb (j + step) (2 ^ 31) then add_index j rest else overflows)
    else frees num []

-- Behind the arguments; `allocates` is whether every malloc works. A round moves on by 1 at least, so
-- that one round more than `max` is enough.
unfoldable pub run : Bool → ℕ → ℕ → ℕ → ℕ → Outcome
unfolding free_loop
run allocates num step min max =
    if ltb num max
    then free_max_too_large
    else if allocates
    then free_loop (suc max) num step max (min - 1)
    else malloc_fails

abbrev pub nth : ℕ → List Bytes → Option Bytes
nth n [] = none
nth zero (a ∷ as') = some a
nth (suc n) (a ∷ as') = nth n as'

-- `main`, from `argv[1]` on.
unfoldable pub main : Bool → List Bytes → Outcome
unfolding number run
main allocates (num_arg ∷ size_arg ∷ more) = number (some num_arg) gn_gt_0 0 (λ num.
    if ltb max_allocs num
    then too_many_allocs
    else number (some size_arg) (gn_gt_0 + gn_any_base) 0 (λ size.
      number (nth 0 more) gn_gt_0 1 (λ step.
        number (nth 1 more) gn_gt_0 1
          (λ min. number (nth 2 more) gn_gt_0 num (λ max. run allocates num step min max)))))
main allocates _ = usage
