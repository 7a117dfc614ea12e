-- ===== src/MallocTest/Tests.antt =====
-- 7-1-malloc_test.c for five blocks.
use tlpi_practice.Common.{ℕ, ◌≡◌, refl, true, [], ◌∷◌}
use tlpi_practice.Common.Text.{text}
use tlpi_practice.Numbers.{Result, value, gn_fail, get_int, get_num}
use tlpi_practice.Numbers.Long.{
  strtol, convert, scan, skip_spaces, split_sign, split_base, digit_in,
}
use tlpi_practice.MallocTest.{count, frees, number, free_loop, run, main, overflows}

every_second : main true (text "5" ∷ text "64" ∷ text "2" ∷ []) ≡ frees 5 (0 ∷ 2 ∷ 4 ∷ [])
unfolding main number run free_loop get_int get_num strtol convert scan skip_spaces split_sign
    split_base digit_in text
every_second = refl

-- The largest step is one too large for the index.
large_step : free_loop 6 5 2147483647 5 1 ≡ overflows
unfolding free_loop
large_step = refl

abbrev count_of : Result → ℕ
count_of (value n) = count n
count_of (gn_fail m) = 0
