-- ===== src/Descriptors/Key.antt =====
-- 45-2-my_ftok.c: the key of a file, in 32 bits.
use tlpi_practice.Common.{ℕ, ◌+◌, ◌*◌, ◌%◌, Option, none, some}

-- What `stat` gives of the file, and the key, or none for -1. `&` with a mask of ones is a
-- remainder, a shift is a product, and as no two of the parts have a bit in common, `|` is a sum.
pub record Stat : Type 0 where
  pub st_dev : ℕ
  pub st_ino : ℕ

unfoldable pub my_ftok : Option Stat → ℕ → Option ℕ
my_ftok none proj_id = none
my_ftok (some buf) proj_id =
    some (proj_id % 256 * 16777216 + buf.st_ino % 65536 * 256 + buf.st_dev % 256)
