-- ===== src/Descriptors/Fields.antt =====
-- 45-2-my_ftok.c: what can be read back from a key.
use tlpi_practice.Common.{ℕ, ◌+◌, ◌*◌, ◌/◌, ◌%◌, ◌^◌, ◌≡◌, ◌<◌, refl, some, arith}
use tlpi_practice.Descriptors.Key.{Stat, my_ftok}

-- The three parts of a key are the low bytes of the number of the project, the two low bytes of the
-- number of the file, and the low byte of that of the device, and the key fits 32 bits.
pub my_ftok-parts :
    (buf : Stat) (proj_id : ℕ)
    → (key : ℕ) × (my_ftok (some buf) proj_id ≡ some key)
      × (key / 16777216 ≡ proj_id % 256)
      × (key / 256 % 65536 ≡ buf.st_ino % 65536)
      × (key % 256 ≡ buf.st_dev % 256)
      × (key < 2 ^ 32)
unfolding my_ftok
my_ftok-parts buf proj_id = (
  proj_id % 256 * 16777216 + buf.st_ino % 65536 * 256 + buf.st_dev % 256,
  refl,
  omega arith,
  omega arith,
  omega arith,
  omega arith,
)
