-- ===== src/Descriptors/MapCopy.antt =====
-- 49-1-my_cp.c: the copy of a file through two maps.
use tlpi_practice.Common.{
  ℕ, ◌-◌, Bool, Option, none, some, ◌++◌, length, take, replicate, ◌==◌, ◌||◌, not, if◌then◌else◌,
}
use tlpi_practice.Common.Disk.{Bytes, overlay}

pub data Failure : Type 0 where
  open_r open_w ftruncate_fails mmap_source mmap_dest : Failure

-- The bytes of the destination at the end, where it has been opened.
pub data Outcome : Type 0 where
  done : Bytes → Outcome
  fails : Failure → Option Bytes → Outcome

-- `ftruncate` to `n` bytes.
unfoldable pub truncated : ℕ → Bytes → Bytes
truncated n bs = take n bs ++ replicate (n - length bs) 0

-- `main` behind the test of its arguments; the files are none where they cannot be opened. A map of
-- no bytes fails, and `maps` is whether the others work.
unfoldable pub copy : Option Bytes → Option Bytes → Bool → Bool → Outcome
unfolding truncated
copy none dest grows maps = fails open_r none
copy (some source) none grows maps = fails open_w none
copy (some source) (some dest) grows maps =
    let size = length source in
    let resized = truncated size dest in
    if not grows
    then fails ftruncate_fails (some dest)
    else if (size == 0) || not maps
    then fails mmap_source (some resized)
    else done (overlay resized 0 source)
