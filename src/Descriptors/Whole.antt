-- ===== src/Descriptors/Whole.antt =====
-- 49-1-my_cp.c: the copy is the source.
use tlpi_practice.Common.{
  ℕ, suc, ◌-◌, ◌≡◌, refl, ap, ◌∙◌, true, false, some, [], ◌∷◌, ◌++◌, length, take, drop, replicate,
  ◌==◌, if◌then◌else◌, arith, length-append, length-replicate, length-take,
}
use mathlib.Core.List.{append-nil}
use tlpi_practice.Common.Disk.{Bytes}
use tlpi_practice.Common.Slices.{overlay-zero, drop-all}
use tlpi_practice.Descriptors.MapCopy.{done, fails, mmap_source, truncated, copy}

length-truncated : (n : ℕ) (bs : Bytes) → length (truncated n bs) ≡ n
unfolding truncated
length-truncated n bs = omega (
  arith,
  length-append (take n bs) (replicate (n - length bs) 0),
  length-take n bs,
  length-replicate {A = ℕ} (n - length bs) 0,
)

-- The destination becomes the source, whatever was in it before, where the source is not empty and
-- the calls work. With an empty source the program ends with an error, and the destination is empty.
pub copy-source :
    (source dest : Bytes)
    → copy (some source) (some dest) true true
      ≡ (if length source == 0 then fails mmap_source (some []) else done source)
unfolding copy truncated
copy-source [] dest = let none_left : 0 - length dest ≡ 0 = omega arith in rw none_left refl
copy-source (b ∷ bs) dest =
    let source = b ∷ bs in
    let resized = truncated (length source) dest in
    let gone : drop (length source) resized ≡ [] =
      drop-all resized (length source) (omega (arith, length-truncated (length source) dest)) in
    let some_bytes : (suc (length bs) == 0) ≡ false = ground arith in
    rw (copy, some_bytes)
      (ap done (overlay-zero resized source ∙ (ap (λ t. source ++ t) gone ∙ append-nil source)))
