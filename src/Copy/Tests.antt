-- ===== src/Copy/Tests.antt =====
-- 4-2-cp.c on small files.
use mathlib.Core.List.{flatten}
use tlpi_practice.Common.{
  ◌≡◌, ◌<◌, ◌^◌, arith, length, refl, true, none, some, List, map, [], ◌∷◌, replicate,
}
use tlpi_practice.Common.Disk.{Bytes, file, overlay, memory}
use tlpi_practice.Copy.{ok, exit, overrun, read_failure, copy}
use tlpi_practice.Copy.Spec.{fits, IsReliable}
use tlpi_practice.Copy.Correct.{Copies, copy-Copies}
use tlpi_practice.Copy.Fresh.{trim, copy-trim}

abbrev reliable : IsReliable memory
reliable = record { writes = λ s bs. (_, refl); skips = λ s n. (_, refl) }

-- `ab\0\0` and `\0c\0`
abbrev chunks : List Bytes
chunks = (b'a' ∷ b'b' ∷ 0 ∷ 0 ∷ []) ∷ (0 ∷ b'c' ∷ 0 ∷ []) ∷ []

copy_runs :
    copy memory (some (map some chunks)) (some (file (1 ∷ 2 ∷ 3 ∷ 4 ∷ 5 ∷ []) 0))
    ≡ ok (file (b'a' ∷ b'b' ∷ 3 ∷ 4 ∷ 5 ∷ b'c' ∷ []) 6)
unfolding copy overlay
copy_runs = refl

copy_read_error :
    copy memory (some (some (b'a' ∷ []) ∷ none ∷ [])) (some (file [] 0)) ≡ exit read_failure
unfolding copy
copy_read_error = refl

-- Two reads of 600 bytes each overrun the 1024 bytes of `wbuf`.
copy_overruns :
    copy memory (some (some (replicate 600 1) ∷ some (replicate 600 1) ∷ [])) (some (file [] 0))
    ≡ overrun
unfolding copy
copy_overruns = refl

copy-Copies_example :
    Copies memory reliable
      (file (1 ∷ 2 ∷ 3 ∷ []) 0)
      (flatten chunks)
      (copy memory (some (map some chunks)) (some (file (1 ∷ 2 ∷ 3 ∷ []) 0)))
copy-Copies_example =
    copy-Copies memory reliable chunks (file (1 ∷ 2 ∷ 3 ∷ []) 0) tt (unfold flatten in omega arith)

copy-trim_example :
    (d : memory.State) × (copy memory (some (map some chunks)) (some (file [] 0)) ≡ ok d)
    × ((memory.look d).content ≡ trim (flatten chunks))
copy-trim_example = copy-trim memory reliable chunks (file [] 0) tt fit refl few
  where
    fit : fits 0 (flatten chunks) ≡ true
    fit = unfold fits flatten in refl

    few : length (flatten chunks) < 2 ^ 31
    few = unfold flatten in omega arith
