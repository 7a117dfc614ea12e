-- ===== src/Tail/Tests.antt =====
-- 13-5-my_tail.c with two and three lines asked for.
use tlpi_practice.Common.{
  ℕ, ◌-◌, ◌≤◌, ◌≡◌, refl, Option, none, some, List, map, [], ◌∷◌, ◌++◌, arith, length,
  length-append, replicate, length-replicate,
}
use mathlib.Core.List.{flatten}
use tlpi_practice.Common.Disk.{Bytes, overlay}
use tlpi_practice.Common.CString.{cstring}
use tlpi_practice.Tail.{ok, tail}
use tlpi_practice.Tail.Buffer.{text_lines, IsRealloc}
use tlpi_practice.Tail.Report.{last_lines, tail-last_lines}

abbrev realloc : Bytes → ℕ → Option Bytes
realloc b n = some (b ++ replicate (n - length b) 0)

sized : (b : Bytes) (n : ℕ) → length b ≤ n → length (b ++ replicate (n - length b) 0) ≡ n
sized b n h =
    omega (
      arith,
      length-append b (replicate (n - length b) 0),
      length-replicate {A = ℕ} (n - length b) 0,
    )

works : IsRealloc realloc
works = record { rest = λ b n. replicate (n - length b) 0; grows = λ b n h. refl; sized = sized }

abbrev malloc : ℕ → Bytes
malloc i = replicate 512 255

malloc_sized : (i : ℕ) → length (malloc i) ≡ 512
malloc_sized i = length-replicate {A = ℕ} 512 255

-- `a\nb`, `b\n` and `c`
abbrev chunks : List Bytes
chunks = (b'a' ∷ b'\n' ∷ b'b' ∷ []) ∷ (b'b' ∷ b'\n' ∷ []) ∷ (b'c' ∷ []) ∷ []

-- Three lines are asked for, and two are printed.
tail_runs :
    tail 3 realloc malloc (map some chunks) ≡ ok (none, (b'b' ∷ b'b' ∷ []) ∷ (b'c' ∷ []) ∷ [])
unfolding tail overlay cstring
tail_runs = refl

tail-last_lines_example :
    tail 3 realloc malloc (map some chunks) ≡ ok (last_lines 3 (text_lines [] (flatten chunks)))
tail-last_lines_example =
    tail-last_lines 3 (omega arith) works malloc chunks malloc_sized tt
      (unfold flatten in omega arith)
