-- ===== src/Tail.antt =====
-- 13-5-my_tail.c: prints the last lines of a file, which it keeps in a ring of buffers. The ring is
-- a function of the index, which is always a remainder by `line_num`. `line_count` and the size of a
-- buffer are words of 32 bits, of which those from 2 ^ 31 on are the negative numbers.
mod Buffer
mod Rounds
mod Correct
mod Report
mod Tests
use tlpi_practice.Common.{
  ℕ, zero, suc, ◌+◌, ◌-◌, ◌*◌, ◌/◌, ◌%◌, ◌^◌, ◌≤◌, ◌<◌, ◌≡◌, ◌≢◌, ◌↔◌, refl, sym, ap, ◌∙◌, Bool,
  true, false, not, ◌&&◌, ◌||◌, ◌⊎◌, inl, inr, Option, none, some, List, map, [], ◌∷◌, ◌++◌, arith,
  ltb, leb, ◌==◌, if◌then◌else◌, length, Bool-cases, Option-cases, length-append, length-drop,
  take-append-drop, replicate, ==_iff, get_elem?, set, get_or, take, drop,
}
use tlpi_practice.Common.Disk.{Bytes, overlay}
use tlpi_practice.Common.CString.{cstring}

-- `struct line`; `buf` has as many bytes as are allocated.
pub record Line : Type 0 where
  pub buf : Bytes
  pub size : ℕ

pub data Result {ℓ} (A : Type ℓ) : Type ℓ where
  ok : A → Result A
  -- `errExit`
  err_exit : Result A
  -- a store behind the end of a buffer
  overrun : Result A
  -- a remainder by 0
  division_by_zero : Result A

infixl 5 ◌>>=◌
abbrev pub ◌>>=◌ {ℓ κ} : {A : Type ℓ} {B : Type κ} → Result A → (A → Result B) → Result B
ok a >>= f = f a
err_exit >>= f = err_exit
overrun >>= f = overrun
division_by_zero >>= f = division_by_zero

pub record Ring : Type 0 where
  pub lines : ℕ → Line
  pub line_count : ℕ
  pub j : ℕ

abbrev pub update : (ℕ → Line) → ℕ → Line → ℕ → Line
update f k l i = if i == k then l else f i

-- `buf[j] = b`
pub store : Line → ℕ → ℕ → Result Line
store l j b =
    if ltb j (length l.buf) then ok (record l { buf = overlay l.buf j (b ∷ []) }) else overrun

module _ (line_num : ℕ) (realloc : Bytes → ℕ → Option Bytes) where
  -- `lines[line_count % line_num]`; the remainder of a negative number is negative or 0.
  pub index : ℕ → Result ℕ
  index line_count =
      if line_num == 0
      then division_by_zero
      else if ltb line_count (2 ^ 31)
      then ok (line_count % line_num)
      else if (2 ^ 32 - line_count) % line_num == 0
      then ok 0
      else overrun

  -- An `int` as the size_t of realloc.
  abbrev pub as_size : ℕ → ℕ
  as_size n = if ltb n (2 ^ 31) then n else n + (2 ^ 64 - 2 ^ 32)

  -- `if (j == lines[ind].size)`: twice the size.
  pub grow : Line → ℕ → Result Line
  grow l j =
      let size = l.size * 2 % 2 ^ 32 in
      if j == l.size
      then elim (realloc l.buf (as_size size)) [
        | none ↦ err_exit
        | some buf ↦ ok (record { buf = buf; size = size })
      ]
      else ok l

  -- The body of `while (i < read_num)`.
  pub put_byte : Ring → ℕ → Result Ring
  unfolding store grow index
  put_byte r b = do
    ind ← index r.line_count
    (if b == b'\n'
        then (do
          l ← store (r.lines ind) r.j 0
          l' ← grow l 0
          ok (record {
            lines = update r.lines ind l';
            line_count = (r.line_count + 1) % 2 ^ 32;
            j = 0;
          }))
        else (do
          l ← store (r.lines ind) r.j b
          l' ← grow l (r.j + 1)
          ok (record r { lines = update r.lines ind l'; j = r.j + 1 })))

  pub put_chunk : Ring → Bytes → Result Ring
  put_chunk r [] = ok r
  put_chunk r (b ∷ bs) = do r' ← put_byte r b; put_chunk r' bs

  -- The loop over `read`: `none` is -1, and `some []` and every call behind the list are 0.
  pub read_loop : Ring → List (Option Bytes) → Result Ring
  read_loop r [] = ok r
  read_loop r (none ∷ rs) = err_exit
  read_loop r (some [] ∷ rs) = ok r
  read_loop r (some (b ∷ bs) ∷ rs) = do r' ← put_chunk r (b ∷ bs); read_loop r' rs

  -- `if (j != 0)`: the last line has no newline.
  pub close_line : Ring → Result Ring
  unfolding store index
  close_line r = if r.j == 0 then ok r else (do
    ind ← index r.line_count
    l ← store (r.lines ind) r.j 0
    ok (record r { lines = update r.lines ind l; line_count = (r.line_count + 1) % 2 ^ 32 }))

  -- The lines from number `i` on, `n` of them, as `printf` prints them.
  pub print_lines : Ring → ℕ → ℕ → List Bytes
  print_lines r i zero = []
  print_lines r i (suc n) = cstring (r.lines (i % line_num)).buf ∷ print_lines r (i + 1) n

  -- The number in "Only %d lines", if it is printed, as a word, and the lines. Of a negative count of
  -- lines none is printed.
  pub report : Ring → Option ℕ × List Bytes
  unfolding print_lines
  report r =
      let first = r.line_count + 1 - line_num in
      if ltb r.line_count (2 ^ 31)
      then (
        if ltb r.line_count line_num then some r.line_count else none,
        print_lines r first (r.line_count - first),
      )
      else (some r.line_count, [])

  -- `main` behind the options, with what `malloc` gives for each line and what the reads return.
  unfoldable pub tail : (ℕ → Bytes) → List (Option Bytes) → Result (Option ℕ × List Bytes)
  unfolding put_byte put_chunk read_loop close_line report
  tail malloc reads = do
    r ←
        read_loop
          (record { lines = λ i. record { buf = malloc i; size = 512 }; line_count = 0; j = 0 })
          reads
    r' ← close_line r
    ok (report r')
