-- ===== src/Tail/Report.antt =====
-- What 13-5-my_tail.c prints.
use tlpi_practice.Common.{
  ℕ, zero, suc, ◌+◌, ◌-◌, ◌%◌, ◌^◌, ◌<◌, ◌≡◌, refl, ap, true, false, Option, none, some, List, map,
  [], ◌∷◌, ◌++◌, arith, ltb, lt→ltb, ◌==◌, if◌then◌else◌, length, length-append, get_elem?, drop,
}
use mathlib.Core.List.{append-nil, flatten}
use native.Mathlib.Numerals.{add-one}
use tlpi_practice.Common.Disk.{Bytes}
use tlpi_practice.Common.CString.{cstring}
use tlpi_practice.Tail.{
  Result, ok, err_exit, overrun, division_by_zero, ◌>>=◌, Ring, update, close_line, print_lines,
  report, tail,
}
use tlpi_practice.Tail.Buffer.{text_lines, IsRealloc, store-ok}
use tlpi_practice.Tail.Rounds.{index-ok, current, Keeps, newline_kept}
use tlpi_practice.Tail.Correct.{AllFull, Progresses, read_loop-Progresses}

drop-get_elem? :
    (D : List Bytes) (i : ℕ)
    → i < length D
    → (t : Bytes) × (get_elem? D i ≡ some t) × (drop i D ≡ t ∷ drop (suc i) D)
drop-get_elem? [] i h = absurd (omega arith)
drop-get_elem? (x ∷ D) zero h = (x, refl, refl)
drop-get_elem? (x ∷ D) (suc i) h = drop-get_elem? D i (omega arith)

drop_end : (D : List Bytes) (i : ℕ) → i ≡ length D → drop i D ≡ []
drop_end [] i h = rw h
drop_end (x ∷ D) zero h = absurd (omega arith)
drop_end (x ∷ D) (suc i) h = drop_end D i (omega arith)

-- What is printed of the lines `all`.
unfoldable pub last_lines : ℕ → List Bytes → Option ℕ × List Bytes
last_lines line_num all = (
  if ltb (length all) line_num then some (length all) else none,
  map cstring (drop (length all + 1 - line_num) all),
)

module _ (line_num : ℕ) (some_lines : 0 < line_num) {realloc : Bytes → ℕ → Option Bytes}
    (works : IsRealloc realloc) where
  -- All lines are in, and the last `line_num - 1` stand in the ring.
  record Closed (all : List Bytes) (r : Ring) : Type 0 where
    count : r.line_count ≡ length all
    kept :
        (k : ℕ) (t : Bytes)
        → get_elem? all k ≡ some t
        → length all < k + line_num
        → cstring (r.lines (k % line_num)).buf ≡ cstring t

  close_line-Closed :
      (done : List Bytes) (pending : Bytes) (r : Ring)
      → Keeps line_num some_lines works done pending r
      → length done + length pending < 2 ^ 31
      → (r' : Ring) × (close_line line_num realloc r ≡ ok r')
        × Closed (done ++ text_lines pending []) r'
  unfolding close_line text_lines
  close_line-Closed done [] r s few =
      let empty : (r.j == 0) ≡ true = ground (arith, s.column) in
      (r, rw empty, rw append-nil (record { count = s.count; kept = s.kept }))
  close_line-Closed done (p ∷ pending) r s few =
      let l = record (current line_num some_lines works r) {
        buf = (p ∷ pending) ++ 0 ∷ drop 1 s.free;
      } in
      let more : (suc (length pending) == 0) ≡ false = ground arith in
      (
        record r {
          lines = update r.lines (r.line_count % line_num) l;
          line_count = (r.line_count + 1) % 2 ^ 32;
        },
        rw (
          s.column,
          more,
          index-ok line_num some_lines works r.line_count (omega (arith, s.count, few)),
          store-ok (current line_num some_lines works r) (p ∷ pending) s.free 0 s.content s.room,
        ),
        record {
          count = omega (arith, few, s.count, length-append done ((p ∷ pending) ∷ []));
          kept =
              newline_kept line_num some_lines works done (p ∷ pending) r l s (drop 1 s.free) refl;
        },
      )

  print_lines-drop :
      (all : List Bytes) (r : Ring)
      → Closed all r
      → (m i : ℕ) → i + m ≡ length all
      → length all < i + line_num
      → print_lines line_num realloc r i m ≡ map cstring (drop i all)
  unfolding print_lines
  print_lines-drop all r c zero i e near = rw (drop_end all i (omega arith))
  print_lines-drop all r c (suc m) i e near =
      let (t, at, rest) = drop-get_elem? all i (omega arith) in
      rw (rest, c.kept i t at near, add-one i)
        (ap (◌∷◌ (cstring t)) (print_lines-drop all r c m (suc i) (omega arith) (omega arith)))

  report-last_lines :
      (all : List Bytes) (r : Ring)
      → Closed all r
      → length all < 2 ^ 31
      → report line_num realloc r ≡ last_lines line_num all
  unfolding report last_lines
  report-last_lines all r c few =
      rw (c.count, lt→ltb (length all) (2 ^ 31) few)
        (ap
          (λ (ls : List Bytes). (if ltb (length all) line_num then some (length all) else none, ls))
          (print_lines-drop all r c (length all - (length all + 1 - line_num))
            (length all + 1 - line_num) (omega arith) (omega arith)))

  initial-Keeps :
      (malloc : ℕ → Bytes)
      → ((i : ℕ) → length (malloc i) ≡ 512)
      → Keeps line_num some_lines works [] []
          (record { lines = λ i. record { buf = malloc i; size = 512 }; line_count = 0; j = 0 })
  initial-Keeps malloc sized = record {
    count = refl;
    column = refl;
    sizes = λ i. (sized i, omega arith);
    free = malloc (0 % line_num);
    content = refl;
    room = omega (arith, sized (0 % line_num));
    kept = λ k t at near. cc;
  }

  -- An unfinished line is not empty.
  ended :
      (done : List Bytes) (pending : Bytes)
      → length done + length pending < 2 ^ 31
      → length (done ++ text_lines pending []) < 2 ^ 31
  unfolding text_lines
  ended done [] few = omega (arith, few, length-append {A = Bytes} done [])
  ended done (p ∷ pending) few = omega (arith, few, length-append done ((p ∷ pending) ∷ []))

  tail_of_Progress :
      (src : Bytes) (x : Result Ring)
      → Progresses line_num some_lines works [] [] src x
      → length src < 2 ^ 30
      → (x >>= λ r. close_line line_num realloc r >>= λ r'. ok (report line_num realloc r'))
        ≡ ok (last_lines line_num (text_lines [] src))
  tail_of_Progress src (ok r) p few =
      let (r', closed, c) =
        close_line-Closed p.done' p.pending' r p.keeps (omega (arith, few, p.grows)) in
      let all : text_lines [] src ≡ p.done' ++ text_lines p.pending' [] =
        rw append-nil at (p.lines []) in
      rw (closed, all)
        (ap ok (report-last_lines _ r' c (ended p.done' p.pending' (omega (arith, few, p.grows)))))
  tail_of_Progress src err_exit p few = absurd p
  tail_of_Progress src overrun p few = absurd p
  tail_of_Progress src division_by_zero p few = absurd p

  -- However the reads cut a file of less than 2^30 bytes, with at least one line asked for and enough
  -- memory no store is out of bounds, and the program prints the last `line_num - 1` lines of the file, or all if there
  -- are fewer, each up to its first NUL; and it names the number of lines if that is below `line_num`.
  pub tail-last_lines :
      (malloc : ℕ → Bytes) (chunks : List Bytes)
      → ((i : ℕ) → length (malloc i) ≡ 512)
      → AllFull chunks
      → length (flatten chunks) < 2 ^ 30
      → tail line_num realloc malloc (map some chunks)
        ≡ ok (last_lines line_num (text_lines [] (flatten chunks)))
  unfolding tail
  tail-last_lines malloc chunks sized full few =
      tail_of_Progress (flatten chunks) _
        (read_loop-Progresses line_num some_lines works chunks [] [] _ full
          (initial-Keeps malloc sized) (omega (arith, few)))
        few
