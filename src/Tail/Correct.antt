-- ===== src/Tail/Correct.antt =====
-- 13-5-my_tail.c against the lines of the text.
use tlpi_practice.Common.{
  ℕ, ◌+◌, ◌^◌, ◌≤◌, ◌<◌, arith, length, length-append, ◌≡◌, refl, sym, ◌∙◌, true, false, inl, inr,
  Option, some, List, map, [], ◌∷◌, ◌++◌, ◌==◌, Bool-cases,
}
use mathlib.Core.List.{append_assoc, flatten}
use tlpi_practice.Common.Disk.{Bytes}
use tlpi_practice.Tail.{
  Result, ok, err_exit, overrun, division_by_zero, ◌>>=◌, Ring, put_byte, put_chunk, read_loop,
}
use tlpi_practice.Tail.Buffer.{text_lines, IsRealloc}
use tlpi_practice.Tail.Rounds.{Keeps, Kept, put_newline, put_other}

text_lines_newline :
    (pending : Bytes) (b : ℕ) (bs : Bytes)
    → (b == b'\n') ≡ true
    → text_lines pending (b ∷ bs) ≡ pending ∷ text_lines [] bs
unfolding text_lines
text_lines_newline [] b bs h = rw h
text_lines_newline (p ∷ pending) b bs h = rw h

text_lines_other :
    (pending : Bytes) (b : ℕ) (bs : Bytes)
    → (b == b'\n') ≡ false
    → text_lines pending (b ∷ bs) ≡ text_lines (pending ++ b ∷ []) bs
unfolding text_lines
text_lines_other [] b bs h = rw h
text_lines_other (p ∷ pending) b bs h = rw h

-- No call of `read` but the last returns 0.
abbrev pub AllFull : List Bytes → Type 0
AllFull [] = Unit
AllFull ([] ∷ chunks) = ⊥
AllFull ((b ∷ bs) ∷ chunks) = AllFull chunks

module _ (line_num : ℕ) (some_lines : 0 < line_num) {realloc : Bytes → ℕ → Option Bytes}
    (works : IsRealloc realloc) where
  -- The ring after `bs`.
  pub record Progress (done : List Bytes) (pending bs : Bytes) (r : Ring) : Type 0 where
    pub done' : List Bytes
    pub pending' : Bytes
    pub keeps : Keeps line_num some_lines works done' pending' r
    pub grows : length done' + length pending' ≤ length done + length pending + length bs
    pub lines :
        (rest : Bytes) → done ++ text_lines pending (bs ++ rest) ≡ done' ++ text_lines pending' rest

  abbrev pub Progresses : List Bytes → Bytes → Bytes → Result Ring → Type 0
  Progresses done pending bs (ok r) = Progress done pending bs r
  Progresses done pending bs _ = ⊥

  put_byte-Progresses :
      (done : List Bytes) (pending : Bytes) (r : Ring) (b : ℕ)
      → Keeps line_num some_lines works done pending r
      → length done + length pending + 1 < 2 ^ 30
      → Progresses done pending (b ∷ []) (put_byte line_num realloc r b)
  put_byte-Progresses done pending r b s few = elim (Bool-cases (b == b'\n')) [
    | inl h ↦
        after_newline h _
          (put_newline line_num some_lines works done pending r b h s (omega (arith, few)))
    | inr h ↦ after_other h _ (
        put_other line_num some_lines works done pending r b h s (omega (arith, few))
          (omega (arith, few)))
  ]
    where
      after_newline :
          (b == b'\n') ≡ true
          → (x : Result Ring) → Kept line_num some_lines works (done ++ pending ∷ []) [] x
          → Progresses done pending (b ∷ []) x
      after_newline h (ok r') k = record {
        done' = done ++ pending ∷ [];
        pending' = [];
        keeps = k;
        grows = omega (arith, length-append done (pending ∷ []));
        lines = λ rest.
            rw (text_lines_newline pending b rest h)
              (sym (append_assoc done (pending ∷ []) (text_lines [] rest)));
      }
      after_newline h err_exit k = k
      after_newline h overrun k = k
      after_newline h division_by_zero k = k

      after_other :
          (b == b'\n') ≡ false
          → (x : Result Ring) → Kept line_num some_lines works done (pending ++ b ∷ []) x
          → Progresses done pending (b ∷ []) x
      after_other h (ok r') k = record {
        done' = done;
        pending' = pending ++ b ∷ [];
        keeps = k;
        grows = omega (arith, length-append pending (b ∷ []));
        lines = λ rest. rw (text_lines_other pending b rest h);
      }
      after_other h err_exit k = k
      after_other h overrun k = k
      after_other h division_by_zero k = k

  Progresses-bind :
      (done : List Bytes) (pending xs ys : Bytes) (x : Result Ring) (k : Ring → Result Ring)
      → Progresses done pending xs x
      → ((done' : List Bytes) (pending' : Bytes) (r : Ring)
          → Keeps line_num some_lines works done' pending' r
          → length done' + length pending' ≤ length done + length pending + length xs
          → Progresses done' pending' ys (k r))
      → Progresses done pending (xs ++ ys) (x >>= k)
  Progresses-bind done pending xs ys (ok r) k p next =
      extend (k r) (next p.done' p.pending' r p.keeps p.grows)
    where
      extend :
          (x : Result Ring)
          → Progresses p.done' p.pending' ys x
          → Progresses done pending (xs ++ ys) x
      extend (ok r') q = record {
        done' = q.done';
        pending' = q.pending';
        keeps = q.keeps;
        grows = omega (arith, p.grows, q.grows, length-append xs ys);
        lines = λ rest. rw (append_assoc xs ys rest) (p.lines (ys ++ rest) ∙ q.lines rest);
      }
      extend err_exit q = q
      extend overrun q = q
      extend division_by_zero q = q
  Progresses-bind done pending xs ys err_exit k p next = p
  Progresses-bind done pending xs ys overrun k p next = p
  Progresses-bind done pending xs ys division_by_zero k p next = p

  stay :
      (done : List Bytes) (pending : Bytes) (r : Ring)
      → Keeps line_num some_lines works done pending r
      → Progress done pending [] r
  stay done pending r s = record {
    done' = done;
    pending' = pending;
    keeps = s;
    grows = omega arith;
    lines = λ rest. refl;
  }

  put_chunk-Progresses :
      (bs : Bytes) (done : List Bytes) (pending : Bytes) (r : Ring)
      → Keeps line_num some_lines works done pending r
      → length done + length pending + length bs < 2 ^ 30
      → Progresses done pending bs (put_chunk line_num realloc r bs)
  unfolding put_chunk
  put_chunk-Progresses [] done pending r s few = stay done pending r s
  put_chunk-Progresses (b ∷ bs) done pending r s few =
      Progresses-bind done pending (b ∷ []) bs (put_byte line_num realloc r b) _
        (put_byte-Progresses done pending r b s (omega (arith, few)))
        (λ done' pending' r' s' le.
          put_chunk-Progresses bs done' pending' r' s' (omega (arith, few, le)))

  pub read_loop-Progresses :
      (chunks : List Bytes) (done : List Bytes) (pending : Bytes) (r : Ring)
      → AllFull chunks
      → Keeps line_num some_lines works done pending r
      → length done + length pending + length (flatten chunks) < 2 ^ 30
      → Progresses done pending (flatten chunks) (read_loop line_num realloc r (map some chunks))
  unfolding read_loop flatten
  read_loop-Progresses [] done pending r full s few = stay done pending r s
  read_loop-Progresses ([] ∷ chunks) done pending r full s few = absurd full
  read_loop-Progresses ((b ∷ bs) ∷ chunks) done pending r full s few =
      let both = length-append (b ∷ bs) (flatten chunks) in
      Progresses-bind done pending (b ∷ bs) (flatten chunks) (put_chunk line_num realloc r (b ∷ bs))
        _ (put_chunk-Progresses (b ∷ bs) done pending r s (omega (arith, few, both)))
        (λ done' pending' r' s' le.
          read_loop-Progresses chunks done' pending' r' full s' (omega (arith, few, both, le)))
