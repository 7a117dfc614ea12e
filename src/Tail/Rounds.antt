-- ===== src/Tail/Rounds.antt =====
-- The ring of 13-5-my_tail.c, one byte at a time.
use tlpi_practice.Common.{
  ℕ, zero, suc, ◌+◌, ◌*◌, ◌%◌, ◌^◌, ◌≤◌, ◌<◌, ◌≡◌, refl, sym, ap, ◌∙◌, true, false, ◌⊎◌, inl, inr,
  Option, some, List, [], ◌∷◌, ◌++◌, arith, ltb, lt→ltb, ◌==◌, length, Bool-cases, length-append,
  get_elem?, drop,
}
use mathlib.Core.List.{append_assoc}
use mathlib.Core.Option.{some-injective}
use tlpi_practice.Common.Disk.{Bytes}
use tlpi_practice.Common.CString.{cstring, cstring-append_zero}
use tlpi_practice.Tail.{Line, Result, ok, Ring, update, grow, put_byte, index}
use tlpi_practice.Tail.Buffer.{
  mod_ne, stored_size, lt_of_get_elem?, ne_of_mod, some_lines_iff, store-ok, IsRealloc,
}

module _ (line_num : ℕ) (some_lines : 0 < line_num) {realloc : Bytes → ℕ → Option Bytes}
    (works : IsRealloc realloc) where
  -- The line that byte `r.j` of goes into.
  abbrev pub current : Ring → Line
  current r = r.lines (r.line_count % line_num)

  -- The lines `done` have been read, and `pending` of the next. The last `line_num - 1` lines of `done`
  -- stand in the ring, and `pending` in front of the free bytes of the current buffer.
  pub record Keeps (done : List Bytes) (pending : Bytes) (r : Ring) : Type 0 where
    pub count : r.line_count ≡ length done
    pub column : r.j ≡ length pending
    pub sizes : (i : ℕ) → (length (r.lines i).buf ≡ (r.lines i).size) × (0 < (r.lines i).size)
    pub free : Bytes
    pub content : (current r).buf ≡ pending ++ free
    pub room : 0 < length free
    pub kept :
        (k : ℕ) (t : Bytes)
        → get_elem? done k ≡ some t
        → length done < k + line_num
        → cstring (r.lines (k % line_num)).buf ≡ cstring t

  abbrev pub Kept : List Bytes → Bytes → Result Ring → Type 0
  Kept done pending (ok r) = Keeps done pending r
  Kept done pending _ = ⊥

  -- After a byte the buffer is as large as its size says, and has room.
  grow_lem :
      (l : Line) (pending free : Bytes)
      → l.buf ≡ pending ++ free
      → length l.buf ≡ l.size
      → 0 < l.size
      → length pending < 2 ^ 30
      → (l' : Line) × (free' : Bytes) × (grow line_num realloc l (length pending) ≡ ok l')
        × (l'.buf ≡ pending ++ free')
        × (0 < length free')
        × (length l'.buf ≡ l'.size)
        × (0 < l'.size)
  unfolding grow
  grow_lem l pending free e size pos short = elim (Bool-cases (length pending == l.size)) [
    | inl full ↦
        let n = l.size * 2 in
        let fits : length l.buf ≤ n = omega arith in
        let rest = works.rest l.buf n in
        let sized = works.sized l.buf n fits in
        let same : length pending ≡ l.size = ground arith in
        let word : l.size * 2 % 2 ^ 32 ≡ n = omega arith in
        let positive : ltb n (2 ^ 31) ≡ true = lt→ltb n (2 ^ 31) (omega arith) in
        (
          record { buf = l.buf ++ rest; size = n },
          free ++ rest,
          rw (full, word, positive, works.grows l.buf n fits)
              (ap (λ (z : ℕ). ok (record { buf = l.buf ++ rest; size = z })) word),
          ap (λ b. b ++ rest) e ∙ append_assoc pending free rest,
          ground (arith, sized, length-append l.buf rest, length-append free rest),
          sized,
          omega arith,
        )
    | inr half ↦ (l, free, rw half, e, ground (arith, length-append pending free), size, pos)
  ]

  get_elem?-concat :
      (done : List Bytes) (t u : Bytes) (k : ℕ)
      → get_elem? (done ++ t ∷ []) k ≡ some u
      → ((k < length done) × (get_elem? done k ≡ some u)) ⊎ ((k ≡ length done) × (t ≡ u))
  get_elem?-concat [] t u zero h = inr (refl, some-injective t u h)
  get_elem?-concat [] t u (suc k) h = cc
  get_elem?-concat (x ∷ done) t u zero h = inl (omega arith, h)
  get_elem?-concat (x ∷ done) t u (suc k) h = elim (get_elem?-concat done t u k h) [
    | inl (a, b) ↦ inl (omega arith, b)
    | inr (a, b) ↦ inr (omega arith, b)
  ]

  update_sizes :
      (f : ℕ → Line) (c : ℕ) (l : Line)
      → ((i : ℕ) → (length (f i).buf ≡ (f i).size) × (0 < (f i).size))
      → (length l.buf ≡ l.size) × (0 < l.size)
      → (i : ℕ)
      → (length (update f c l i).buf ≡ (update f c l i).size) × (0 < (update f c l i).size)
  update_sizes f c l h h' i = elim (Bool-cases (i == c)) [
    | inl same ↦ rw same h'
    | inr other ↦ rw other (h i)
  ]

  -- The other lines that are kept do not change.
  update_other :
      (f : ℕ → Line) (k c : ℕ) (l : Line)
      → k < c
      → c < k + line_num
      → update f (c % line_num) l (k % line_num) ≡ f (k % line_num)
  update_other f k c l h h' =
      let other : (k % line_num == c % line_num) ≡ false = ne_of_mod (mod_ne k c line_num h h') in
      rw other

  update_self : (f : ℕ → Line) (c : ℕ) (l : Line) → update f c l c ≡ l
  update_self f c l = let same : (c == c) ≡ true = ground arith in rw same

  pub index-ok : (c : ℕ) → c < 2 ^ 31 → index line_num realloc c ≡ ok (c % line_num)
  unfolding index
  index-ok c h = rw (some_lines_iff line_num some_lines, lt→ltb c (2 ^ 31) h)

  pub newline_kept :
      (done : List Bytes) (pending : Bytes) (r : Ring) (l : Line)
      → Keeps done pending r
      → (junk : Bytes) → l.buf ≡ pending ++ 0 ∷ junk
      → (k : ℕ) (t : Bytes) → get_elem? (done ++ pending ∷ []) k ≡ some t
      → length (done ++ pending ∷ []) < k + line_num
      → cstring (update r.lines (r.line_count % line_num) l (k % line_num)).buf ≡ cstring t
  newline_kept done pending r l s junk e k t at near = elim (get_elem?-concat done pending t k at) [
    | inl (lt, old) ↦
        let one_more = length-append done (pending ∷ []) in
        ap (λ x. cstring x.buf)
          (update_other r.lines k r.line_count l (omega (arith, s.count))
            (omega (arith, s.count, one_more)))
        ∙ s.kept k t old (omega (arith, one_more))
    | inr (last, same) ↦
        let here : k ≡ r.line_count = omega (arith, s.count) in
        rw (here, update_self r.lines (r.line_count % line_num) l, e)
          (cstring-append_zero pending junk ∙ ap cstring same)
  ]

  pub put_newline :
      (done : List Bytes) (pending : Bytes) (r : Ring) (b : ℕ)
      → (b == b'\n') ≡ true
      → Keeps done pending r
      → length done + 1 < 2 ^ 31
      → Kept (done ++ pending ∷ []) [] (put_byte line_num realloc r b)
  unfolding put_byte grow
  put_newline done pending r b h s few =
      let l = record (current r) { buf = pending ++ 0 ∷ drop 1 s.free } in
      let size =
        stored_size (current r) pending s.free 0 s.content s.room
          (s.sizes (r.line_count % line_num)).0 in
      let pos = (s.sizes (r.line_count % line_num)).1 in
      let small : (0 == l.size) ≡ false = ground arith in
      rw
        (
          index-ok r.line_count (omega (arith, s.count, few)),
          h,
          s.column,
          store-ok (current r) pending s.free 0 s.content s.room,
          small,
        )
        (record {
          count = omega (arith, few, s.count, length-append done (pending ∷ []));
          column = refl;
          sizes = update_sizes r.lines (r.line_count % line_num) l s.sizes (size, pos);
          free = _;
          content = refl;
          room =
              let u =
                update_sizes r.lines (r.line_count % line_num) l s.sizes (size, pos)
                  ((r.line_count + 1) % 2 ^ 32 % line_num) in
              omega (arith, u.0, u.1);
          kept = λ k t at near. newline_kept done pending r l s (drop 1 s.free) refl k t at near;
        })

  pub put_other :
      (done : List Bytes) (pending : Bytes) (r : Ring) (b : ℕ)
      → (b == b'\n') ≡ false
      → Keeps done pending r
      → length done < 2 ^ 31
      → length pending + 1 < 2 ^ 30
      → Kept done (pending ++ b ∷ []) (put_byte line_num realloc r b)
  unfolding put_byte
  put_other done pending r b h s few short =
      let size =
        stored_size (current r) pending s.free b s.content s.room
          (s.sizes (r.line_count % line_num)).0 in
      let pos = (s.sizes (r.line_count % line_num)).1 in
      let longer : length (pending ++ b ∷ []) ≡ length pending + 1 =
        length-append pending (b ∷ []) in
      let (l, free, grown, e, room, size', pos') =
        grow_lem (record (current r) { buf = pending ++ b ∷ drop 1 s.free }) (pending ++ b ∷ [])
          (drop 1 s.free) (sym (append_assoc pending (b ∷ []) (drop 1 s.free))) size pos
          (omega (arith, longer, short)) in
      rw
        (
          index-ok r.line_count (omega (arith, s.count, few)),
          h,
          s.column,
          store-ok (current r) pending s.free b s.content s.room,
          ← longer,
          grown,
        )
        (record {
          count = s.count;
          column = refl;
          sizes = update_sizes r.lines (r.line_count % line_num) l s.sizes (size', pos');
          free = free;
          content = rw (update_self r.lines (r.line_count % line_num) l) e;
          room = room;
          kept = λ k t at near.
              let lt = lt_of_get_elem? done k t at in
              ap (λ x. cstring x.buf)
                (update_other r.lines k r.line_count l (omega (arith, s.count))
                  (omega (arith, s.count)))
              ∙ s.kept k t at near;
        })
