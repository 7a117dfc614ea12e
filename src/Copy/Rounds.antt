-- ===== src/Copy/Rounds.antt =====
-- The effect of one byte and of one `read` in 4-2-cp.c.
use mathlib.Core.List.{append_assoc}
use tlpi_practice.Common.{
  ℕ, ◌+◌, ◌-◌, ◌%◌, ◌^◌, ◌<◌, ◌≡◌, refl, sym, ap, ◌∙◌, true, false, ◌⊎◌, inl, inr, [], ◌∷◌, ◌++◌,
  arith, ltb, lt→ltb, ◌==◌, length, Bool-cases, length-append,
}
use tlpi_practice.Common.Disk.{Bytes, Disk, overlay, overlay-append}
use tlpi_practice.Copy.{
  Result, ◌>>=◌, ok, exit, overrun, buf_size, Copier, flush, skip_zeros, append_byte, copy_byte,
  copy_chunk,
}
use tlpi_practice.Copy.Spec.{patch, fits, IsReliable}

eq_nil_of_ltb : (xs : Bytes) → ltb 0 (length xs) ≡ false → xs ≡ []
eq_nil_of_ltb [] h = refl
eq_nil_of_ltb (x ∷ xs) h = ground arith

pub patch_zero :
    (old : Bytes) (p b : ℕ) (bs : Bytes)
    → (b == 0) ≡ true
    → patch old p (b ∷ bs) ≡ patch old (p + 1) bs
unfolding patch
patch_zero old p b bs h = rw h

pub patch_other :
    (old : Bytes) (p b : ℕ) (bs : Bytes)
    → (b == 0) ≡ false
    → patch old p (b ∷ bs) ≡ patch (overlay old p (b ∷ [])) (p + 1) bs
unfolding patch
patch_other old p b bs h = rw h

module _ (disk : Disk) (reliable : IsReliable disk) where
  open disk use {State, look}

  -- The content once the buffer is written, and the position behind the bytes that were read.
  unfoldable pub current : Copier disk → Bytes
  current c = overlay (look c.wfd).content (look c.wfd).offset c.wbuf

  unfoldable pub position : Copier disk → ℕ
  position c = (look c.wfd).offset + length c.wbuf + c.zero_cnt

  abbrev pub Pending : Copier disk → Type 0
  Pending c = (c.zero_cnt ≡ 0) ⊎ (c.wbuf ≡ [])

  -- `flush` writes what is pending: it moves bytes out of the buffer and loses none.
  pub flush-ok :
      (c : Copier disk)
      → (c' : Copier disk) × (flush disk c ≡ ok c')
        × (c'.wbuf ≡ [])
        × (current c' ≡ current c)
        × (position c' ≡ position c)
  unfolding flush current position overlay
  flush-ok c = elim (Bool-cases (ltb 0 (length c.wbuf))) [
    | inl more ↦
        let (t, w) = reliable.writes c.wfd c.wbuf in
        let moved = disk.write_whole c.wfd t c.wbuf w in
        (record c { wbuf = []; wfd = t }, rw (more, w), refl, rw moved, rw moved (omega arith))
    | inr empty ↦ (c, rw empty, eq_nil_of_ltb c.wbuf empty, refl, refl)
  ]

  skip_zeros-ok :
      (c : Copier disk)
      → Pending c
      → position c < 2 ^ 31
      → (c' : Copier disk) × (skip_zeros disk c ≡ ok c')
        × (c'.wbuf ≡ c.wbuf)
        × (current c' ≡ current c)
        × (position c' ≡ position c)
        × (c'.zero_cnt ≡ 0)
  unfolding skip_zeros current position overlay
  skip_zeros-ok c h few = elim (Bool-cases (ltb 0 c.zero_cnt)) [
    | inl more ↦
        let (t, w) = reliable.skips c.wfd c.zero_cnt in
        let moved = disk.skip_moves c.wfd t c.zero_cnt w in
        let empty : c.wbuf ≡ [] = ground (arith, h) in
        let small : ltb c.zero_cnt (2 ^ 31) ≡ true = lt→ltb _ _ (omega arith) in
        let there : (look t).offset ≡ (look c.wfd).offset + c.zero_cnt = ap (λ f. f.offset) moved in
        let done : ((look t).offset % 2 ^ 32 == 2 ^ 32 - 1) ≡ false = ground (arith, there, few) in
        (
          record c { zero_cnt = 0; wfd = t },
          rw (more, small, w, done),
          refl,
          rw (moved, empty),
          rw moved (omega arith),
          refl,
        )
    | inr none_left ↦ (c, rw none_left, refl, refl, refl, ground arith)
  ]

  -- What is still to come has the same effect from `c'` as it had from `c` with `bs` in front.
  pub record Follows (c : Copier disk) (bs : Bytes) (c' : Copier disk) : Type 0 where
    pub tidy : Pending c'
    pub moved : position c' ≡ position c + length bs
    pub fit : (rest : Bytes) → fits (length c.wbuf) (bs ++ rest) ≡ fits (length c'.wbuf) rest
    pub effect :
        (rest : Bytes)
        → patch (current c) (position c) (bs ++ rest) ≡ patch (current c') (position c') rest

  -- Either the round follows, or the run of bytes that it is in does not fit.
  abbrev pub After : Copier disk → Bytes → Result (Copier disk) → Type 0
  After c bs (ok c') = Follows c bs c'
  After c bs (exit e) = ⊥
  After c bs overrun = (rest : Bytes) → fits (length c.wbuf) (bs ++ rest) ≡ false

  zero_byte-Follows :
      (c c' : Copier disk) (b : ℕ)
      → (b == 0) ≡ true
      → c'.wbuf ≡ []
      → current c' ≡ current c
      → position c' ≡ position c
      → position c + 1 < 2 ^ 31
      → Follows c (b ∷ []) (record c' { zero_cnt = (c'.zero_cnt + 1) % 2 ^ 32 })
  unfolding fits position current
  zero_byte-Follows c c' b h empty cur pos few =
      let unwrapped : (c'.zero_cnt + 1) % 2 ^ 32 ≡ c'.zero_cnt + 1 = omega (arith, pos, few) in
      rw unwrapped record {
        tidy = inr empty;
        moved = omega (arith, pos);
        fit = λ rest. rw (h, empty);
        effect = λ rest.
            let eq : position c + 1 ≡ position (record c' { zero_cnt = c'.zero_cnt + 1 }) =
              omega (arith, pos) in
            patch_zero (current c) (position c) b rest h ∙ λ i. patch (sym cur i) (eq i) rest;
      }

  current_append :
      (c c' : Copier disk) (b : ℕ)
      → current c' ≡ current c
      → position c' ≡ position c
      → c'.zero_cnt ≡ 0
      → overlay (current c) (position c) (b ∷ []) ≡ current (record c' { wbuf = c'.wbuf ++ b ∷ [] })
  unfolding current position
  current_append c c' b cur pos none_left =
      let file = look c'.wfd in
      let place : file.offset + length c'.wbuf ≡ position c = omega (arith, pos, none_left) in
      rw (overlay-append file.content file.offset c'.wbuf (b ∷ []), place, cur)

  position_append :
      (c c' : Copier disk) (b : ℕ)
      → position c' ≡ position c
      → position c + 1 ≡ position (record c' { wbuf = c'.wbuf ++ b ∷ [] })
  unfolding position
  position_append c c' b pos = omega (arith, pos, length-append c'.wbuf (b ∷ []))

  other_byte-After :
      (c c' : Copier disk) (b : ℕ)
      → (b == 0) ≡ false
      → c'.wbuf ≡ c.wbuf
      → current c' ≡ current c
      → position c' ≡ position c
      → c'.zero_cnt ≡ 0
      → After c (b ∷ []) (append_byte disk c' b)
  unfolding fits append_byte
  other_byte-After c c' b h same cur pos none_left =
      elim (Bool-cases (ltb (length c'.wbuf) buf_size)) [
        | inl room ↦ rw room (record {
          tidy = inl none_left;
          moved = sym (position_append c c' b pos);
          fit = λ rest.
              rw (h, ← same, room)
                (ap (λ (n : ℕ). fits n rest) (omega (arith, length-append c'.wbuf (b ∷ []))));
          effect = λ rest. patch_other (current c) (position c) b rest h ∙ λ i.
              patch (current_append c c' b cur pos none_left i) (position_append c c' b pos i) rest;
        })
        | inr full ↦ rw full (λ rest. rw (h, ← same, full))
      ]

  copy_byte-After :
      (c : Copier disk) (b : ℕ)
      → Pending c
      → position c + 1 < 2 ^ 31
      → After c (b ∷ []) (copy_byte disk c b)
  unfolding copy_byte
  copy_byte-After c b h few = elim (Bool-cases (b == 0)) [
    | inl zero_byte ↦
        let (c', e, empty, cur, pos) = flush-ok c in
        rw (zero_byte, e) (zero_byte-Follows c c' b zero_byte empty cur pos few)
    | inr other ↦
        let (c', e, same, cur, pos, none_left) = skip_zeros-ok c h (omega (arith, few)) in
        rw (other, e) (other_byte-After c c' b other same cur pos none_left)
  ]

  Follows-trans :
      {c c' c'' : Copier disk} (xs ys : Bytes)
      → Follows c xs c'
      → Follows c' ys c''
      → Follows c (xs ++ ys) c''
  Follows-trans xs ys f g = record {
    tidy = g.tidy;
    moved = omega (arith, f.moved, g.moved, length-append xs ys);
    fit = λ rest. rw (append_assoc xs ys rest) (f.fit (ys ++ rest) ∙ g.fit rest);
    effect = λ rest. rw (append_assoc xs ys rest) (f.effect (ys ++ rest) ∙ g.effect rest);
  }

  After-extend :
      {c c' : Copier disk} (xs ys : Bytes) (r : Result (Copier disk))
      → Follows c xs c'
      → After c' ys r
      → After c (xs ++ ys) r
  After-extend xs ys (ok c'') f a = Follows-trans xs ys f a
  After-extend xs ys (exit e) f a = a
  After-extend xs ys overrun f a =
      λ rest. rw (append_assoc xs ys rest) (f.fit (ys ++ rest) ∙ a rest)

  After-bind :
      (c : Copier disk) (xs ys : Bytes) (r : Result (Copier disk))
      (k : Copier disk → Result (Copier disk))
      → After c xs r
      → ((c' : Copier disk) → Follows c xs c' → After c' ys (k c'))
      → After c (xs ++ ys) (r >>= k)
  After-bind c xs ys (ok c') k f next = After-extend xs ys (k c') f (next c' f)
  After-bind c xs ys (exit e) k f next = f
  After-bind c xs ys overrun k f next = λ rest. rw (append_assoc xs ys rest) (f (ys ++ rest))

  pub copy_chunk-After :
      (bs : Bytes) (c : Copier disk)
      → Pending c
      → position c + length bs < 2 ^ 31
      → After c bs (copy_chunk disk c bs)
  unfolding copy_chunk
  copy_chunk-After [] c h few = record {
    tidy = h;
    moved = omega arith;
    fit = λ rest. refl;
    effect = λ rest. refl;
  }
  copy_chunk-After (b ∷ bs) c h few =
      After-bind c (b ∷ []) bs (copy_byte disk c b) (λ c'. copy_chunk disk c' bs)
        (copy_byte-After c b h (omega (arith, few)))
        (λ c' f. copy_chunk-After bs c' f.tidy (omega (arith, few, f.moved)))
