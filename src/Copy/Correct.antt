-- ===== src/Copy/Correct.antt =====
-- What 4-2-cp.c leaves in the destination, and when it writes past its buffer.
use mathlib.Core.List.{flatten}
use tlpi_practice.Common.{
  ℕ, ◌+◌, ◌^◌, ◌<◌, ◌≡◌, refl, sym, ap, ◌∙◌, true, false, inl, some, List, map, [], ◌∷◌, ◌++◌,
  arith, length, length-append,
}
use tlpi_practice.Common.Disk.{Bytes, Disk, overlay}
use tlpi_practice.Copy.{
  Result, ◌>>=◌, ok, exit, overrun, Copier, flush, copy_chunk, copy_loop, copy,
}
use tlpi_practice.Copy.Spec.{patch, fits, AllFull, IsReliable}
use tlpi_practice.Copy.Rounds.{
  current, position, Pending, Follows, After, flush-ok, copy_chunk-After,
}

module _ (disk : Disk) (reliable : IsReliable disk) where
  open disk use {State, look}

  -- All of `bs` has been copied and the buffer is written, or a run in it does not fit.
  abbrev Finished : Copier disk → Bytes → Result (Copier disk) → Type 0
  Finished c bs (ok c') =
      (fits (length c.wbuf) bs ≡ true)
      × ((look c'.wfd).content ≡ patch (current disk reliable c) (position disk reliable c) bs)
  Finished c bs (exit e) = ⊥
  Finished c bs overrun = fits (length c.wbuf) bs ≡ false

  Finished-bind :
      (c : Copier disk) (xs ys : Bytes) (r : Result (Copier disk))
      (k : Copier disk → Result (Copier disk))
      → After disk reliable c xs r
      → ((c' : Copier disk) → Follows disk reliable c xs c' → Finished c' ys (k c'))
      → Finished c (xs ++ ys) (r >>= k)
  Finished-bind c xs ys (ok c') k f next = extend (k c') (next c' f)
    where
      extend : (r : Result (Copier disk)) → Finished c' ys r → Finished c (xs ++ ys) r
      extend (ok c'') (fit, content) = (f.fit ys ∙ fit, content ∙ sym (f.effect ys))
      extend (exit e) a = a
      extend overrun a = f.fit ys ∙ a
  Finished-bind c xs ys (exit e) k f next = f
  Finished-bind c xs ys overrun k f next = f ys

  flush-Finished : (c : Copier disk) → Finished c [] (flush disk c)
  unfolding fits patch current overlay
  flush-Finished c =
      let (c', e, empty, cur, pos) = flush-ok disk reliable c in rw e (refl, rw empty at cur)

  copy_loop-Finished :
      (chunks : List Bytes) (c : Copier disk)
      → AllFull chunks
      → Pending disk reliable c
      → position disk reliable c + length (flatten chunks) < 2 ^ 31
      → Finished c (flatten chunks) (copy_loop disk c (map some chunks))
  unfolding copy_loop flatten
  copy_loop-Finished [] c full h few = flush-Finished c
  copy_loop-Finished ([] ∷ chunks) c full h few = absurd full
  copy_loop-Finished ((b ∷ bs) ∷ chunks) c full h few =
      let both = length-append (b ∷ bs) (flatten chunks) in
      Finished-bind c (b ∷ bs) (flatten chunks) (copy_chunk disk c (b ∷ bs))
        (λ c'. copy_loop disk c' (map some chunks))
        (copy_chunk-After disk reliable (b ∷ bs) c h (omega (arith, few, both)))
        (λ c' f. copy_loop-Finished chunks c' full f.tidy (omega (arith, few, both, f.moved)))

  -- What the run may end in: the source patched over the destination, or a run of bytes other
  -- than zero that is longer than the buffer.
  abbrev pub Copies : State → Bytes → Result State → Type 0
  Copies d src (ok d') =
      (fits 0 src ≡ true) × ((look d').content ≡ patch (look d).content (look d).offset src)
  Copies d src (exit e) = ⊥
  Copies d src overrun = fits 0 src ≡ false

  abbrev start : State → Copier disk
  start d = record { wbuf = []; zero_cnt = 0; wfd = d }

  Copies-of_Finished :
      (d : State) (src : Bytes) (r : Result (Copier disk))
      → Finished (start d) src r
      → Copies d src (r >>= λ c. ok c.wfd)
  unfolding current position overlay
  Copies-of_Finished d src (ok c) (fit, content) =
      (fit, content ∙ ap (λ (p : ℕ). patch (look d).content p src) (omega arith))
  Copies-of_Finished d src (exit e) f = f
  Copies-of_Finished d src overrun f = f

  -- On a disk where no call fails, the copy of a source that is read in non-empty pieces, and that
  -- ends below offset 2^31 of the destination, ends. It ends well exactly if no run of bytes other than zero is longer than the 1024 bytes of the
  -- buffer, and then the destination holds its old content with each byte of the source other than
  -- zero put at its own place; if not, it stores behind the end of the buffer.
  pub copy-Copies :
      (chunks : List Bytes) (d : State)
      → AllFull chunks
      → (look d).offset + length (flatten chunks) < 2 ^ 31
      → Copies d (flatten chunks) (copy disk (some (map some chunks)) (some d))
  unfolding copy
  copy-Copies chunks d full few =
      let begins : position disk reliable (start d) ≡ (look d).offset =
        unfold position in omega arith in
      Copies-of_Finished d (flatten chunks) _
        (copy_loop-Finished chunks (start d) full (inl refl) (omega (arith, few, begins)))
