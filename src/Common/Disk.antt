-- ===== src/Common/Disk.antt =====
-- What the programs rely on of a descriptor that is open for writing: `write` and `lseek` may fail,
-- and what they do not fail at they do in full, at the offset.
use tlpi_practice.Common.{
  ℕ, zero, suc, ◌+◌, ◌≡◌, refl, sym, ap, ◌∙◌, Option, some, List, [], ◌∷◌, ◌++◌, arith, length,
}
use native.Mathlib.Nat.{add-zero}
use mathlib.Core.Option.{some-injective}

abbrev pub Bytes : Type 0
Bytes = List ℕ

-- The bytes `bs` put over `old` from position `pos` on; a gap behind the end reads as zeros.
unfoldable pub overlay : Bytes → ℕ → Bytes → Bytes
overlay old pos [] = old
overlay [] zero (b ∷ bs) = b ∷ bs
overlay (o ∷ os) zero (b ∷ bs) = b ∷ overlay os zero bs
overlay [] (suc p) (b ∷ bs) = 0 ∷ overlay [] p (b ∷ bs)
overlay (o ∷ os) (suc p) (b ∷ bs) = o ∷ overlay os p (b ∷ bs)

-- A file as seen through one descriptor.
pub record File : Type 0 where
  pub content : Bytes
  pub offset : ℕ

abbrev pub file : Bytes → ℕ → File
file c p = record { content = c; offset = p }

abbrev pub written : File → Bytes → File
written f bs = file (overlay f.content f.offset bs) (f.offset + length bs)

pub record Disk : Type 1 where
  pub State : Type 0
  pub look : State → File
  pub write : State → Bytes → Option State
  pub skip : State → ℕ → Option State
  pub write_whole : (s t : State) (bs : Bytes) → write s bs ≡ some t → look t ≡ written (look s) bs
  pub skip_moves :
      (s t : State) (n : ℕ)
      → skip s n ≡ some t
      → look t ≡ file (look s).content ((look s).offset + n)

overlay_nil_one :
    (p b c : ℕ) (bs : Bytes)
    → overlay [] p (b ∷ c ∷ bs) ≡ overlay (overlay [] p (b ∷ [])) (suc p) (c ∷ bs)
unfolding overlay
overlay_nil_one zero b c bs = refl
overlay_nil_one (suc p) b c bs = ap (◌∷◌ 0) (overlay_nil_one p b c bs)

-- A run of bytes written at once is the first byte, and the others behind it.
pub overlay-cons :
    (old : Bytes) (p b : ℕ) (bs : Bytes)
    → overlay old p (b ∷ bs) ≡ overlay (overlay old p (b ∷ [])) (suc p) bs
unfolding overlay
overlay-cons old p b [] = refl
overlay-cons [] p b (c ∷ bs) = overlay_nil_one p b c bs
overlay-cons (o ∷ []) zero b (c ∷ bs) = refl
overlay-cons (o ∷ x ∷ os) zero b (c ∷ bs) = refl
overlay-cons (o ∷ os) (suc p) b (c ∷ bs) = ap (◌∷◌ o) (overlay-cons os p b (c ∷ bs))

pub overlay-append :
    (old : Bytes) (p : ℕ) (xs ys : Bytes)
    → overlay old p (xs ++ ys) ≡ overlay (overlay old p xs) (p + length xs) ys
overlay-append old p [] ys = unfold overlay in rw add-zero
overlay-append old p (x ∷ xs) ys =
    let shift : suc p + length xs ≡ p + length (x ∷ xs) = omega arith in
    overlay-cons old p x (xs ++ ys)
    ∙ overlay-append (overlay old p (x ∷ [])) (suc p) xs ys
    ∙ rw (← overlay-cons old p x xs, shift)

-- A disk on which every call succeeds.
abbrev pub memory : Disk
memory = record {
  State = File;
  look = λ s. s;
  write = λ s bs. some (written s bs);
  skip = λ s n. some (file s.content (s.offset + n));
  write_whole = λ s t bs e. some-injective _ _ (sym e);
  skip_moves = λ s t n e. some-injective _ _ (sym e);
}
