-- ===== src/Common/Slices.antt =====
-- Lemmas on `take`, `drop` and `overlay` at the seam of two lists.
use mathlib.Core.List.{append-nil}
use tlpi_practice.Common.{
  ℕ, zero, suc, ◌+◌, ◌≤◌, ◌≡◌, refl, sym, ap, ◌∙◌, List, [], ◌∷◌, ◌++◌, arith, length, take, drop,
}
use tlpi_practice.Common.Disk.{Bytes, overlay}

module _ {ℓ} {A : Type ℓ} where
  pub take-append : (xs ys : List A) (n : ℕ) → n ≡ length xs → take n (xs ++ ys) ≡ xs
  take-append [] ys n h = rw h
  take-append (x ∷ xs) ys zero h = absurd (omega arith)
  take-append (x ∷ xs) ys (suc n) h = ap (◌∷◌ x) (take-append xs ys n (omega arith))

  pub drop-append : (xs ys : List A) (n : ℕ) → n ≡ length xs → drop n (xs ++ ys) ≡ ys
  drop-append [] ys n h = rw h
  drop-append (x ∷ xs) ys zero h = absurd (omega arith)
  drop-append (x ∷ xs) ys (suc n) h = drop-append xs ys n (omega arith)

  pub take-all : (xs : List A) (n : ℕ) → length xs ≤ n → take n xs ≡ xs
  take-all [] zero h = refl
  take-all [] (suc n) h = refl
  take-all (x ∷ xs) zero h = absurd (omega arith)
  take-all (x ∷ xs) (suc n) h = ap (◌∷◌ x) (take-all xs n (omega arith))

  pub drop-all : (xs : List A) (n : ℕ) → length xs ≤ n → drop n xs ≡ []
  drop-all [] zero h = refl
  drop-all [] (suc n) h = refl
  drop-all (x ∷ xs) zero h = absurd (omega arith)
  drop-all (x ∷ xs) (suc n) h = drop-all xs n (omega arith)

  pub drop-append_le :
      (xs ys : List A) (n : ℕ) → n ≤ length xs → drop n (xs ++ ys) ≡ drop n xs ++ ys
  drop-append_le xs ys zero h = refl
  drop-append_le [] ys (suc n) h = absurd (omega arith)
  drop-append_le (x ∷ xs) ys (suc n) h = drop-append_le xs ys n (omega arith)

  pub drop-append_ge :
      (xs ys : List A) (n k : ℕ) → n ≡ length xs + k → drop n (xs ++ ys) ≡ drop k ys
  drop-append_ge [] ys n k h = let e : n ≡ k = omega arith in rw e
  drop-append_ge (x ∷ xs) ys zero k h = absurd (omega arith)
  drop-append_ge (x ∷ xs) ys (suc n) k h = drop-append_ge xs ys n k (omega arith)

  pub take-append_le : (xs ys : List A) (n : ℕ) → n ≤ length xs → take n (xs ++ ys) ≡ take n xs
  take-append_le xs ys zero h = refl
  take-append_le [] ys (suc n) h = absurd (omega arith)
  take-append_le (x ∷ xs) ys (suc n) h = ap (◌∷◌ x) (take-append_le xs ys n (omega arith))

  pub length-take_le : (xs : List A) (n : ℕ) → n ≤ length xs → length (take n xs) ≡ n
  length-take_le xs zero h = refl
  length-take_le [] (suc n) h = absurd (omega arith)
  length-take_le (x ∷ xs) (suc n) h = ap suc (length-take_le xs n (omega arith))

pub overlay-zero : (old bs : Bytes) → overlay old 0 bs ≡ bs ++ drop (length bs) old
unfolding overlay
overlay-zero old [] = refl
overlay-zero [] (b ∷ bs) = ap (◌∷◌ b) (sym (append-nil bs))
overlay-zero (o ∷ os) (b ∷ bs) = ap (◌∷◌ b) (overlay-zero os bs)

overlay_cons_suc : (o p : ℕ) (os bs : Bytes) → overlay (o ∷ os) (suc p) bs ≡ o ∷ overlay os p bs
unfolding overlay
overlay_cons_suc o p os [] = refl
overlay_cons_suc o p os (b ∷ bs) = refl

-- A write behind `pre` covers the first bytes of what follows.
pub overlay-append_left :
    (pre old bs : Bytes) (p : ℕ)
    → p ≡ length pre
    → overlay (pre ++ old) p bs ≡ pre ++ (bs ++ drop (length bs) old)
overlay-append_left [] old bs p h = rw h (overlay-zero old bs)
overlay-append_left (x ∷ pre) old bs zero h = absurd (omega arith)
overlay-append_left (x ∷ pre) old bs (suc p) h =
    overlay_cons_suc x p (pre ++ old) bs
    ∙ ap (◌∷◌ x) (overlay-append_left pre old bs p (omega arith))
