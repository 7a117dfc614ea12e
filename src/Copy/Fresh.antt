-- ===== src/Copy/Fresh.antt =====
-- 4-2-cp.c into an empty file: the zeros at the end of the source are lost.
use mathlib.Core.List.{append_assoc, flatten, append-nil}
use tlpi_practice.Common.{
  ℕ, zero, suc, ◌+◌, ◌^◌, ◌<◌, ◌≡◌, refl, sym, ap, ◌∙◌, Bool, true, false, inl, inr, some, List,
  map, [], ◌∷◌, ◌++◌, arith, ◌==◌, if◌then◌else◌, length, Bool-cases, length-append, replicate,
  length-replicate,
}
use tlpi_practice.Common.Disk.{Bytes, Disk, overlay, file}
use tlpi_practice.Copy.{Result, ok, exit, overrun, copy}
use tlpi_practice.Copy.Spec.{patch, fits, AllFull, IsReliable}
use tlpi_practice.Copy.Rounds.{patch_zero, patch_other}
use tlpi_practice.Copy.Correct.{Copies, copy-Copies}

abbrev zeros : ℕ → Bytes
zeros n = replicate n 0

-- `t`, unless it is empty, with `n` zeros in front.
abbrev pad : ℕ → Bytes → Bytes
pad n [] = []
pad n (t ∷ ts) = zeros n ++ t ∷ ts

abbrev put_front : Bool → ℕ → Bytes → Bytes
put_front is_zero b [] = if is_zero then [] else b ∷ []
put_front is_zero b (t ∷ ts) = b ∷ t ∷ ts

-- The list without the zeros at its end.
unfoldable pub trim : Bytes → Bytes
trim [] = []
trim (b ∷ bs) = put_front (b == 0) b (trim bs)

zeros-suc : (n : ℕ) (ts : Bytes) → zeros n ++ 0 ∷ ts ≡ zeros (suc n) ++ ts
zeros-suc zero ts = refl
zeros-suc (suc n) ts = ap (◌∷◌ 0) (zeros-suc n ts)

pad_zero : (n b : ℕ) (ts : Bytes) → (b == 0) ≡ true → pad (suc n) ts ≡ pad n (put_front true b ts)
pad_zero n b [] h = refl
pad_zero n b (t ∷ ts) h = let e : b ≡ 0 = ground arith in rw e (sym (zeros-suc n (t ∷ ts)))

pad_other : (n b : ℕ) (ts : Bytes) → pad n (put_front false b ts) ≡ zeros n ++ b ∷ ts
pad_other n b [] = refl
pad_other n b (t ∷ ts) = refl

pad-zero : (ts : Bytes) → pad 0 ts ≡ ts
pad-zero [] = refl
pad-zero (t ∷ ts) = refl

overlay_gap : (n b : ℕ) → overlay [] n (b ∷ []) ≡ zeros n ++ b ∷ []
unfolding overlay
overlay_gap zero b = refl
overlay_gap (suc n) b = ap (◌∷◌ 0) (overlay_gap n b)

overlay-suc :
    (o p b : ℕ) (os : Bytes) → overlay (o ∷ os) (suc p) (b ∷ []) ≡ o ∷ overlay os p (b ∷ [])
unfolding overlay
overlay-suc o p b os = refl

overlay_behind :
    (old : Bytes) (n p b : ℕ)
    → p ≡ length old + n
    → overlay old p (b ∷ []) ≡ old ++ (zeros n ++ b ∷ [])
overlay_behind [] n p b h = let e : p ≡ n = omega arith in rw e (overlay_gap n b)
overlay_behind (o ∷ os) n p b h =
    let e : p ≡ suc (length os + n) = omega arith in
    rw (e, overlay-suc) (ap (◌∷◌ o) (overlay_behind os n (length os + n) b refl))

length_behind : (old : Bytes) (n b : ℕ) → length (old ++ (zeros n ++ b ∷ [])) ≡ length old + n + 1
length_behind old n b = omega (
  arith,
  length-append old (zeros n ++ b ∷ []),
  length-append (zeros n) (b ∷ []),
  length-replicate {A = ℕ} n 0,
)

patch_behind :
    (bs old : Bytes) (n p : ℕ) → p ≡ length old + n → patch old p bs ≡ old ++ pad n (trim bs)
unfolding trim
patch_behind [] old n p h = unfold patch in sym (append-nil old)
patch_behind (b ∷ bs) old n p h = elim (Bool-cases (b == 0)) [
  | inl e ↦
      patch_zero old p b bs e
      ∙ patch_behind bs old (suc n) (p + 1) (omega arith)
      ∙ rw e (ap (◌++◌ old) (pad_zero n b (trim bs) e))
  | inr e ↦
      patch_other old p b bs e
      ∙ patch_behind bs (overlay old p (b ∷ [])) 0 (p + 1)
          (rw (overlay_behind old n p b h) (omega (arith, length_behind old n b)))
      ∙ rw (e, overlay_behind old n p b h, pad-zero, pad_other) (simp append_assoc)
]

module _ (disk : Disk) (reliable : IsReliable disk) where
  open disk use {State, look}

  fresh_of_Copies :
      (d : State) (src : Bytes) (r : Result State)
      → fits 0 src ≡ true
      → look d ≡ file [] 0
      → Copies disk reliable d src r
      → (d' : State) × (r ≡ ok d') × ((look d').content ≡ trim src)
  fresh_of_Copies d src (ok d') fit fresh (_, content) =
      (d', refl, content ∙ rw fresh (patch_behind src [] 0 0 refl ∙ pad-zero (trim src)))
  fresh_of_Copies d src (exit e) fit fresh c = absurd c
  fresh_of_Copies d src overrun fit fresh c = cc

  -- Into an empty file, on a disk where no call fails, a source of less than 2^31 bytes whose
  -- runs of bytes other than zero fit the buffer is copied without the zeros at its end.
  pub copy-trim :
      (chunks : List Bytes) (d : State)
      → AllFull chunks
      → fits 0 (flatten chunks) ≡ true
      → look d ≡ file [] 0
      → length (flatten chunks) < 2 ^ 31
      → (d' : State) × (copy disk (some (map some chunks)) (some d) ≡ ok d')
        × ((look d').content ≡ trim (flatten chunks))
  copy-trim chunks d full fit fresh few =
      let begins : (look d).offset ≡ 0 = ap (λ f. f.offset) fresh in
      fresh_of_Copies d (flatten chunks) _ fit fresh
        (copy-Copies disk reliable chunks d full (omega (arith, few, begins)))
