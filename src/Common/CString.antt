-- ===== src/Common/CString.antt =====
-- Texts that end at a NUL byte.
use tlpi_practice.Common.{
  ◌≡◌, refl, [], ◌∷◌, ◌++◌, ◌==◌, ltb, Bool, Bool-cases, true, false, inl, inr, arith,
  if◌then◌else◌,
}
use mathlib.Core.Bool.{false≢true}
use tlpi_practice.Common.Disk.{Bytes}

-- What `%s` prints: the bytes before the first NUL.
unfoldable pub cstring : Bytes → Bytes
cstring [] = []
cstring (b ∷ bs) = if b == 0 then [] else b ∷ cstring bs

pub cstring-append_zero : (bs rest : Bytes) → cstring (bs ++ 0 ∷ rest) ≡ cstring bs
unfolding cstring
cstring-append_zero [] rest = refl
cstring-append_zero (b ∷ bs) rest = rw (cstring-append_zero bs rest)

-- The sign of what `strcmp` returns.
pub data Sign : Type 0 where
  negative zero positive : Sign

abbrev pub is_negative : Sign → Bool
is_negative negative = true
is_negative _ = false

abbrev pub is_zero : Sign → Bool
is_zero zero = true
is_zero _ = false

-- The arguments are the bytes before the NUL.
unfoldable pub strcmp : Bytes → Bytes → Sign
strcmp [] [] = zero
strcmp [] (b ∷ bs) = negative
strcmp (a ∷ xs) [] = positive
strcmp (a ∷ xs) (b ∷ bs) = if a == b then strcmp xs bs else if ltb a b then negative else positive

pub strcmp_refl : (a : Bytes) → is_zero (strcmp a a) ≡ true
unfolding strcmp
strcmp_refl [] = refl
strcmp_refl (a ∷ xs) = let same : (a == a) ≡ true = ground arith in rw (same, strcmp_refl xs)

pub strcmp_eq : (a b : Bytes) → is_zero (strcmp a b) ≡ true → a ≡ b
unfolding strcmp
strcmp_eq [] [] h = refl
strcmp_eq [] (b ∷ bs) h = absurd (false≢true h)
strcmp_eq (a ∷ xs) [] h = absurd (false≢true h)
strcmp_eq (a ∷ xs) (b ∷ bs) h = elim (Bool-cases (a == b)) [
  | inl same ↦
      let heads : a ≡ b = ground arith in
      let tails = strcmp_eq xs bs (rw same at h) in rw (heads, tails)
  | inr other ↦ elim (Bool-cases (ltb a b)) [
    | inl l ↦ absurd (false≢true (rw (other, l) at h))
    | inr l ↦ absurd (false≢true (rw (other, l) at h))
  ]
]

-- Of two names, the one that is not before the other is behind it or the same.
pub strcmp_asym : (a b : Bytes) → is_negative (strcmp a b) ≡ true → is_negative (strcmp b a) ≡ false
unfolding strcmp
strcmp_asym [] [] h = refl
strcmp_asym [] (b ∷ bs) h = refl
strcmp_asym (a ∷ xs) [] h = absurd (false≢true h)
strcmp_asym (a ∷ xs) (b ∷ bs) h = elim (Bool-cases (a == b)) [
  | inl same ↦
      let back : (b == a) ≡ true = ground arith in rw (back, strcmp_asym xs bs (rw same at h))
  | inr other ↦ elim (Bool-cases (ltb a b)) [
    | inl l ↦
        let back : (b == a) ≡ false = ground arith in
        let after : ltb b a ≡ false = ground arith in rw (back, after)
    | inr l ↦ absurd (false≢true (rw (other, l) at h))
  ]
]
