-- ===== src/Environ/Unset.antt =====
-- 6-3-environ.c: what `unsetenv` can do.
use tlpi_practice.Common.{
  ◌≤◌, ◌<◌, ◌≡◌, refl, Bool, true, false, ◌||◌, none, some, List, [], ◌∷◌, length, ltb,
  if◌then◌else◌, arith, Bool-cases, inl, inr,
}
use tlpi_practice.Common.Disk.{Bytes}
use tlpi_practice.Environ.{strstr, kept, unsetenv}

-- Whether the name stands somewhere in a string.
unfoldable pub occurs : Bytes → List Bytes → Bool
occurs name [] = false
occurs name (s ∷ ss) = strstr name s || occurs name ss

length-kept : (name : Bytes) (env : List Bytes) → length (kept name env) ≤ length env
unfolding kept
length-kept name [] = omega arith
length-kept name (s ∷ ss) =
    let ih = length-kept name ss in
    elim (Bool-cases (strstr name s)) [
      | inl h ↦ rw (kept, h) (omega (arith, ih))
      | inr h ↦ rw (kept, h) (omega (arith, ih))
    ]

kept-absent : (name : Bytes) (env : List Bytes) → occurs name env ≡ false → kept name env ≡ env
unfolding kept occurs
kept-absent name [] h = refl
kept-absent name (s ∷ ss) h = elim (Bool-cases (strstr name s)) [
  | inl found ↦ let bad : true ≡ false = rw (occurs, found) at h in cc
  | inr other ↦
      let rest : occurs name ss ≡ false = rw (occurs, other) at h in
      rw (kept, other, kept-absent name ss rest) refl
]

kept-present :
    (name : Bytes) (env : List Bytes) → occurs name env ≡ true → length (kept name env) < length env
unfolding kept occurs
kept-present name [] h = cc
kept-present name (s ∷ ss) h = elim (Bool-cases (strstr name s)) [
  | inl found ↦ let ih = length-kept name ss in rw (kept, found) (omega (arith, ih))
  | inr other ↦
      let rest : occurs name ss ≡ true = rw (occurs, other) at h in
      let ih = kept-present name ss rest in rw (kept, other) (omega (arith, ih))
]

-- `unsetenv` never removes anything: where the name stands in no string it returns and leaves all as
-- it is, and where it stands in one, in the value or within another name as well, it does not end.
pub unsetenv-occurs :
    (name : Bytes) (env : List Bytes)
    → unsetenv name env ≡ (if occurs name env then none else some env)
unfolding unsetenv
unsetenv-occurs name env = elim (Bool-cases (occurs name env)) [
  | inl there ↦
      let fewer = kept-present name env there in
      let test : ltb (length (kept name env)) (length env) ≡ true = ground arith in
      rw (unsetenv, there, test) refl
  | inr gone ↦
      let same = kept-absent name env gone in
      let test : ltb (length env) (length env) ≡ false = ground arith in
      rw (unsetenv, gone, same, test) refl
]
