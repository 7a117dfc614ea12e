-- ===== src/FileTest/Names.antt =====
-- 14-1-file_create_test.c: the list of names is in order, and its files can be removed in that
-- order.
use tlpi_practice.Common.{
  suc, ◌≡◌, refl, sym, ◌∙◌, Bool, true, false, ◌||◌, inl, inr, some, List, [], ◌∷◌, length,
  Bool-cases, Option-cases,
}
use mathlib.Core.Bool.{false≢true}
use mathlib.Core.Option.{none-ne-some, some-injective}
use tlpi_practice.Common.Disk.{Bytes}
use tlpi_practice.Common.CString.{strcmp, is_negative, is_zero, strcmp_refl, strcmp_eq, strcmp_asym}
use tlpi_practice.FileTest.{Directory, has_file, unlink, insert, Result, ok, remove}

-- No name is before its predecessor.
unfoldable pub Sorted : List Bytes → Type 0
Sorted [] = Unit {0}
Sorted (f ∷ []) = Unit {0}
Sorted (f ∷ g ∷ gs) = (is_negative (strcmp g f) ≡ false) × Sorted (g ∷ gs)

insert_behind :
    (name f : Bytes) (fs : List Bytes)
    → is_negative (strcmp name f) ≡ false
    → Sorted (f ∷ fs)
    → Sorted (f ∷ insert name fs)
unfolding Sorted insert
insert_behind name f [] later s = (later, tt)
insert_behind name f (g ∷ gs) later (order, s) = elim (Bool-cases (is_negative (strcmp name g))) [
  | inl here ↦ rw here (later, (strcmp_asym name g here, s))
  | inr there ↦ rw there (order, insert_behind name g gs there s)
]

pub insert-Sorted : (name : Bytes) (fs : List Bytes) → Sorted fs → Sorted (insert name fs)
unfolding Sorted insert
insert-Sorted name [] s = tt
insert-Sorted name (f ∷ fs) s = elim (Bool-cases (is_negative (strcmp name f))) [
  | inl here ↦ rw here (strcmp_asym name f here, s)
  | inr there ↦ rw there (insert_behind name f fs there s)
]

pub length-insert : (name : Bytes) (fs : List Bytes) → length (insert name fs) ≡ suc (length fs)
unfolding insert
length-insert name [] = refl
length-insert name (f ∷ fs) =
    let ih = length-insert name fs in
    elim (Bool-cases (is_negative (strcmp name f))) [
      | inl here ↦ rw here refl
      | inr there ↦ rw (there, ih) refl
    ]

or_false : {a b : Bool} → (a || b) ≡ false → (a ≡ false) × (b ≡ false)
or_false {a = true} h = absurd (false≢true (sym h))
or_false {a = false} h = (refl, h)

not_same :
    (name f g : Bytes)
    → is_zero (strcmp name g) ≡ true
    → is_zero (strcmp f g) ≡ false
    → is_zero (strcmp name f) ≡ false
not_same name f g same other = elim (Bool-cases (is_zero (strcmp name f))) [
  | inl h ↦
      let e : f ≡ g = sym (strcmp_eq name f h) ∙ strcmp_eq name g same in
      absurd (false≢true (sym other ∙ (rw e (strcmp_refl g))))
  | inr h ↦ h
]

-- What is removed is not a name that is not there.
pub unlink_ne :
    (name f : Bytes) (dir dir' : Directory)
    → has_file f dir ≡ false
    → unlink name dir ≡ some dir'
    → is_zero (strcmp name f) ≡ false
unfolding unlink has_file
unlink_ne name f [] dir' fresh e = absurd (none-ne-some _ e)
unlink_ne name f (g ∷ gs) dir' fresh e =
    let (other, fresh') = or_false {a = is_zero (strcmp f g)} fresh in
    elim (Bool-cases (is_zero (strcmp name g))) [
      | inl same ↦ not_same name f g same other
      | inr ne ↦ elim (Option-cases (unlink name gs)) [
        | inl gone ↦ absurd (none-ne-some _ (rw (ne, gone) at e))
        | inr (fs, found) ↦ unlink_ne name f gs fs fresh' found
      ]
    ]

pub unlink_fresh :
    (name f : Bytes) (dir dir' : Directory)
    → has_file f dir ≡ false
    → unlink name dir ≡ some dir'
    → has_file f dir' ≡ false
unfolding unlink has_file
unlink_fresh name f [] dir' fresh e = absurd (none-ne-some _ e)
unlink_fresh name f (g ∷ gs) dir' fresh e =
    let (other, fresh') = or_false {a = is_zero (strcmp f g)} fresh in
    elim (Bool-cases (is_zero (strcmp name g))) [
      | inl same ↦ let d : gs ≡ dir' = some-injective _ _ (rw same at e) in rw (sym d) fresh'
      | inr ne ↦ elim (Option-cases (unlink name gs)) [
        | inl gone ↦ absurd (none-ne-some _ (rw (ne, gone) at e))
        | inr (fs, found) ↦
            let d : g ∷ fs ≡ dir' = some-injective _ _ (rw (ne, found) at e) in
            let kept = unlink_fresh name f gs fs fresh' found in rw (sym d, other) kept
      ]
    ]

-- A new file, put into the list at its place, is removed with the others, and the others'
-- directory is what is left.
pub remove-insert :
    (name : Bytes) (arr : List Bytes) (dir left : Directory)
    → has_file name dir ≡ false
    → remove arr dir ≡ ok left
    → remove (insert name arr) (name ∷ dir) ≡ ok left
unfolding remove unlink insert
remove-insert name [] dir left fresh e = rw (remove, strcmp_refl name) e
remove-insert name (f ∷ fs) dir left fresh e = elim (Bool-cases (is_negative (strcmp name f))) [
  | inl here ↦ rw (here, remove, strcmp_refl name) e
  | inr there ↦ elim (Option-cases (unlink f dir)) [
    | inl gone ↦ let stuck : Result.err_exit dir ≡ ok left = rw (remove, gone) at e in cc
    | inr (dir', found) ↦
        let e' : remove fs dir' ≡ ok left = rw (remove, found) at e in
        let ih = remove-insert name fs dir' left (unlink_fresh f name dir dir' fresh found) e' in
        rw (there, remove, unlink_ne f name dir dir' fresh found, found) ih
  ]
]
