-- ===== src/FileTest/Restores.antt =====
-- 14-1-file_create_test.c: a run leaves the directory as it was.
use tlpi_practice.Common.{
  ℕ, zero, suc, ◌+◌, ◌≤◌, ◌≡◌, refl, true, inl, inr, List, [], ◌∷◌, ◌%◌, arith, length, Bool-cases,
  if◌then◌else◌,
}
use tlpi_practice.Common.Disk.{Bytes}
use tlpi_practice.FileTest.{Directory, has_file, insert, filename, Round, ok, create, remove, run}
use tlpi_practice.FileTest.Names.{Sorted, insert-Sorted, length-insert, remove-insert}

-- How many files the rounds create, when nothing stops them.
unfoldable pub fresh_names : List Round → Directory → ℕ
fresh_names [] dir = 0
fresh_names (r ∷ rounds) dir =
    let name = filename (r.rand % 1000000) in
    if has_file name dir then fresh_names rounds dir else suc (fresh_names rounds (name ∷ dir))

unfoldable pub AllWork : List Round → Type 0
AllWork [] = Unit {0}
AllWork (r ∷ rounds) = ((r.opens ≡ true) × (r.writes ≡ true)) × AllWork rounds

-- What the loop leaves: `n` names more, in order, whose files can all be removed.
record Created (n : ℕ) (arr : List Bytes) (left dir' : Directory) (arr' : List Bytes) : Type 0 where
  longer : length arr' ≡ n + length arr
  sorted : Sorted arr'
  removable : remove arr' dir' ≡ ok left

create-Created :
    (rounds : List Round) (n : ℕ) (dir : Directory) (arr : List Bytes) (left : Directory)
    → AllWork rounds
    → n ≤ fresh_names rounds dir
    → Sorted arr
    → remove arr dir ≡ ok left
    → (dir' : Directory) × (arr' : List Bytes) × (create n rounds dir arr ≡ ok (dir', arr'))
      × Created n arr left dir' arr'
unfolding create fresh_names AllWork
create-Created rounds zero dir arr left works enough s e =
    (dir, arr, refl, record { longer = omega arith; sorted = s; removable = e })
create-Created [] (suc n) dir arr left works enough s e = absurd (omega arith)
create-Created (r ∷ rounds) (suc n) dir arr left ((opens, writes), works) enough s e =
    let name = filename (r.rand % 1000000) in
    elim (Bool-cases (has_file name dir)) [
      | inl there ↦
          let ih = create-Created rounds (suc n) dir arr left works (rw there at enough) s e in
          rw (there, create) ih
      | inr new ↦
          let more : suc n ≤ suc (fresh_names rounds (name ∷ dir)) = rw new at enough in
          let (dir', arr', run, c) =
            create-Created rounds n (name ∷ dir) (insert name arr) left works (omega arith)
              (insert-Sorted name arr s) (remove-insert name arr dir left new e) in
          let long : length arr' ≡ suc n + length arr =
            omega (arith, c.longer, length-insert name arr) in
          rw (create, new, opens, writes)
            (dir', arr', run, record { longer = long; sorted = c.sorted; removable = c.removable })
    ]

-- Any number of files is created, whatever the directory holds, once `rand` has given that many new
-- names, and provided that `open` and `write` work: the list then has that many names, none before
-- its predecessor, and the program ends with the directory as it was.
pub run-restores :
    (nf : ℕ) (rounds : List Round) (dir : Directory)
    → AllWork rounds
    → nf ≤ fresh_names rounds dir
    → (dir' : Directory) × (arr : List Bytes) × (create nf rounds dir [] ≡ ok (dir', arr))
      × (length arr ≡ nf)
      × Sorted arr
      × (run nf rounds dir ≡ ok dir)
unfolding run remove Sorted
run-restores nf rounds dir works enough =
    let (dir', arr, made, c) = create-Created rounds nf dir [] dir works enough tt refl in
    let long : length arr ≡ nf = omega (arith, c.longer) in
    (dir', arr, made, long, c.sorted, rw (run, made) c.removable)
