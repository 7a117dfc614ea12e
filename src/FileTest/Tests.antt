-- ===== src/FileTest/Tests.antt =====
-- 14-1-file_create_test.c with one number twice.
use tlpi_practice.Common.{ℕ, ◌≡◌, refl, true, false, List, [], ◌∷◌, length, arith}
use tlpi_practice.Common.Disk.{Bytes}
use tlpi_practice.Common.CString.{strcmp}
use tlpi_practice.FileTest.{
  Directory, has_file, insert, filename, Round, ok, err_exit, create, run, usage_err, main,
}
use tlpi_practice.FileTest.Names.{Sorted}
use tlpi_practice.FileTest.Restores.{fresh_names, AllWork, run-restores}

abbrev draw : ℕ → Round
draw n = record { rand = n; opens = true; writes = true }

abbrev draws : List Round
draws = draw 1000007 ∷ draw 7 ∷ draw 3 ∷ []

-- The number that comes again is passed over, and the two files are in order.
create_runs : create 2 draws [] [] ≡ ok (filename 3 ∷ filename 7 ∷ [], filename 3 ∷ filename 7 ∷ [])
unfolding create filename insert has_file strcmp
create_runs = refl

-- Where `write` fails, the file is left.
create_fails :
    create 2 (record { rand = 5; opens = true; writes = false } ∷ []) [] []
    ≡ err_exit (filename 5 ∷ [])
unfolding create filename insert has_file strcmp
create_fails = refl

too_few : main 999 draws [] ≡ usage_err
unfolding main
too_few = refl

run-restores_example :
    (dir : Directory) × (arr : List Bytes) × (create 2 draws (filename 9 ∷ []) [] ≡ ok (dir, arr))
    × (length arr ≡ 2)
    × Sorted arr
    × (run 2 draws (filename 9 ∷ []) ≡ ok (filename 9 ∷ []))
unfolding fresh_names filename has_file strcmp AllWork
run-restores_example =
    run-restores 2 draws (filename 9 ∷ []) ((refl, refl), ((refl, refl), ((refl, refl), tt)))
      (omega arith)
