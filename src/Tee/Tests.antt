-- ===== src/Tee/Tests.antt =====
-- 4-1-tee.c with one file of each kind, and with the same file twice.
use tlpi_practice.Common.{ℕ, ◌≡◌, refl, false, none, some, List, [], ◌∷◌, map, arith}
use tlpi_practice.Common.Disk.{Bytes, overlay}
use tlpi_practice.Tee.{
  Store, System, Result, ok, exits, open_file, open_options, open_arguments, write, write_all, copy,
  main,
}
use tlpi_practice.Tee.Copies.{among, Distinct, Whole, AllShort, concat}
use tlpi_practice.Tee.Opens.{Resolves, fds_of, opened, result, main-result}

-- A path is the number of its file.
abbrev sys : System
sys = record { file_of = λ p. elim p [ [] ↦ none | f ∷ _ ↦ some f ]; taken = λ round f. 2000 }

abbrev path : ℕ → Bytes
path f = f ∷ []

abbrev old : Store
old f = b'o' ∷ []

-- Reads of one byte each.
abbrev reads : List Bytes
reads = (b'x' ∷ []) ∷ (b'y' ∷ []) ∷ []

abbrev at : ℕ → Result Store → Bytes
at f (ok s) = s f
at f (exits m s) = []

both : at 1 (main sys (some (path 1) ∷ []) (path 2 ∷ []) reads false old) ≡ b'o' ∷ b'x' ∷ b'y' ∷ []
unfolding main open_options open_arguments open_file copy write_all write overlay
both = refl

-- A file that is named twice without -a has two offsets, and each write goes over the other's.
twice : at 1 (main sys [] (path 1 ∷ path 1 ∷ []) reads false old) ≡ b'x' ∷ b'y' ∷ []
unfolding main open_options open_arguments open_file copy write_all write overlay
twice = refl

-- An empty read is the end.
stops : at 1 (main sys [] (path 1 ∷ []) ([] ∷ reads) false old) ≡ []
unfolding main open_options open_arguments open_file copy write_all write overlay
stops = refl

abbrev eleven : List Bytes
eleven =
    path 1
    ∷ path 2
    ∷ path 3
    ∷ path 4
    ∷ path 5
    ∷ path 6
    ∷ path 7
    ∷ path 8
    ∷ path 9
    ∷ path 10
    ∷ path 11
    ∷ []

-- The ten files that are open have been truncated already.
eleventh : at 1 (main sys [] eleven reads false old) ≡ []
unfolding main open_options open_arguments open_file
eleventh = refl

whole : Whole sys
whole round f = omega arith

short : AllShort reads
unfolding AllShort
short = (omega arith, (omega arith, tt))

named : Resolves sys (path 1 ∷ []) (1 ∷ [])
unfolding Resolves
named = (refl, tt)

named_other : Resolves sys (path 2 ∷ []) (2 ∷ [])
unfolding Resolves
named_other = (refl, tt)

distinct : Distinct (opened (1 ∷ []) (2 ∷ []))
unfolding Distinct among fds_of
distinct = (refl, (refl, tt))

main-result_example :
    (s' : Store) × (main sys (map some (path 1 ∷ [])) (path 2 ∷ []) reads false old ≡ ok s')
    × ((g : ℕ) → s' g ≡ result (1 ∷ []) (2 ∷ []) (concat reads) old g)
main-result_example =
    main-result sys (path 1 ∷ []) (path 2 ∷ []) reads (1 ∷ []) (2 ∷ []) old named named_other
      (omega arith) distinct whole short
