-- ===== src/Vectors/Tests.antt =====
-- 5-7-my_readv_writev.c on entries of two and three bytes.
use tlpi_practice.Common.{ℕ, ◌≡◌, refl, some, List, [], ◌∷◌, replicate}
use tlpi_practice.Common.Disk.{Bytes, overlay}
use tlpi_practice.Vectors.{bytes, my_readv, my_writev}

abbrev malloc : ℕ → Bytes
malloc n = replicate n 9

abbrev iov : List Bytes
iov = (1 ∷ 2 ∷ []) ∷ (3 ∷ 4 ∷ 5 ∷ []) ∷ []

my_writev_runs : my_writev malloc (λ bs. bs) iov ≡ 1 ∷ 2 ∷ 3 ∷ 4 ∷ 5 ∷ []
unfolding my_writev overlay
my_writev_runs = refl

my_readv_runs :
    my_readv malloc (λ n. bytes (7 ∷ 8 ∷ 9 ∷ [])) iov
    ≡ (some 3, (7 ∷ 8 ∷ []) ∷ (9 ∷ 4 ∷ 5 ∷ []) ∷ [])
unfolding my_readv overlay
my_readv_runs = refl

abbrev dest : List Bytes
dest = (0 ∷ []) ∷ (0 ∷ 0 ∷ 0 ∷ 0 ∷ []) ∷ []
