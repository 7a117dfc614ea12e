-- ===== src/Attributes/Chmod.antt =====
-- 15-6-chmodarx.c: the permissions that the files are given.
use Prim.Native.Nat.{bit_and, bit_or}
use tlpi_practice.Common.{
  ℕ, Bool, true, false, Option, none, some, List, [], ◌∷◌, ◌==◌, if◌then◌else◌,
}

-- A file: its type is in the bits from 2 ^ 12 on.
abbrev pub s_ifmt : ℕ
s_ifmt = 0xf000

abbrev pub s_ifdir : ℕ
s_ifdir = 0x4000

unfoldable pub new_mode : ℕ → ℕ
new_mode st_mode =
    let mode = bit_or (bit_and st_mode 511) 292 in
    if bit_and st_mode s_ifmt == s_ifdir then bit_or mode 73 else mode

-- The loop over the arguments: what `stat` gives of each, and whether `chmod` works. The result is
-- the modes that have been set, and whether the loop has ended without an error.
unfoldable pub chmod_all : List (Option ℕ × Bool) → List ℕ × Bool
unfolding new_mode
chmod_all [] = ([], true)
chmod_all ((none, works) ∷ files) = ([], false)
chmod_all ((some st_mode, works) ∷ files) =
    let rest = chmod_all files in if works then (new_mode st_mode ∷ rest.0, rest.1) else ([], false)
