-- ===== src/Perms.antt =====
-- file_perms.c and file_perms.h: the text of a mode, as `ls` prints it.
mod Decode
mod Tests
use tlpi_practice.Common.{ℕ, Bool, ◌&&◌, [], ◌∷◌, if◌then◌else◌}
use tlpi_practice.Common.Bits.{has_flag}
use tlpi_practice.Common.Disk.{Bytes}

abbrev pub fp_special : ℕ
fp_special = 1

-- `(perm & bit) ? c : '-'`
unfoldable pub letter : Bool → ℕ → ℕ
letter set c = if set then c else b'-'

-- The letter of an execute bit, with `s` and `S` (or `t` and `T`) for the special bit beside it.
unfoldable pub execute_letter : Bool → Bool → ℕ → ℕ → ℕ
execute_letter execute special lower upper =
    if execute then (if special then lower else b'x') else (if special then upper else b'-')

unfoldable pub file_perm_str : ℕ → ℕ → Bytes
unfolding letter execute_letter
file_perm_str perm flags =
    let special = has_flag flags fp_special in
    letter (has_flag perm 256) b'r'
    ∷ letter (has_flag perm 128) b'w'
    ∷ execute_letter (has_flag perm 64) (has_flag perm 2048 && special) b's' b'S'
    ∷ letter (has_flag perm 32) b'r'
    ∷ letter (has_flag perm 16) b'w'
    ∷ execute_letter (has_flag perm 8) (has_flag perm 1024 && special) b's' b'S'
    ∷ letter (has_flag perm 4) b'r'
    ∷ letter (has_flag perm 2) b'w'
    ∷ execute_letter (has_flag perm 1) (has_flag perm 512 && special) b't' b'T'
    ∷ []
