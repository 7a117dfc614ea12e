-- ===== src/Perms/Decode.antt =====
-- file_perms.c: the mode can be read back from its text.
use tlpi_practice.Common.{
  ℕ, ◌+◌, ◌*◌, ◌/◌, ◌%◌, ◌≡◌, ◌<◌, ◌∙◌, zero, suc, refl, Bool, true, false, ◌&&◌, [], ◌∷◌, ◌==◌,
  arith, if◌then◌else◌,
}
use tlpi_practice.Common.Bits.{has_flag}
use tlpi_practice.Common.Disk.{Bytes}
use tlpi_practice.Perms.{fp_special, letter, execute_letter, file_perm_str}

unfoldable weight : Bool → ℕ → ℕ
weight set w = if set then w else 0

-- What one letter says: `-` and the capitals that the execute bit is not set, and letters other
-- than `x` and `-` at its place that the special bit is.
unfoldable letter_weight : ℕ → ℕ → ℕ
letter_weight c w = if c == b'-' then 0 else w

unfoldable execute_weight : ℕ → ℕ → ℕ → ℕ → ℕ → ℕ
execute_weight c lower upper w special =
    if c == b'-'
    then 0
    else if c == b'x'
    then w
    else if c == lower
    then w + special
    else if c == upper
    then special
    else 0

-- The mode of a text of nine letters.
unfoldable pub mode_of : Bytes → ℕ
unfolding letter_weight execute_weight
mode_of (r1 ∷ w1 ∷ x1 ∷ r2 ∷ w2 ∷ x2 ∷ r3 ∷ w3 ∷ x3 ∷ []) =
    letter_weight r1 256
    + letter_weight w1 128
    + execute_weight x1 b's' b'S' 64 2048
    + (letter_weight r2 32 + letter_weight w2 16 + execute_weight x2 b's' b'S' 8 1024)
    + (letter_weight r3 4 + letter_weight w3 2 + execute_weight x3 b't' b'T' 1 512)
mode_of _ = 0

letter_lem : (b : Bool) (c w : ℕ) → (c == b'-') ≡ false → letter_weight (letter b c) w ≡ weight b w
unfolding letter letter_weight weight
letter_lem true c w h = rw h refl
letter_lem false c w h = refl

set_uid_lem :
    (x s : Bool) (w special : ℕ)
    → execute_weight (execute_letter x s b's' b'S') b's' b'S' w special
      ≡ weight x w + weight s special
unfolding execute_letter execute_weight weight
set_uid_lem true true w special = refl
set_uid_lem true false w special = omega arith
set_uid_lem false true w special = omega arith
set_uid_lem false false w special = refl

sticky_lem :
    (x s : Bool) (w special : ℕ)
    → execute_weight (execute_letter x s b't' b'T') b't' b'T' w special
      ≡ weight x w + weight s special
unfolding execute_letter execute_weight weight
sticky_lem true true w special = refl
sticky_lem true false w special = omega arith
sticky_lem false true w special = omega arith
sticky_lem false false w special = refl

bit_weight : (r bit : ℕ) → r < 2 → weight (r == 1) bit ≡ bit * r
unfolding weight
bit_weight zero bit h = omega arith
bit_weight (suc zero) bit h = omega arith
bit_weight (suc (suc r)) bit h = absurd (omega arith)

weight_lem : (n bit : ℕ) → weight (has_flag n bit) bit ≡ bit * (n / bit % 2)
weight_lem n bit = bit_weight (n / bit % 2) bit (omega arith)

and_true : {s : Bool} (b : Bool) → s ≡ true → (b && s) ≡ b
and_true true h = h
and_true false h = refl

-- The value of one letter, and of an execute letter, of the text of a mode.
letter_of :
    (n c bit : ℕ)
    → (c == b'-') ≡ false
    → letter_weight (letter (has_flag n bit) c) bit ≡ bit * (n / bit % 2)
letter_of n c bit h = letter_lem (has_flag n bit) c bit h ∙ weight_lem n bit

set_id_of :
    (n bit sbit : ℕ) {s : Bool}
    → s ≡ true
    → execute_weight
        (execute_letter (has_flag n bit) (has_flag n sbit && s) b's' b'S')
        b's'
        b'S'
        bit
        sbit
      ≡ bit * (n / bit % 2) + sbit * (n / sbit % 2)
set_id_of n bit sbit h =
    rw
      (
        and_true (has_flag n sbit) h,
        set_uid_lem (has_flag n bit) (has_flag n sbit) bit sbit,
        weight_lem n bit,
        weight_lem n sbit,
      )
      refl

sticky_of :
    (n bit sbit : ℕ) {s : Bool}
    → s ≡ true
    → execute_weight
        (execute_letter (has_flag n bit) (has_flag n sbit && s) b't' b'T')
        b't'
        b'T'
        bit
        sbit
      ≡ bit * (n / bit % 2) + sbit * (n / sbit % 2)
sticky_of n bit sbit h =
    rw
      (
        and_true (has_flag n sbit) h,
        sticky_lem (has_flag n bit) (has_flag n sbit) bit sbit,
        weight_lem n bit,
        weight_lem n sbit,
      )
      refl

-- A number below 4096 is the sum of its twelve bits.
twelve_bits :
    (n : ℕ)
    → 256 * (n / 256 % 2)
        + 128 * (n / 128 % 2)
        + (64 * (n / 64 % 2) + 2048 * (n / 2048 % 2))
        + (32 * (n / 32 % 2) + 16 * (n / 16 % 2) + (8 * (n / 8 % 2) + 1024 * (n / 1024 % 2)))
        + (4 * (n / 4 % 2) + 2 * (n / 2 % 2) + (1 * (n / 1 % 2) + 512 * (n / 512 % 2)))
      ≡ n % 4096
twelve_bits n = omega arith

-- With FP_SPECIAL, the text that is made of a mode determines its twelve bits of permissions.
pub mode_of-file_perm_str :
    (perm flags : ℕ)
    → has_flag flags fp_special ≡ true
    → mode_of (file_perm_str perm flags) ≡ perm % 4096
unfolding mode_of file_perm_str
mode_of-file_perm_str perm flags h =
    rw
      (
        mode_of,
        file_perm_str,
        letter_of perm b'r' 256 refl,
        letter_of perm b'w' 128 refl,
        set_id_of perm 64 2048 h,
        letter_of perm b'r' 32 refl,
        letter_of perm b'w' 16 refl,
        set_id_of perm 8 1024 h,
        letter_of perm b'r' 4 refl,
        letter_of perm b'w' 2 refl,
        sticky_of perm 1 512 h,
      )
      (twelve_bits perm)
