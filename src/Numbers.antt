-- ===== src/Numbers.antt =====
-- get_num.c and get_num.h: numeric arguments of a command, over the `strtol` of the C library.
pub mod Long
pub mod Range
mod Numerals
mod Tests
use tlpi_practice.Common.{
  ℕ, zero, suc, ◌+◌, ◌-◌, ◌*◌, ◌/◌, ◌%◌, ◌^◌, Bool, true, false, not, ◌&&◌, ◌||◌, Option, none,
  some, List, [], ◌∷◌, ltb, leb, ◌==◌, if◌then◌else◌,
}
pub use tlpi_practice.Common.Bits.{has_flag}
use tlpi_practice.Common.Disk.{Bytes}
use tlpi_practice.Numbers.Long.{ℤ, pos, negsuc, is_negative, is_positive, Strtol, strtol}

abbrev pub gn_nonneg : ℕ
gn_nonneg = 1

abbrev pub gn_gt_0 : ℕ
gn_gt_0 = 2

abbrev pub gn_any_base : ℕ
gn_any_base = 64

abbrev pub gn_base_8 : ℕ
gn_base_8 = 128

abbrev pub gn_base_16 : ℕ
gn_base_16 = 256

pub data Message : Type 0 where
  null_or_empty strtol_failed nonnumeric negative_not_allowed must_be_positive out_of_range :
      Message

-- Where `gnFail` is called, the process prints the message and exits.
pub data Result : Type 0 where
  value : ℤ → Result
  gn_fail : Message → Result

infixl 1 ◌>>=◌
abbrev pub ◌>>=◌ : Result → (ℤ → Result) → Result
value n >>= k = k n
gn_fail m >>= k = gn_fail m

abbrev pub base_of : ℕ → ℕ
base_of flags =
    if has_flag flags gn_any_base
    then 0
    else if has_flag flags gn_base_8
    then 8
    else if has_flag flags gn_base_16
    then 16
    else 10

-- The tests behind the call of `strtol`, in the order of the source.
pub checked : Strtol → ℕ → Result
checked r flags = if r.erange then gn_fail strtol_failed else elim r.rest [
  | b ∷ bs ↦ gn_fail nonnumeric
  | [] ↦
      if has_flag flags gn_nonneg && is_negative r.res
      then gn_fail negative_not_allowed
      else if has_flag flags gn_gt_0 && not (is_positive r.res)
      then gn_fail must_be_positive
      else value r.res
]

-- `arg` is none where it is NULL, and the bytes before the NUL otherwise.
unfoldable pub get_num : Option Bytes → ℕ → Result
unfolding checked
get_num none flags = gn_fail null_or_empty
get_num (some []) flags = gn_fail null_or_empty
get_num (some (b ∷ bs)) flags = checked (strtol (b ∷ bs) (base_of flags)) flags

abbrev pub get_long : Option Bytes → ℕ → Result
get_long arg flags = get_num arg flags

-- `res > INT_MAX || res < INT_MIN`
abbrev pub exceeds_int : ℤ → Bool
exceeds_int (pos n) = ltb (2 ^ 31 - 1) n
exceeds_int (negsuc n) = leb (2 ^ 31) n

unfoldable pub get_int : Option Bytes → ℕ → Result
get_int arg flags = do
  res ← get_num arg flags
  if exceeds_int res then gn_fail out_of_range else value res
