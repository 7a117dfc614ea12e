-- ===== src/Numbers/Tests.antt =====
-- get_num.c with numbers at the bounds.
use tlpi_practice.Common.{◌≡◌, refl, true, some, [], ◌∷◌, arith}
use tlpi_practice.Numbers.{
  gn_nonneg, gn_any_base, nonnumeric, null_or_empty, negative_not_allowed, value, gn_fail, get_int,
  get_num,
}
use tlpi_practice.Numbers.Long.{
  pos, negsuc, strtol, convert, scan, skip_spaces, split_sign, split_base, digit_in,
}
use tlpi_practice.Numbers.Range.{Checked, get_int-Checked}
use tlpi_practice.Numbers.Numerals.{AllDigits, numeral, verdict, get_int-numeral}

-- ` 0x1F` with any base, `12a`, nothing, and `-7` where no negative number is allowed.
reads_hex : get_int (some (b' ' ∷ b'0' ∷ b'x' ∷ b'1' ∷ b'F' ∷ [])) gn_any_base ≡ value (pos 31)
unfolding get_int get_num strtol convert scan skip_spaces split_sign split_base digit_in
reads_hex = refl

refuses_letters : get_int (some (b'1' ∷ b'2' ∷ b'a' ∷ [])) 0 ≡ gn_fail nonnumeric
unfolding get_int get_num strtol convert scan skip_spaces split_sign split_base digit_in
refuses_letters = refl

refuses_empty : get_int (some []) 0 ≡ gn_fail null_or_empty
unfolding get_int get_num
refuses_empty = refl

refuses_negative : get_int (some (b'-' ∷ b'7' ∷ [])) gn_nonneg ≡ gn_fail negative_not_allowed
unfolding get_int get_num strtol convert scan skip_spaces split_sign split_base digit_in
refuses_negative = refl

get_int-Checked_example : Checked (some (b'-' ∷ b'7' ∷ [])) 0 (get_int (some (b'-' ∷ b'7' ∷ [])) 0)
get_int-Checked_example = get_int-Checked (some (b'-' ∷ b'7' ∷ [])) 0

get_int-numeral_example : get_int (some (b'-' ∷ b'4' ∷ b'2' ∷ [])) 0 ≡ value (negsuc 41)
unfolding AllDigits numeral verdict
get_int-numeral_example = get_int-numeral true 4 (2 ∷ []) 0 (omega arith) (omega arith, tt) refl
