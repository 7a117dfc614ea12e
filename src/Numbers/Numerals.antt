-- ===== src/Numbers/Numerals.antt =====
-- get_num.c: what becomes of a decimal numeral, with or without a minus sign.
use tlpi_practice.Common.{
  ℕ, zero, suc, ◌+◌, ◌-◌, ◌*◌, ◌^◌, ◌<◌, ◌≡◌, refl, ap, ◌∙◌, Bool, true, false, ◌&&◌, ◌||◌, some,
  List, [], ◌∷◌, arith, ltb, ◌==◌, if◌then◌else◌,
}
use tlpi_practice.Common.Disk.{Bytes}
use tlpi_practice.Numbers.{
  ◌>>=◌, negative_not_allowed, must_be_positive, out_of_range, strtol_failed, gn_nonneg, gn_gt_0,
  has_flag, Result, value, gn_fail, checked, get_num, get_int, base_of, exceeds_int,
}
use tlpi_practice.Numbers.Long.{
  pos, neg, clamp, Strtol, strtol, convert, starts_number, digit_in, scan, skip_spaces, split_sign,
  split_base,
}

unfoldable pub AllDigits : List ℕ → Type 0
AllDigits [] = Unit {0}
AllDigits (d ∷ ds) = (d < 10) × AllDigits ds

abbrev pub digit : ℕ → ℕ
digit d = b'0' + d

-- The digits as they are written.
abbrev pub ascii : List ℕ → Bytes
ascii [] = []
ascii (d ∷ ds) = digit d ∷ ascii ds

abbrev pub signed : Bool → Bytes → Bytes
signed true bs = b'-' ∷ bs
signed false bs = bs

-- The number that the digits stand for, behind digits that stand for `acc`.
unfoldable pub numeral : ℕ → List ℕ → ℕ
numeral acc [] = acc
numeral acc (d ∷ ds) = numeral (acc * 10 + d) ds

digit_in_ascii : (d : ℕ) → d < 10 → digit_in 10 (digit d) ≡ some d
unfolding digit_in
digit_in_ascii d h = ground arith

scan-ascii : (ds : List ℕ) (acc : ℕ) → AllDigits ds → scan 10 (ascii ds) acc ≡ (numeral acc ds, [])
unfolding scan numeral AllDigits
scan-ascii [] acc h = refl
scan-ascii (d ∷ ds) acc (small, h) =
    let here = digit_in_ascii d small in
    let ih = scan-ascii ds (acc * 10 + d) h in rw (scan, here, ih) refl

skip_spaces-digit : (d : ℕ) (bs : Bytes) → d < 10 → skip_spaces (digit d ∷ bs) ≡ digit d ∷ bs
unfolding skip_spaces
skip_spaces-digit d bs h = ground arith

split_sign-digit : (d : ℕ) (bs : Bytes) → d < 10 → split_sign (digit d ∷ bs) ≡ (false, digit d ∷ bs)
unfolding split_sign
split_sign-digit d bs h = ground arith

convert_number :
    (arg : Bytes) (minus : Bool) (radix : ℕ) (digits : Bytes) (n : ℕ)
    → scan radix digits 0 ≡ (n, [])
    → starts_number radix digits ≡ true
    → convert arg minus radix digits ≡ clamp minus n []
unfolding convert
convert_number arg minus radix digits n read starts = rw (convert, starts, read) refl

starts_digit : (d : ℕ) (bs : Bytes) → d < 10 → starts_number 10 (digit d ∷ bs) ≡ true
starts_digit d bs small = rw (starts_number, digit_in_ascii d small) refl

convert-numeral :
    (arg : Bytes) (minus : Bool) (d : ℕ) (ds : List ℕ)
    → d < 10
    → AllDigits ds
    → convert arg minus 10 (digit d ∷ ascii ds) ≡ clamp minus (numeral 0 (d ∷ ds)) []
unfolding convert AllDigits
convert-numeral arg minus d ds small h =
    convert_number arg minus 10 (digit d ∷ ascii ds) _ (scan-ascii (d ∷ ds) 0 (small, h))
      (starts_digit d (ascii ds) small)

-- The result of `strtol` for a numeral.
strtol-numeral :
    (minus : Bool) (d : ℕ) (ds : List ℕ)
    → d < 10
    → AllDigits ds
    → strtol (signed minus (ascii (d ∷ ds))) 10 ≡ clamp minus (numeral 0 (d ∷ ds)) []
unfolding strtol split_base skip_spaces split_sign
strtol-numeral true d ds small h = convert-numeral _ true d ds small h
strtol-numeral false d ds small h =
    rw (strtol, skip_spaces-digit d (ascii ds) small, split_sign-digit d (ascii ds) small)
      (convert-numeral _ false d ds small h)

-- What the flags make of the number `v`, negated if `minus`.
unfoldable pub verdict : Bool → ℕ → ℕ → Result
verdict minus v flags =
    let n = if minus then neg v else pos v in
    if ltb (if minus then 2 ^ 63 else 2 ^ 63 - 1) v
    then gn_fail strtol_failed
    else if has_flag flags gn_nonneg && (minus && ltb 0 v)
    then gn_fail negative_not_allowed
    else if has_flag flags gn_gt_0 && (minus || v == 0)
    then gn_fail must_be_positive
    else if ltb (if minus then 2 ^ 31 else 2 ^ 31 - 1) v
    then gn_fail out_of_range
    else value n

checked_numeral :
    (minus : Bool) (v flags : ℕ)
    → (checked (clamp minus v []) flags
        >>= (λ n. if exceeds_int n then gn_fail out_of_range else value n))
      ≡ verdict minus v flags
unfolding checked verdict
checked_numeral true zero flags = ground arith
checked_numeral true (suc v) flags = ground arith
checked_numeral false v flags = ground arith

get_int_of_strtol :
    (b : ℕ) (bs : Bytes) (flags : ℕ) {r : Strtol}
    → strtol (b ∷ bs) (base_of flags) ≡ r
    → get_int (some (b ∷ bs)) flags
      ≡ (checked r flags >>= (λ n. if exceeds_int n then gn_fail out_of_range else value n))
unfolding get_int get_num
get_int_of_strtol b bs flags e =
    ap (λ r. checked r flags >>= (λ n. if exceeds_int n then gn_fail out_of_range else value n)) e

-- A decimal numeral, with a minus sign or without, is read as the number that its digits stand for,
-- and `getInt` returns it, unless it is refused: first for not fitting a `long`, then as a negative
-- number or as one that is not positive where the flags forbid it, and last for not fitting an
-- `int`; provided that the flags leave the base at ten.
pub get_int-numeral :
    (minus : Bool) (d : ℕ) (ds : List ℕ) (flags : ℕ)
    → d < 10
    → AllDigits ds
    → base_of flags ≡ 10
    → get_int (some (signed minus (ascii (d ∷ ds)))) flags
      ≡ verdict minus (numeral 0 (d ∷ ds)) flags
get_int-numeral true d ds flags small h ten =
    let read : strtol (signed true (ascii (d ∷ ds))) (base_of flags) ≡ _ =
      rw ten (strtol-numeral true d ds small h) in
    get_int_of_strtol _ _ flags read ∙ checked_numeral true (numeral 0 (d ∷ ds)) flags
get_int-numeral false d ds flags small h ten =
    let read : strtol (signed false (ascii (d ∷ ds))) (base_of flags) ≡ _ =
      rw ten (strtol-numeral false d ds small h) in
    get_int_of_strtol _ _ flags read ∙ checked_numeral false (numeral 0 (d ∷ ds)) flags
