-- ===== src/Numbers/Range.antt =====
-- get_num.c: the range of what is returned.
use tlpi_practice.Common.{
  ℕ, ◌^◌, ◌<◌, ◌≡◌, refl, sym, Bool, true, false, not, ◌&&◌, ◌⊎◌, inl, inr, Option, none, some, [],
  ◌∷◌, arith, if◌then◌else◌, Bool-cases,
}
use tlpi_practice.Common.Disk.{Bytes}
use tlpi_practice.Numbers.{
  ◌>>=◌, negative_not_allowed, must_be_positive, out_of_range, get_long, gn_nonneg, gn_gt_0,
  has_flag, Result, value, gn_fail, checked, get_num, get_int, base_of, exceeds_int,
}
use tlpi_practice.Numbers.Long.{ℤ, pos, negsuc, is_negative, is_positive, strtol}

-- What the flags ask of a number.
pub record Allowed (flags : ℕ) (n : ℤ) : Type 0 where
  pub nonneg : has_flag flags gn_nonneg ≡ true → is_negative n ≡ false
  pub positive : has_flag flags gn_gt_0 ≡ true → is_positive n ≡ true

unfoldable pub InInt : ℤ → Type 0
InInt (pos n) = n < 2 ^ 31
InInt (negsuc n) = n < 2 ^ 31

value-Allowed :
    (flags : ℕ) (res n : ℤ)
    → (if has_flag flags gn_nonneg && is_negative res
        then gn_fail negative_not_allowed
        else if has_flag flags gn_gt_0 && not (is_positive res)
        then gn_fail must_be_positive
        else value res)
      ≡ value n
    → Allowed flags n
value-Allowed flags res n e = elim (Bool-cases (has_flag flags gn_nonneg && is_negative res)) [
  | inl bad ↦ let h : gn_fail negative_not_allowed ≡ value n = rw bad at e in cc
  | inr fine ↦ elim (Bool-cases (has_flag flags gn_gt_0 && not (is_positive res))) [
    | inl bad ↦ let h : gn_fail must_be_positive ≡ value n = rw (fine, bad) at e in cc
    | inr good ↦
        let h : value res ≡ value n = rw (fine, good) at e in
        let same : res ≡ n = cc in
        rw (sym same) (record {
          nonneg = λ f. and_false (is_negative res) f fine;
          positive = λ f. not_false (and_false (not (is_positive res)) f good);
        })
  ]
]
  where
    and_false : {a : Bool} (b : Bool) → a ≡ true → (a && b) ≡ false → b ≡ false
    and_false {a = true} b f h = h
    and_false {a = false} b f h = cc

    not_false : {b : Bool} → not b ≡ false → b ≡ true
    not_false {b = true} h = refl
    not_false {b = false} h = cc

checked-Allowed :
    (res : ℤ) (rest : Bytes) (erange : Bool) (flags : ℕ) (n : ℤ)
    → checked (record { res = res; rest = rest; erange = erange }) flags ≡ value n
    → Allowed flags n
unfolding checked
checked-Allowed res rest true flags n e = cc
checked-Allowed res (b ∷ bs) false flags n e = cc
checked-Allowed res [] false flags n e = value-Allowed flags res n e

get_long-Allowed :
    (arg : Option Bytes) (flags : ℕ) (n : ℤ) → get_long arg flags ≡ value n → Allowed flags n
unfolding get_num
get_long-Allowed none flags n e = cc
get_long-Allowed (some []) flags n e = cc
get_long-Allowed (some (b ∷ bs)) flags n e =
    let r = strtol (b ∷ bs) (base_of flags) in checked-Allowed r.res r.rest r.erange flags n e

-- What a result of `getInt` says of the result of `getLong`.
unfoldable pub Checked : Option Bytes → ℕ → Result → Type 0
Checked arg flags (value n) = (get_long arg flags ≡ value n) × Allowed flags n × InInt n
Checked arg flags (gn_fail m) =
    (get_long arg flags ≡ gn_fail m)
    ⊎ ((n : ℤ) × (get_long arg flags ≡ value n) × ¬ InInt n × (m ≡ out_of_range))

InInt-of_test : (n : ℤ) → exceeds_int n ≡ false → InInt n
unfolding InInt
InInt-of_test (pos n) h = ground arith
InInt-of_test (negsuc n) h = ground arith

not_InInt_of_test : (n : ℤ) → exceeds_int n ≡ true → ¬ InInt n
unfolding InInt
not_InInt_of_test (pos n) h = λ small. ground arith
not_InInt_of_test (negsuc n) h = λ small. ground arith

-- Whatever the argument and the flags are, a number that `getInt` returns is the one that `getLong`
-- returns, fits an `int`, and is not negative or is positive where the flags ask for it; and where
-- `getInt` fails, `getLong` fails with the same message, or returns a number that does not fit an
-- `int`, and the message says so.
pub get_int-Checked : (arg : Option Bytes) (flags : ℕ) → Checked arg flags (get_int arg flags)
unfolding get_int Checked
get_int-Checked arg flags = cases (get_long arg flags) refl
  where
    cases :
        (r : Result)
        → get_long arg flags ≡ r
        → Checked arg flags (r >>= (λ n. if exceeds_int n then gn_fail out_of_range else value n))
    cases (gn_fail m) e = inl e
    cases (value n) e = elim (Bool-cases (exceeds_int n)) [
      | inl out ↦ rw out (inr (n, e, not_InInt_of_test n out, refl))
      | inr fits ↦ rw fits (e, get_long-Allowed arg flags n e, InInt-of_test n fits)
    ]
