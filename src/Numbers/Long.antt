-- ===== src/Numbers/Long.antt =====
-- `strtol` of the C library, with its 64-bit `long`, as get_num.c calls it.
use tlpi_practice.Common.{
  ℕ, zero, suc, ◌+◌, ◌-◌, ◌*◌, ◌^◌, Bool, true, false, ◌&&◌, ◌||◌, Option, none, some, [], ◌∷◌, ltb,
  leb, ◌==◌, if◌then◌else◌,
}
use tlpi_practice.Common.Disk.{Bytes}

-- The integers over the native numbers: `negsuc n` is -1 - n.
pub data ℤ : Type 0 where
  pos negsuc : ℕ → ℤ

abbrev pub is_negative : ℤ → Bool
is_negative (pos n) = false
is_negative (negsuc n) = true

abbrev pub is_positive : ℤ → Bool
is_positive (pos n) = ltb 0 n
is_positive (negsuc n) = false

abbrev pub neg : ℕ → ℤ
neg zero = pos zero
neg (suc n) = negsuc n

-- The number, what `endptr` points to, and whether `errno` is ERANGE.
pub record Strtol : Type 0 where
  pub res : ℤ
  pub rest : Bytes
  pub erange : Bool

abbrev between : ℕ → ℕ → ℕ → Bool
between low b high = leb low b && leb b high

-- The value of a digit or of a letter as a digit.
abbrev pub digit_value : ℕ → Option ℕ
digit_value b =
    if between b'0' b b'9'
    then some (b - b'0')
    else if between b'a' b b'z'
    then some (b - b'a' + 10)
    else if between b'A' b b'Z'
    then some (b - b'A' + 10)
    else none

unfoldable pub digit_in : ℕ → ℕ → Option ℕ
digit_in base b = elim (digit_value b) [
  | none ↦ none
  | some d ↦ if ltb d base then some d else none
]

-- The digits from the front, onto the value of those before them.
unfoldable pub scan : ℕ → Bytes → ℕ → ℕ × Bytes
scan base [] acc = (acc, [])
scan base (b ∷ bs) acc = elim (digit_in base b) [
  | none ↦ (acc, b ∷ bs)
  | some d ↦ scan base bs (acc * base + d)
]

abbrev is_space : ℕ → Bool
is_space b = (b == 32) || between 9 b 13

unfoldable pub skip_spaces : Bytes → Bytes
skip_spaces [] = []
skip_spaces (b ∷ bs) = let rest = skip_spaces bs in if is_space b then rest else b ∷ bs

-- Whether there is a minus sign, and what is behind the sign.
unfoldable pub split_sign : Bytes → Bool × Bytes
split_sign [] = (false, [])
split_sign (b ∷ bs) =
    if b == b'-' then (true, bs) else if b == b'+' then (false, bs) else (false, b ∷ bs)

-- `0x` and a digit of base 16.
abbrev hex_digits : Bytes → Option Bytes
hex_digits (z ∷ x ∷ d ∷ bs) =
    if (z == b'0') && ((x == b'x') || (x == b'X'))
    then elim (digit_in 16 d) [ none ↦ none | some n ↦ some (d ∷ bs) ]
    else none
hex_digits _ = none

abbrev starts_octal : Bytes → Bool
starts_octal [] = false
starts_octal (b ∷ bs) = b == b'0'

-- The base of the digits, where 0 asks for that of a literal, and the digits.
unfoldable pub split_base : ℕ → Bytes → ℕ × Bytes
split_base base bs =
    if (base == 0) || (base == 16)
    then elim (hex_digits bs) [
      | some digits ↦ (16, digits)
      | none ↦ (if base == 16 then 16 else if starts_octal bs then 8 else 10, bs)
    ]
    else (base, bs)

-- The result is held to the 64 bits of a `long`.
abbrev pub clamp : Bool → ℕ → Bytes → Strtol
clamp minus n rest =
    if minus
    then (if leb n (2 ^ 63)
        then record { res = neg n; rest = rest; erange = false }
        else record { res = negsuc (2 ^ 63 - 1); rest = rest; erange = true })
    else if ltb n (2 ^ 63)
    then record { res = pos n; rest = rest; erange = false }
    else record { res = pos (2 ^ 63 - 1); rest = rest; erange = true }

abbrev pub starts_number : ℕ → Bytes → Bool
starts_number base [] = false
starts_number base (b ∷ bs) = elim (digit_in base b) [ none ↦ false | some d ↦ true ]

-- Where there is no number, `endptr` is the argument.
unfoldable pub convert : Bytes → Bool → ℕ → Bytes → Strtol
unfolding scan
convert arg minus radix digits =
    let r = scan radix digits 0 in
    if starts_number radix digits
    then clamp minus r.0 r.1
    else record { res = pos 0; rest = arg; erange = false }

unfoldable pub strtol : Bytes → ℕ → Strtol
unfolding convert skip_spaces split_sign split_base
strtol arg base =
    let s = split_sign (skip_spaces arg) in let d = split_base base s.1 in convert arg s.0 d.0 d.1
