-- ===== src/Attributes/Chattr.antt =====
-- 15-7-my_chattr.c: what the program does with its two arguments.
use Prim.Native.Nat.{bit_and, bit_or}
use tlpi_practice.Common.{
  ℕ, Bool, Option, none, some, List, [], ◌∷◌, ◌++◌, ◌||◌, ◌==◌, not, if◌then◌else◌,
}
use tlpi_practice.Common.Disk.{Bytes}

pub data Outcome : Type 0 where
  usage : Outcome
  fails : Outcome
  -- a byte behind the end of the first argument is read
  overruns : Outcome
  -- the flags that are set; none where they come from a variable without a value
  sets : Option ℕ → Outcome

-- The flag of a letter; `FLAG` has no value where there is none.
unfoldable pub flag_of : ℕ → Option ℕ
flag_of c =
    if c == b'a'
    then some 0x20
    else if c == b'c'
    then some 0x4
    else if c == b'D'
    then some 0x10000
    else if c == b'i'
    then some 0x10
    else if c == b'j'
    then some 0x4000
    else if c == b'A'
    then some 0x80
    else if c == b'd'
    then some 0x40
    else if c == b't'
    then some 0x8000
    else if c == b's'
    then some 0x1
    else if c == b'S'
    then some 0x8
    else if c == b'T'
    then some 0x20000
    else if c == b'u'
    then some 0x2
    else none

-- `attr &= FLAG` for `=`, and `attr |= FLAG` for the others.
unfoldable pub change : ℕ → Option ℕ → Option ℕ → Option ℕ
change op none flag = none
change op (some attr) none = none
change op (some attr) (some flag) =
    some (if op == b'=' then bit_and attr flag else bit_or attr flag)

-- The loop from `argv[1][i]` on, where the list holds the bytes from there to the NUL. The test
-- looks at `argv[1][0]`, which is `op` in every round.
unfoldable pub flag_loop : ℕ → Bytes → Option ℕ → Outcome
unfolding flag_of change
flag_loop op [] attr = if op == 0 then sets attr else overruns
flag_loop op (c ∷ cs) attr =
    let rest = flag_loop op cs (change op attr (flag_of c)) in if op == 0 then sets attr else rest

abbrev pub first : Bytes → ℕ
first [] = 0
first (b ∷ bs) = b

abbrev pub rest_of : Bytes → Bytes
rest_of [] = []
rest_of (b ∷ bs) = bs ++ 0 ∷ []

-- `main`, where `opens` is whether the file can be opened, `got` what FS_IOC_GETFLAGS gives, and
-- `settable` whether FS_IOC_SETFLAGS works. Both tests of the first letter look at the name of the
-- file.
unfoldable pub main : List Bytes → Bool → Option ℕ → Bool → Outcome
unfolding flag_loop
main (argv0 ∷ flags ∷ path ∷ []) opens got settable =
    let c = first path in
    if (c == b'+') || ((c == b'-') || (c == b'='))
    then (if not opens then fails else if not (c == b'=') then fails else elim got [
      | none ↦ fails
      | some attr ↦ elim (flag_loop (first flags) (rest_of flags) (some attr)) [
        | sets a ↦ if settable then sets a else fails
        | usage ↦ usage
        | fails ↦ fails
        | overruns ↦ overruns
      ]
    ])
    else usage
main _ opens got settable = usage
