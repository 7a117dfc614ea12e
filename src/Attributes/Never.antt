-- ===== src/Attributes/Never.antt =====
-- 15-7-my_chattr.c: the flags of a file are never changed.
use tlpi_practice.Common.{
  ℕ, ◌≡◌, refl, Bool, true, false, Option, none, List, [], ◌∷◌, ◌||◌, ◌==◌, ◌⊎◌,
}
use tlpi_practice.Common.Disk.{Bytes}
use tlpi_practice.Attributes.Chattr.{
  Outcome, usage, fails, overruns, sets, flag_of, change, flag_loop, first,
}

-- With a first argument that begins with a byte other than NUL, the loop has no other end than to
-- read behind the argument.
pub flag_loop-overruns :
    (op : ℕ) (cs : Bytes) (attr : Option ℕ) → (op == 0) ≡ false → flag_loop op cs attr ≡ overruns
unfolding flag_loop
flag_loop-overruns op [] attr h = rw h refl
flag_loop-overruns op (c ∷ cs) attr h =
    rw (h, flag_loop-overruns op cs (change op attr (flag_of c)) h) refl

-- Whether a name begins with one of the three letters.
abbrev pub letter_first : Bytes → Bool
letter_first path = (first path == b'+') || ((first path == b'-') || (first path == b'='))

-- When each end is reached, for a first argument, the name of the file, and what the calls give. The
-- flags that are set are those that the file has had, by an empty argument.
unfoldable pub Unchanged : Bytes → Bytes → Bool → Option ℕ → Bool → Outcome → Type 0
Unchanged flags path opens got settable usage = letter_first path ≡ false
Unchanged flags path opens got settable fails =
    (letter_first path ≡ true)
    × ((opens ≡ false)
        ⊎ (((first path == b'=') ≡ false)
            ⊎ ((got ≡ none) ⊎ ((first flags ≡ 0) × (settable ≡ false)))))
Unchanged flags path opens got settable overruns =
    (opens ≡ true) × ((first path == b'=') ≡ true) × ((first flags == 0) ≡ false)
Unchanged flags path opens got settable (sets a) =
    (opens ≡ true) × ((first path == b'=') ≡ true) × (first flags ≡ 0) × (got ≡ a)

abbrev pub AllUnchanged : List Bytes → Bool → Option ℕ → Bool → Outcome → Type 0
AllUnchanged (a ∷ flags ∷ path ∷ []) opens got settable o =
    Unchanged flags path opens got settable o
AllUnchanged _ opens got settable o = o ≡ usage
