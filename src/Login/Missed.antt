-- ===== src/Login/Missed.antt =====
-- 40-1-my_getlogin and 40-4-my_who.c: no record is found.
use tlpi_practice.Common.{
  ◌≡◌, refl, sym, ap, ◌∙◌, Bool, true, false, none, some, List, [], ◌∷◌, take, Bool-cases, inl, inr,
  ◌==◌,
}
use mathlib.Core.Bool.{false≢true}
use tlpi_practice.Common.CString.{strcmp, is_zero, strcmp_eq}
use tlpi_practice.Common.Disk.{Bytes}
use tlpi_practice.Login.Lookup.{Entry, getutxline, my_getlogin, my_who}

abbrev pub absolute : Bytes → Bool
absolute [] = false
absolute (b ∷ bs) = b == b'/'

-- The lines of the utmp file are names below /dev.
unfoldable pub AllRelative : List Entry → Type 0
AllRelative [] = Unit {0}
AllRelative (e ∷ es) = (absolute e.ut_line ≡ false) × AllRelative es

getutxline-absolute :
    (line : Bytes) (file : List Entry)
    → absolute line ≡ true
    → AllRelative file
    → getutxline line file ≡ none
unfolding getutxline AllRelative
getutxline-absolute line [] h rel = refl
getutxline-absolute line (e ∷ es) h (one, rel) =
    elim (Bool-cases (is_zero (strcmp e.ut_line line))) [
      | inl is ↦
          let same : e.ut_line ≡ line = strcmp_eq e.ut_line line is in
          absurd (false≢true (sym one ∙ (ap absolute same ∙ h)))
      | inr other ↦ rw other (getutxline-absolute line es h rel)
    ]

-- As the name of the terminal is looked for with its /dev/, which the lines of the file do not have,
-- neither function finds a record.
pub my_getlogin-none :
    (rest : Bytes) (file : List Entry)
    → AllRelative file
    → (my_getlogin (some (b'/' ∷ rest)) file ≡ none) × (my_who (some (b'/' ∷ rest)) file ≡ none)
unfolding my_getlogin my_who
my_getlogin-none rest file rel =
    let missed = getutxline-absolute (b'/' ∷ rest) file refl rel in
    let cut = getutxline-absolute (take 32 (b'/' ∷ rest)) file refl rel in
    (rw (my_getlogin, missed) refl, cut)
