-- ===== src/Login/Lookup.antt =====
-- 40-1-my_getlogin and 40-4-my_who.c: the record of a terminal in the utmp file.
use tlpi_practice.Common.{Option, none, some, List, [], ◌∷◌, take, if◌then◌else◌}
use tlpi_practice.Common.CString.{strcmp, is_zero}
use tlpi_practice.Common.Disk.{Bytes}

-- A record of a login, with the bytes before the NULs.
pub record Entry : Type 0 where
  pub ut_line : Bytes
  pub ut_user : Bytes

-- What `getutxline` gives: the first record of the line.
unfoldable pub getutxline : Bytes → List Entry → Option Entry
getutxline line [] = none
getutxline line (e ∷ es) = if is_zero (strcmp e.ut_line line) then some e else getutxline line es

-- `tty` is what `ttyname` gives, which begins with /dev/; the name goes into `ut_line` as it is.
unfoldable pub my_getlogin : Option Bytes → List Entry → Option Bytes
unfolding getutxline
my_getlogin none file = none
my_getlogin (some name) file = elim (getutxline name file) [ none ↦ none | some e ↦ some e.ut_user ]

-- What `my_who` prints of the record, or none where it ends with an error.
unfoldable pub my_who : Option Bytes → List Entry → Option Entry
unfolding getutxline
my_who none file = none
my_who (some tty) file = getutxline (take 32 tty) file
