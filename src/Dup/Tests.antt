-- ===== src/Dup/Tests.antt =====
-- 5-4-fcntl_to_dup.c with descriptors 0 to 2 open.
use tlpi_practice.Common.{ℕ, ◌≡◌, refl, Option, none, some, ltb, arith, if◌then◌else◌}
use tlpi_practice.Dup.{
  Table, einval, fd, fails, lowest_free, f_dupfd, mydup, mydup2, is_open, Result, Errno,
}
use tlpi_practice.Dup.Refines.{Dup2, mydup2-Dup2}

abbrev three : Table
three d = if ltb d 3 then some d else none

abbrev number : Result → Option ℕ
number (fd n t) = some n
number (fails e t) = none

abbrev error : Result → Option Errno
error (fd n t) = none
error (fails e t) = some e

lowest : number (mydup 16 0 three) ≡ some 3
unfolding mydup f_dupfd lowest_free
lowest = refl

-- Where `dup2` has EBADF for a number that can be no descriptor, `mydup2` has the error of F_DUPFD.
too_large : error (mydup2 16 0 (some 16) three) ≡ some einval
unfolding mydup2 f_dupfd is_open
too_large = refl

mydup2-Dup2_example : Dup2 0 2 three (mydup2 16 0 (some 2) three)
mydup2-Dup2_example = mydup2-Dup2 16 0 2 three (omega arith)
