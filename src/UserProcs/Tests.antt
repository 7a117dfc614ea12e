-- ===== src/UserProcs/Tests.antt =====
-- 12-1-show_user_procs.c for a directory of two processes.
use tlpi_practice.Common.{
  ℕ, zero, suc, ◌≡◌, refl, true, false, Option, none, some, List, [], ◌∷◌, ◌++◌, replicate,
  length-replicate, drop, arith, ◌<◌, if◌then◌else◌,
}
use tlpi_practice.Acl.{id_of}
use tlpi_practice.Common.CString.{cstring, strcmp, is_zero}
use tlpi_practice.Common.Disk.{Bytes, overlay}
use tlpi_practice.Common.Text.{text}
use tlpi_practice.Environ.{is_prefix}
use tlpi_practice.Numbers.Long.{strtol, digit_in}
use tlpi_practice.UserProcs.{
  System, File, main, returns, strstr, scan, put, end_line, take_name, take_uid, print_name,
  next_line, then_scan, read_loop, behind_scan, close_file, visit, show,
}
use tlpi_practice.UserProcs.Lines.{Plain, lines, Quiet, AllQuiet}
use tlpi_practice.UserProcs.Shown.{Listed, done, dot, unopened, process, main-Listed}
use tlpi_practice.UserProcs.Status.{Process, status, Good, FirstLine, UidLine, LastLine}

abbrev zeros : Bytes
zeros = replicate 1024 0

abbrev filled : Bytes → ℕ → Process
filled name n = record {
  name = name;
  above = text "State:\tS" ∷ [];
  uid = text "7\t7";
  below = text "FDSize:\t64" ∷ [];
  last = text "Groups:" ++ replicate n 0;
}

abbrev sh : Process
sh = filled (text "sh") 979

abbrev sh_status : Bytes
sh_status = text "Name:\tsh\nState:\tS\nUid:\t7\t7\nFDSize:\t64\nGroups:"

abbrev sh_file : File
sh_file = record { parts = sh_status ∷ []; ends = true }

abbrev opens : Bytes → Option File
opens path = if is_zero (strcmp path (text "/proc/12/status")) then some sh_file else none

abbrev sys : System
sys = record { stale = λ path. zeros; opens = opens; closes = λ path. true; readdir_fails = false }

abbrev getpwnam : Bytes → Option ℕ
getpwnam name = if is_zero (strcmp name (text "ann")) then some 7 else none

abbrev names : List Bytes
names = text "." ∷ text "net" ∷ text "12" ∷ []

shows : main sys getpwnam (some names) (text "ann" ∷ []) ≡ returns (text "sh\n")
unfolding main show visit read_loop behind_scan close_file scan put end_line take_name take_uid
    print_name next_line then_scan strstr is_prefix cstring strcmp overlay text id_of strtol
    digit_in
shows = refl

whole : overlay zeros 0 sh_status ≡ status sh
unfolding overlay text lines
whole = refl

zeros-Plain : (n : ℕ) → Plain (replicate n 0)
unfolding Plain
zeros-Plain zero = tt
zeros-Plain (suc n) = (refl, zeros-Plain n)

last-LastLine : (n : ℕ) → n < 1000 → LastLine (text "Groups:" ++ replicate n 0)
unfolding LastLine Plain text
last-LastLine n h = (
  (refl, (refl, (refl, (refl, (refl, (refl, (refl, zeros-Plain n))))))),
  rw (length-replicate {A = ℕ} n 0) (omega arith),
)

sh-Good : Good sh
unfolding Good FirstLine AllQuiet Quiet UidLine Plain text cstring strstr is_prefix
sh-Good = (
  ((refl, (refl, (refl, (refl, (refl, (refl, (refl, (refl, tt)))))))), refl, omega arith, refl),
  (
    (
      (refl, (refl, (refl, (refl, (refl, (refl, (refl, (refl, tt)))))))),
      refl,
      omega arith,
      refl,
      refl,
    ),
    tt,
  ),
  ((refl, (refl, (refl, (refl, (refl, (refl, (refl, (refl, tt)))))))), refl, omega arith, refl),
  (
    (
      (refl, (refl, (refl, (refl, (refl, (refl, (refl, (refl, (refl, (refl, tt)))))))))),
      refl,
      omega arith,
      refl,
      refl,
    ),
    tt,
  ),
  last-LastLine 979 (omega arith),
)

names-Listed : Listed sys 7 names (text "sh\n")
unfolding strcmp text id_of strtol digit_in
names-Listed = dot (text ".") _ _ refl (
    unopened (text "net") _ _ refl refl (
      process (text "12") [] [] sh b'N' (drop 1 sh_status) [] true refl refl refl whole sh-Good
        done))

main-Listed_example : main sys getpwnam (some names) (text "ann" ∷ []) ≡ returns (text "sh\n")
unfolding strcmp text
main-Listed_example =
    main-Listed sys getpwnam (text "ann") 7 names (text "sh\n") refl refl refl names-Listed

-- What a former file has left behind the end of this one is searched too.
abbrev left : System
left = record {
  stale = λ path. replicate 47 0 ++ text "\nUid:\t7\n";
  opens = opens;
  closes = λ path. true;
  readdir_fails = false;
}

shows_again : main left getpwnam (some names) (text "ann" ∷ []) ≡ returns (text "sh\nsh\n")
unfolding main show visit read_loop behind_scan close_file scan put end_line take_name take_uid
    print_name next_line then_scan strstr is_prefix cstring strcmp overlay text id_of strtol
    digit_in
shows_again = refl
