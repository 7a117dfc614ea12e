-- ===== src/Login.antt =====
-- 40-2-changed_utmpx_login.c: the records that the program writes for a login and for a logout; and
-- in Lookup, the searches of 40-1-my_getlogin and 40-4-my_who.c.
mod Records
pub mod Lookup
mod Missed
mod Tests
use tlpi_practice.Common.{
  ℕ, zero, suc, ◌-◌, Bool, true, false, not, Option, none, some, List, [], ◌∷◌, ◌++◌, take, drop,
  length, leb, ltb, replicate, ◌==◌, if◌then◌else◌,
}
use tlpi_practice.Common.CString.{cstring, strcmp, is_zero}
use tlpi_practice.Common.Disk.{Bytes}
use tlpi_practice.Common.Text.{text}
use tlpi_practice.Numbers.{gn_nonneg, Result, value, gn_fail, get_int}

pub data UtType : Type 0 where
  user_process dead_process : UtType

-- `struct utmpx`, with the members that the program sets, and `struct lastlog`.
pub record Utmpx : Type 0 where
  pub ut_type : UtType
  pub ut_user : Bytes
  pub ut_time : ℕ
  pub ut_pid : ℕ
  pub ut_line : Bytes
  pub ut_id : Bytes

pub record Lastlog : Type 0 where
  pub ll_time : ℕ
  pub ll_line : Bytes
  pub ll_host : Bytes

-- `strncpy(dest, s, n)`: the first `n` bytes, filled up with NULs. `s` is the bytes before the NUL.
unfoldable pub strncpy : ℕ → Bytes → Bytes
strncpy n s = take n (s ++ replicate n 0)

pub data Call : Type 0 where
  pututxline updwtmpx : Utmpx → Call
  write_lastlog : Lastlog → Call

pub data Failure : Type 0 where
  wrong_usage time_fails ttyname_fails name_too_short pututxline_fails bad_sleep_time : Failure
  open_fails no_user lseek_fails write_fails : Failure

-- The calls that the program has made, and how it has ended.
pub data Outcome : Type 0 where
  success : List Call → Outcome
  error : List Call → Failure → Outcome

-- What the system and the functions of ugid_functions.h, which is not here, answer.
pub record Answers : Type 0 where
  pub login_time : Option ℕ
  pub pid : ℕ
  pub ttyname : Option Bytes
  pub puts_login : Bool
  pub logout_time : ℕ
  pub puts_logout : Bool
  pub last_time : ℕ
  pub opens : Bool
  pub user_id : Bytes → Option ℕ
  pub seeks : Bool
  pub writes : Bool

unfoldable pub login_record : ℕ → ℕ → Bytes → Bytes → Utmpx
unfolding strncpy
login_record time pid user dev_name = record {
  ut_type = user_process;
  ut_user = strncpy 32 user;
  ut_time = time;
  ut_pid = pid;
  ut_line = strncpy 32 (drop 5 dev_name);
  ut_id = strncpy 4 (drop 8 dev_name);
}

-- The record of the logout, from that of the login.
unfoldable pub logout_record : ℕ → Utmpx → Utmpx
logout_record time ut = record ut {
  ut_type = dead_process;
  ut_time = time;
  ut_user = replicate 32 0;
}

unfoldable pub last_record : ℕ → Utmpx → Lastlog
unfolding strncpy
last_record time ut = record {
  ll_time = time;
  ll_line = strncpy 32 (cstring ut.ut_line);
  ll_host = strncpy 32 (cstring ut.ut_user);
}

-- From `struct lastlog llog` on, behind the calls before. A name of 32 bytes without a NUL, which
-- strncpy would read on behind, does not arise: `ut_user` is NULs there.
unfoldable pub put_last : Answers → List Call → Utmpx → Outcome
unfolding last_record
put_last a calls ut =
    let llog = last_record a.last_time ut in
    if a.opens
    then elim (a.user_id (cstring llog.ll_host)) [
      | none ↦ error calls no_user
      | some id ↦
          if not a.seeks
          then error calls lseek_fails
          else if a.writes
          then success (calls ++ write_lastlog llog ∷ [])
          else error calls write_fails
    ]
    else error calls open_fails

-- Behind the sleep.
unfoldable pub log_out : Answers → Utmpx → List Call → Outcome
unfolding logout_record put_last
log_out a ut calls =
    let ut' = logout_record a.logout_time ut in
    if a.puts_logout
    then put_last a (calls ++ pututxline ut' ∷ updwtmpx ut' ∷ []) ut'
    else error calls pututxline_fails

-- How long the program sleeps: 15 seconds, or what getInt makes of the argument.
unfoldable pub sleeps : List Bytes → Bool
sleeps [] = true
sleeps (arg ∷ args) = elim (get_int (some arg) gn_nonneg) [ value n ↦ true | gn_fail m ↦ false ]

unfoldable pub log_in : Answers → Bytes → List Bytes → ℕ → Bytes → Outcome
unfolding login_record log_out sleeps
log_in a user more time dev_name =
    let ut = login_record time a.pid user dev_name in
    let calls = pututxline ut ∷ updwtmpx ut ∷ [] in
    if leb (length dev_name) 8
    then error [] name_too_short
    else if not a.puts_login
    then error [] pututxline_fails
    else if sleeps more
    then log_out a ut calls
    else error calls bad_sleep_time

-- `main`, from the arguments behind `argv[0]` on.
unfoldable pub main : Answers → List Bytes → Outcome
unfolding log_in
main a [] = error [] wrong_usage
main a (user ∷ more) =
    if is_zero (strcmp user (text "--help")) then error [] wrong_usage else elim a.login_time [
      | none ↦ error [] time_fails
      | some time ↦ elim a.ttyname [
        | none ↦ error [] ttyname_fails
        | some dev_name ↦ log_in a user more time dev_name
      ]
    ]
