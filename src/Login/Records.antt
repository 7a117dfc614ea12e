-- ===== src/Login/Records.antt =====
-- 40-2-changed_utmpx_login.c: the calls that the program makes.
use tlpi_practice.Common.{
  ℕ, ◌≡◌, refl, Bool, true, false, not, none, List, [], ◌∷◌, length, leb, if◌then◌else◌,
  Option-cases, inl, inr,
}
use tlpi_practice.Common.CString.{cstring, strcmp, is_zero}
use tlpi_practice.Common.Disk.{Bytes}
use tlpi_practice.Common.Text.{text}
use tlpi_practice.Login.{
  user_process, dead_process, strncpy, Call, pututxline, updwtmpx, Outcome, success, error,
  wrong_usage, name_too_short, pututxline_fails, bad_sleep_time, Answers, login_record,
  logout_record, last_record, put_last, log_out, log_in, sleeps, main,
}

-- A login record is written to both files, and then a logout record for the same process and
-- terminal with no name, to both files; and the record of the last login is never written. The
-- program may end after each pair of calls.
unfoldable pub Paired : List Call → Type 0
Paired [] = Unit {0}
Paired (pututxline a ∷ updwtmpx b ∷ []) = (b ≡ a) × (a.ut_type ≡ user_process)
Paired (pututxline a ∷ updwtmpx b ∷ pututxline c ∷ updwtmpx d ∷ []) =
    (b ≡ a)
    × (d ≡ c)
    × (a.ut_type ≡ user_process)
    × (c.ut_type ≡ dead_process)
    × (c.ut_line ≡ a.ut_line)
    × (c.ut_id ≡ a.ut_id)
    × (c.ut_pid ≡ a.ut_pid)
    × (cstring c.ut_user ≡ [])
Paired _ = ⊥

unfoldable pub EndsPaired : Outcome → Type 0
EndsPaired (error calls f) = Paired calls
EndsPaired (success calls) = ⊥

either : (b : Bool) (x y : Outcome) → EndsPaired x → EndsPaired y → EndsPaired (if b then x else y)
either true x y p q = p
either false x y p q = q

log_out-EndsPaired :
    (a : Answers) (time : ℕ) (user dev_name : Bytes)
    → a.user_id [] ≡ none
    → EndsPaired (
        log_out a (login_record time a.pid user dev_name) (
          pututxline (login_record time a.pid user dev_name)
          ∷ updwtmpx (login_record time a.pid user dev_name)
          ∷ []))
unfolding log_out put_last EndsPaired Paired logout_record login_record last_record strncpy cstring
log_out-EndsPaired a time user dev_name nobody =
    either a.puts_logout _ _
      (rw nobody (
        either a.opens _ _ (refl, refl, refl, refl, refl, refl, refl, refl)
          (refl, refl, refl, refl, refl, refl, refl, refl)))
      (refl, refl)

log_in-EndsPaired :
    (a : Answers) (user : Bytes) (more : List Bytes) (time : ℕ) (dev_name : Bytes)
    → a.user_id [] ≡ none
    → EndsPaired (log_in a user more time dev_name)
unfolding log_in EndsPaired Paired login_record
log_in-EndsPaired a user more time dev_name nobody =
    let ut = login_record time a.pid user dev_name in
    let calls = pututxline ut ∷ updwtmpx ut ∷ [] in
    let whole =
      either (sleeps more) (log_out a ut calls) (error calls bad_sleep_time)
        (log_out-EndsPaired a time user dev_name nobody) (refl, refl) in
    let put =
      either (not a.puts_login) (error [] pututxline_fails)
        (if sleeps more then log_out a ut calls else error calls bad_sleep_time) tt whole in
    either (leb (length dev_name) 8) (error [] name_too_short)
      (if not a.puts_login
        then error [] pututxline_fails
        else if sleeps more
        then log_out a ut calls
        else error calls bad_sleep_time)
      tt put

-- Whatever the arguments and the answers of the system, the records are written in pairs, to utmp
-- and to wtmp alike, first that of the login and then that of the logout, which differs in its type,
-- its time and its empty name only; and the program always ends with an error and never writes the
-- record of the last login: it looks for the user under the empty name of the logout record. This is
-- where no user has the empty name.
pub main-EndsPaired :
    (a : Answers) (args : List Bytes) → a.user_id [] ≡ none → EndsPaired (main a args)
unfolding main EndsPaired Paired
main-EndsPaired a [] nobody = tt
main-EndsPaired a (user ∷ more) nobody =
    either (is_zero (strcmp user (text "--help"))) (error [] wrong_usage) _ tt
      (elim (Option-cases a.login_time) [
        | inl no_time ↦ rw no_time tt
        | inr (time, known) ↦ elim (Option-cases a.ttyname) [
          | inl no_name ↦ rw (known, no_name) tt
          | inr (dev_name, named) ↦
              rw (known, named) (log_in-EndsPaired a user more time dev_name nobody)
        ]
      ])
