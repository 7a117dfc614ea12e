-- ===== src/Login/Tests.antt =====
-- 40-2-changed_utmpx_login.c for a user at a pseudoterminal.
use tlpi_practice.Common.{◌≡◌, refl, true, none, some, [], ◌∷◌}
use tlpi_practice.Common.Text.{text}
use tlpi_practice.Login.{Answers, strncpy, main}
use tlpi_practice.Common.CString.{strcmp}
use tlpi_practice.Login.Lookup.{getutxline, my_getlogin}
use tlpi_practice.Login.Records.{EndsPaired, main-EndsPaired}

abbrev answers : Answers
answers = record {
  login_time = some 100;
  pid = 7;
  ttyname = some (text "/dev/pts/0");
  puts_login = true;
  logout_time = 115;
  puts_logout = true;
  last_time = 115;
  opens = true;
  user_id = λ name. elim name [ [] ↦ none | _ ↦ some 1000 ];
  seeks = true;
  writes = true;
}

-- The id of a terminal is cut to four bytes.
cut : strncpy 4 (text "s/123") ≡ text "s/12"
unfolding strncpy text
cut = refl

main-EndsPaired_example : EndsPaired (main answers (text "ann" ∷ []))
main-EndsPaired_example = main-EndsPaired answers (text "ann" ∷ []) refl

-- The line of the utmp file is that of the terminal.
not_found :
    my_getlogin
      (some (text "/dev/tty1"))
      (record { ut_line = text "tty1"; ut_user = text "ann" } ∷ [])
    ≡ none
unfolding my_getlogin getutxline strcmp text
not_found = refl
