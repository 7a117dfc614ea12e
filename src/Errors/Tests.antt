-- ===== src/Errors/Tests.antt =====
-- error_functions.c for ENOENT.
use tlpi_practice.Common.{ℕ, ◌≡◌, refl, true, Option, none, some, [], ◌∷◌, ◌++◌}
use tlpi_practice.Common.Disk.{Bytes}
use tlpi_practice.Common.Text.{text}
use tlpi_practice.Errors.{
  flush_stderr, put_stderr, exits_at_once, err_exit, output_error, message, err_text, terminate,
  snprintf,
}
use tlpi_practice.Errors.Bounded.{whole_err, message-line}

abbrev strerror : Option ℕ → Bytes
strerror err = text "No such file or directory"

prints_name : err_exit strerror none 2 (text "open") ≡ (
  put_stderr (text "ERROR [ENOENT No such file or directory] open\n") ∷ flush_stderr ∷ [],
  exits_at_once,
)
unfolding err_exit output_error message err_text terminate text
prints_name = refl

message-line_example :
    message strerror true (some 2) (text "open")
    ≡ snprintf 500 (
        text "ERROR"
        ++ (whole_err strerror true (some 2) ++ (text " " ++ (text "open" ++ text "\n"))))
message-line_example = message-line strerror true (some 2) (text "open")
