-- ===== src/Sendfile/Tests.antt =====
-- 61-3-do_sendfile_with_read_write.c with three bytes and a partial write.
use tlpi_practice.Common.{◌≡◌, refl, true, some, [], ◌∷◌}
use tlpi_practice.Common.Text.{text}
use tlpi_practice.Sendfile.{written, eintr, goes_on, send, my_sendfile}
use tlpi_practice.Sendfile.Prefix.{Sent, my_sendfile-Sent}

goes_on_behind_the_end :
    my_sendfile true (some (text "abc")) (written 2 ∷ eintr ∷ written 1 ∷ written 0 ∷ [])
    ≡ goes_on (text "abc")
unfolding my_sendfile send text
goes_on_behind_the_end = refl

my_sendfile-Sent_example :
    Sent (text "abc") (my_sendfile true (some (text "abc")) (written 2 ∷ eintr ∷ []))
my_sendfile-Sent_example = my_sendfile-Sent (text "abc") (written 2 ∷ eintr ∷ [])
