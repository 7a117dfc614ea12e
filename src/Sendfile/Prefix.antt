-- ===== src/Sendfile/Prefix.antt =====
-- 61-3-do_sendfile_with_read_write.c: what is sent, and that the loop has no other end than an error.
use tlpi_practice.Common.{
  ◌≡◌, refl, ap, ◌∙◌, true, none, some, List, [], ◌∷◌, ◌++◌, take, drop, take-append-drop,
}
use mathlib.Core.List.{append_assoc}
use tlpi_practice.Common.Disk.{Bytes}
use tlpi_practice.Sendfile.{
  Write, written, eintr, error, Result, returns, goes_on, send, my_sendfile,
}

-- The bytes that are out are the first ones of the data, and no count is ever returned.
unfoldable pub Sent : Bytes → Result → Type 0
Sent buf (returns none out) = (rest : Bytes) × (out ++ rest ≡ buf)
Sent buf (returns (some n) out) = ⊥
Sent buf (goes_on out) = (rest : Bytes) × (out ++ rest ≡ buf)

send-Sent :
    (ws : List Write) (out left buf : Bytes) → out ++ left ≡ buf → Sent buf (send ws out left)
unfolding send Sent
send-Sent [] out left buf e = (left, e)
send-Sent (written k ∷ ws) out left buf e = send-Sent ws (out ++ take k left) (drop k left) buf (
    append_assoc out (take k left) (drop k left)
    ∙ (ap (λ s. out ++ s) (take-append-drop k left) ∙ e))
send-Sent (eintr ∷ ws) out left buf e = send-Sent ws out left buf e
send-Sent (error ∷ ws) out left buf e = (left, e)

-- Whatever the writes return, partial ones and signals included, `my_sendfile` sends the bytes that
-- it has read from the front, none twice and none left out between; but it never returns a count: it
-- has returned -1, or it goes on.
pub my_sendfile-Sent : (buf : Bytes) (ws : List Write) → Sent buf (my_sendfile true (some buf) ws)
unfolding my_sendfile
my_sendfile-Sent buf ws = send-Sent ws [] buf buf refl
