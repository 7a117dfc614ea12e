-- ===== src/Descriptors/Tests.antt =====
-- The programs of this part on small inputs.
use tlpi_practice.Common.{◌≡◌, refl, true, false, none, some, [], ◌∷◌}
use tlpi_practice.Common.Text.{text}
use tlpi_practice.Descriptors.MapCopy.{done, copy}
use tlpi_practice.Descriptors.Pipe.{my_pipe}
use tlpi_practice.Descriptors.Fifo.{got, eintr, init_avail, reserve_sem}
use tlpi_practice.Descriptors.Key.{my_ftok}
use tlpi_practice.Descriptors.Whole.{copy-source}

shorter : copy (some (text "ab")) (some (text "xyz")) true true ≡ done (text "ab")
unfolding text
shorter = copy-source (text "ab") (text "xyz")

not_shut : (my_pipe (some (3, 4)) false).closed ≡ 3 ∷ 4 ∷ []
unfolding my_pipe
not_shut = refl

-- A read that is interrupted is tried again.
again :
    elim (reserve_sem false (eintr ∷ got 1 ∷ []) ((init_avail 9 true true).sem)) [
      | none ↦ false
      | some d ↦ d.ret
    ]
    ≡ true
unfolding reserve_sem init_avail
again = refl

key : my_ftok (some (record { st_dev = 2; st_ino = 3 })) 1 ≡ some 0x1000302
unfolding my_ftok
key = refl
