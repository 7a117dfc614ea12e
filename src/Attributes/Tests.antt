-- ===== src/Attributes/Tests.antt =====
-- 15-7-my_chattr.c and 15-6-chmodarx.c for single files.
use tlpi_practice.Common.{◌≡◌, refl, true, false, none, some, [], ◌∷◌}
use tlpi_practice.Common.Text.{text}
use tlpi_practice.Attributes.Chattr.{overruns, fails, flag_loop, main}
use tlpi_practice.Attributes.Setfattr
use tlpi_practice.Attributes.Chmod.{new_mode, chmod_all}

-- A file whose name begins with "=", and the flag of the append mode.
append_is_lost : main (text "chattr" ∷ text "+a" ∷ text "=f" ∷ []) true (some 0) true ≡ overruns
unfolding main flag_loop text
append_is_lost = refl

ordinary_name : main (text "chattr" ∷ text "=a" ∷ text "+f" ∷ []) true (some 0) true ≡ fails
unfolding main text
ordinary_name = refl

-- A file that its owner may execute is not made executable for the others, and a set-user-ID bit is
-- cleared.
executable : new_mode 0x89c0 ≡ 0x1e4
unfolding new_mode
executable = refl

stops :
    chmod_all ((some 0x8180, true) ∷ (none, true) ∷ (some 0x8180, true) ∷ []) ≡ (0x1a4 ∷ [], false)
unfolding chmod_all new_mode
stops = refl

-- The line that the usage message asks for.
refused :
    Setfattr.main 6 (Setfattr.name (text "user.a") ∷ Setfattr.value (text "x") ∷ []) 5
    ≡ Setfattr.usage
unfolding Setfattr.main Setfattr.options
refused = refl
