-- ===== src/Perms/Tests.antt =====
-- file_perms.c for a set-user-ID program and for a directory like /tmp.
use tlpi_practice.Common.{◌≡◌, refl, ◌%◌}
use tlpi_practice.Common.Text.{text}
use tlpi_practice.Perms.{file_perm_str, letter, execute_letter}
use tlpi_practice.Perms.Decode.{mode_of, mode_of-file_perm_str}

-- 04755 and 01777; without FP_SPECIAL, the special bits are not shown.
shows_set_uid : file_perm_str 2541 1 ≡ text "rwsr-xr-x"
unfolding file_perm_str letter execute_letter text
shows_set_uid = refl

shows_sticky : file_perm_str 1023 1 ≡ text "rwxrwxrwt"
unfolding file_perm_str letter execute_letter text
shows_sticky = refl

hides_set_uid : file_perm_str 2541 0 ≡ text "rwxr-xr-x"
unfolding file_perm_str letter execute_letter text
hides_set_uid = refl

mode_of-file_perm_str_example : mode_of (file_perm_str 2541 1) ≡ 2541 % 4096
mode_of-file_perm_str_example = mode_of-file_perm_str 2541 1 refl
