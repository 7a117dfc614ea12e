-- ===== src/Users/Tests.antt =====
-- 8-2-realize_getpwnam.c and 9-3-do_initgroups.c for two users and two groups.
use tlpi_practice.Common.{◌≡◌, refl, List, [], ◌∷◌, arith}
use tlpi_practice.Common.CString.{strcmp}
use tlpi_practice.Common.Text.{text}
use tlpi_practice.Users.{
  Passwd, returns, no_value, m_getpwnam, Group, set, null_pointer, finds_user, initgroups,
}
use tlpi_practice.Users.Lookups.{Good, all_list, m_getpwnam-Good, initgroups_lem}

abbrev ann : Passwd
ann = record { pw_name = text "ann"; pw_uid = 7 }

abbrev bob : Passwd
bob = record { pw_name = text "bob"; pw_uid = 8 }

abbrev file : List Passwd
file = ann ∷ bob ∷ []

found : m_getpwnam (text "bob") file file ≡ (returns bob, file)
unfolding m_getpwnam strcmp text
found = refl

-- After a miss, a name that is in the file is not found either.
missed : m_getpwnam (text "ann") file ((m_getpwnam (text "eve") file file).1) ≡ (no_value, [])
unfolding m_getpwnam strcmp text
missed = refl

found-Good : Good (text "bob") file file (m_getpwnam (text "bob") file file)
found-Good = m_getpwnam-Good (text "bob") file file

abbrev staff : Group
staff = record { gr_gid = 50; gr_mem = text "ann" ∷ text "bob" ∷ [] }

abbrev wheel : Group
wheel = record { gr_gid = 10; gr_mem = text "ann" ∷ [] }

member_of_both : initgroups (text "ann") 100 (staff ∷ wheel ∷ []) ≡ set (100 ∷ 50 ∷ 10 ∷ [])
unfolding all_list finds_user strcmp text
member_of_both = initgroups_lem (text "ann") 100 (staff ∷ wheel ∷ []) (omega arith)

-- The ordinary case, a group of which the user is no member.
member_of_one : initgroups (text "bob") 100 (staff ∷ wheel ∷ []) ≡ null_pointer
unfolding all_list finds_user strcmp text
member_of_one = initgroups_lem (text "bob") 100 (staff ∷ wheel ∷ []) (omega arith)
