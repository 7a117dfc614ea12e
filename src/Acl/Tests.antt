-- ===== src/Acl/Tests.antt =====
-- 17-1-acl.c for a list with a user, a group and a mask.
use tlpi_practice.Common.{ℕ, ◌≡◌, refl, Bool, true, false, none, some, List, [], ◌∷◌, map}
use tlpi_practice.Common.Text.{text}
use tlpi_practice.Numbers.Long.{strtol, skip_spaces, split_sign, split_base, convert, digit_in}
use tlpi_practice.Acl.{
  Tag, user_obj, user, group_obj, group, mask_tag, other_tag, ok, Names, group_query, resolve,
  id_of, line, prints, acl_get_perm, main, collect, get_perm, initial, fails,
}
use tlpi_practice.Acl.Collect.{Plain, entry_of, last_of}
use tlpi_practice.Acl.Filled.{masked}
use tlpi_practice.Acl.Choice.{group_answer, main-group}

abbrev names : Names
names = record {
  passwd_name = λ uid. some (text "ann");
  passwd_uid = λ name. some 7;
  group_name = λ gid. none;
  group_gid = λ name. some 50;
}

abbrev plain : Tag → ℕ → Bool → Bool → Bool → Plain
plain tag id r w x = record { tag = tag; id = id; r = r; w = w; x = x }

abbrev list : List Plain
list =
    plain user_obj 0 true true true
    ∷ plain user 7 true true false
    ∷ plain user 8 true false true
    ∷ plain group_obj 0 true false false
    ∷ plain group 50 true true true
    ∷ plain mask_tag 0 true false true
    ∷ plain other_tag 0 false false false
    ∷ []

by_name : resolve names (text "g") (text "staff") ≡ ok (group_query 50)
unfolding resolve id_of strtol skip_spaces split_sign split_base convert digit_in text
by_name = refl

-- The mask takes the write permission.
main-group_example :
    main names
      (text "acl" ∷ text "g" ∷ text "staff" ∷ text "f" ∷ [])
      (some 0)
      (some (map entry_of list))
      (some [])
    ≡ prints (line (text "group") (some 0) (text "r-x") ∷ [])
unfolding group_answer last_of masked text
main-group_example =
    main-group names (text "acl") (text "g") (text "staff") (text "f") 50 0 list (some []) by_name

-- A list whose third call fails.
failing :
    collect
      (some (record {
        tag = some group;
        permset = some (record { read = some true; write = some true; execute = none });
        qualifier = none;
      })
        ∷ [])
      initial
    ≡ fails acl_get_perm
unfolding collect get_perm
failing = refl
