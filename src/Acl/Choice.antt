-- ===== src/Acl/Choice.antt =====
-- 17-1-acl.c: what the program prints for a group and for a user.
use Prim.Native.Nat.{bit_and}
use tlpi_practice.Common.{
  ℕ, ◌≡◌, refl, ap, Option, none, some, List, [], ◌∷◌, map, ◌==◌, if◌then◌else◌, Option-cases,
  Bool-cases, inl, inr,
}
use tlpi_practice.Common.Disk.{Bytes}
use tlpi_practice.Common.Text.{text}
use tlpi_practice.Acl.{
  ok, GrpNode, initial, Names, group_query, resolve, Line, line, letters, Outcome, prints, diverges,
  uninitialized, strays, find_group, find_groups, finish, answer, run, main,
}
use tlpi_practice.Acl.Collect.{
  Plain, entry_of, last_of, is_user_obj, is_user, is_group, is_mask, collect-collected,
}
use tlpi_practice.Acl.Filled.{
  filled, find_perm, find_perm-filled, letters-masked, mask-filled, masked, other_line-filled,
  others, shown,
}

find_group-find_perm :
    (uid mask gid : ℕ) (ns : List GrpNode)
    → find_group uid mask gid ns ≡ elim (find_perm gid ns) [
      | none ↦ none
      | some perm ↦ some (line (text "group") (some uid) (letters (bit_and perm mask)))
    ]
unfolding find_group
find_group-find_perm uid mask gid [] = refl
find_group-find_perm uid mask gid (n ∷ ns) = elim (Bool-cases (gid == n.gid)) [
  | inl same ↦ rw (find_group, same) refl
  | inr differs ↦ rw (find_group, differs) (find_group-find_perm uid mask gid ns)
]

-- What the program prints for a group.
unfoldable pub group_answer : ℕ → List Plain → Line
group_answer gid es = elim (last_of (is_group gid) es) [
  | none ↦ others es
  | some e ↦ line (text "group") (some 0) (masked e (last_of is_mask es))
]

answer-group :
    (owner gid : ℕ) (es : List Plain) (groups : Option (List ℕ))
    → answer owner groups (group_query gid) (filled es) ≡ prints (group_answer gid es ∷ [])
unfolding answer finish find_groups group_answer
answer-group owner gid es groups =
    let found = find_perm-filled gid es in
    let mask = mask-filled es in
    elim (Option-cases (last_of (is_group gid) es)) [
      | inl missing ↦
          rw
            (
              answer,
              finish,
              find_groups,
              group_answer,
              find_group-find_perm 0 (filled es).mask gid (filled es).grp_list,
              rw missing at found,
              missing,
            )
            (ap (λ o. prints (o ∷ [])) (other_line-filled es))
      | inr (e, is) ↦
          rw
            (
              answer,
              finish,
              find_groups,
              group_answer,
              find_group-find_perm 0 (filled es).mask gid (filled es).grp_list,
              rw is at found,
              is,
              mask,
              letters-masked e (last_of is_mask es),
            )
            refl
    ]

-- What the program does for a user, where getgrent gives the groups `gids`.
unfoldable pub user_answer : ℕ → ℕ → List Plain → List ℕ → Outcome
user_answer uid owner es gids =
    if uid == owner
    then elim (last_of is_user_obj es) [
      | none ↦ uninitialized
      | some e ↦ prints (line (text "user_obj") none (shown e.r e.w e.x) ∷ others es ∷ [])
    ]
    else elim (last_of is_user es) [
      | none ↦ elim gids [ [] ↦ prints (others es ∷ []) | _ ∷ _ ↦ strays ]
      | some e ↦
          if e.id == uid
          then prints
              (line (text "user") (some uid) (masked e (last_of is_mask es)) ∷ others es ∷ [])
          else diverges
    ]

-- Where the argument names a group, and the list can be read, the program prints one line: the last
-- entry of the list for that group, with the permissions that the last mask leaves of it, and where
-- there is none, the entry of the others without the mask. The number that stands behind the word
-- "group" is always 0.
pub main-group :
    (names : Names) (argv0 kind arg path : Bytes) (gid owner : ℕ) (es : List Plain)
    (groups : Option (List ℕ))
    → resolve names kind arg ≡ ok (group_query gid)
    → main names (argv0 ∷ kind ∷ arg ∷ path ∷ []) (some owner) (some (map entry_of es)) groups
      ≡ prints (group_answer gid es ∷ [])
unfolding main run
main-group names argv0 kind arg path gid owner es groups asked =
    rw (main, run, asked, collect-collected es initial) (answer-group owner gid es groups)
