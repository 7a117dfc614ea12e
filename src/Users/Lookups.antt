-- ===== src/Users/Lookups.antt =====
-- 8-2-realize_getpwnam.c and 9-3-do_initgroups.c: what the searches find.
use tlpi_practice.Common.{
  ℕ, suc, ◌+◌, ◌≡◌, ◌≤◌, refl, sym, ap, ◌∙◌, Bool, true, false, List, [], ◌∷◌, ◌++◌, ltb, length,
  map, arith, if◌then◌else◌, Bool-cases, inl, inr,
}
use mathlib.Core.List.{append_assoc, append-nil}
use tlpi_practice.Common.CString.{strcmp, is_zero, strcmp_eq}
use tlpi_practice.Common.Disk.{Bytes}
use tlpi_practice.Users.{
  Passwd, Found, returns, no_value, m_getpwnam, Group, finds_user, ngroups_max, set, null_pointer,
  collect, initgroups,
}

-- A record has the name, and is in the file.
unfoldable pub Good : Bytes → List Passwd → List Passwd → Found × List Passwd → Type 0
Good name all file (returns pwd, next) = (pwd.pw_name ≡ name) × (next ≡ all)
Good name all file (no_value, next) =
    (next ≡ []) × ((other : Bytes) → m_getpwnam other all next ≡ (no_value, []))

-- A record that is returned has the name that is asked for, and the next call begins with the first
-- record again; where no record is left that has it, all later calls end without a value too,
-- for every name, as the file stays at its end.
pub m_getpwnam-Good :
    (name : Bytes) (all file : List Passwd) → Good name all file (m_getpwnam name all file)
unfolding m_getpwnam Good
m_getpwnam-Good name all [] = (refl, λ other. refl)
m_getpwnam-Good name all (pwd ∷ file) = elim (Bool-cases (is_zero (strcmp pwd.pw_name name))) [
  | inl is ↦ rw is (strcmp_eq pwd.pw_name name is, refl)
  | inr other ↦ rw other (m_getpwnam-Good name all file)
]

-- Whether each of the groups has the user as a member.
unfoldable pub all_list : Bytes → List Group → Bool
all_list user [] = true
all_list user (gp ∷ gps) = if finds_user user gp.gr_mem then all_list user gps else false

collect_lem :
    (user : Bytes) (gps : List Group) (cnt : ℕ) (before : List ℕ)
    → cnt + length gps ≤ ngroups_max + 1
    → collect user gps cnt before
      ≡ (if all_list user gps then set (before ++ map (λ gp. gp.gr_gid) gps) else null_pointer)
unfolding collect all_list
collect_lem user [] cnt before few = ap set (sym (append-nil before))
collect_lem user (gp ∷ gps) cnt before few = elim (Bool-cases (finds_user user gp.gr_mem)) [
  | inr out ↦ rw (collect, all_list, out) refl
  | inl member ↦
      let room : ltb cnt (ngroups_max + 1) ≡ true = ground (arith, few) in
      let ids : List ℕ = map (λ g. g.gr_gid) gps in
      rw (collect, all_list, member, room)
        (collect_lem user gps (suc cnt) (before ++ gp.gr_gid ∷ []) (omega (arith, few))
          ∙ ap (λ l. if all_list user gps then set l else null_pointer)
              (append_assoc before (gp.gr_gid ∷ []) ids))
]

-- The groups of a user are set to the first group and all groups of the file, where the user is a
-- member of each of them; at the first group of which he is not, strcmp gets NULL. This is for at
-- most NGROUPS_MAX groups.
pub initgroups_lem :
    (user : Bytes) (group : ℕ) (gps : List Group)
    → length gps ≤ ngroups_max
    → initgroups user group gps
      ≡ (if all_list user gps then set (group ∷ map (λ gp. gp.gr_gid) gps) else null_pointer)
unfolding initgroups
initgroups_lem user group gps few = collect_lem user gps 1 (group ∷ []) (omega (arith, few))
