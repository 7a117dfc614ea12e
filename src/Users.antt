-- ===== src/Users.antt =====
-- 8-2-realize_getpwnam.c and 9-3-do_initgroups.c: searches of the password and group files.
mod Lookups
mod Tests
use tlpi_practice.Common.{
  ℕ, zero, suc, ◌+◌, Bool, true, false, Option, none, some, List, [], ◌∷◌, ◌++◌, ltb, if◌then◌else◌,
}
use tlpi_practice.Common.CString.{strcmp, is_zero}
use tlpi_practice.Common.Disk.{Bytes}

pub record Passwd : Type 0 where
  pub pw_name : Bytes
  pub pw_uid : ℕ

-- What `m_getpwnam` returns; behind the last record it ends without a `return`.
pub data Found : Type 0 where
  returns : Passwd → Found
  no_value : Found

-- `rest` is what `getpwent` has still to give, and `all` the file, to whose first record the next
-- call goes back behind `endpwent`.
unfoldable pub m_getpwnam : Bytes → List Passwd → List Passwd → Found × List Passwd
m_getpwnam name all [] = (no_value, [])
m_getpwnam name all (pwd ∷ rest) =
    let further = m_getpwnam name all rest in
    if is_zero (strcmp pwd.pw_name name) then (returns pwd, all) else further

pub record Group : Type 0 where
  pub gr_gid : ℕ
  pub gr_mem : List Bytes

-- `while (mem && strcmp(*mem, user) != 0) mem++`: `mem` is never NULL, and the NULL at the end of
-- the list goes to strcmp.
unfoldable pub finds_user : Bytes → List Bytes → Bool
finds_user user [] = false
finds_user user (mem ∷ more) = if is_zero (strcmp mem user) then true else finds_user user more

abbrev pub ngroups_max : ℕ
ngroups_max = 65536

pub data Groups : Type 0 where
  -- the list that is given to setgroups
  set : List ℕ → Groups
  -- strcmp of NULL
  null_pointer : Groups
  -- a write behind `grouplist`
  overrun : Groups

-- The loop over the groups, with `cnt` and the list up to there.
unfoldable pub collect : Bytes → List Group → ℕ → List ℕ → Groups
unfolding finds_user
collect user [] cnt grouplist = set grouplist
collect user (gp ∷ gps) cnt grouplist =
    let rest = collect user gps (suc cnt) (grouplist ++ gp.gr_gid ∷ []) in
    if finds_user user gp.gr_mem
    then (if ltb cnt (ngroups_max + 1) then rest else overrun)
    else null_pointer

unfoldable pub initgroups : Bytes → ℕ → List Group → Groups
unfolding collect
initgroups user group gps = collect user gps 1 (group ∷ [])
