-- ===== src/Acl.antt =====
-- 17-1-acl.c: which entry of an access control list holds for a user or a group. The text does not
-- compile: it is read with the semicolons that are missing behind the two structs, with `perm` for
-- `per` in line 149, `group_obj` as a node of its own type, and the two nodes `tmp` of the switch in
-- scopes of their own. The walk in the search of the groups names a field that there is not; it is read
-- as that of the group, `ent`. A call of malloc that fails is left out.
mod Collect
mod Filled
mod Choice
mod Tests
use Prim.Native.Nat.{bit_and}
use tlpi_practice.Common.{
  ℕ, ◌+◌, ◌-◌, ◌*◌, ◌%◌, ◌^◌, Bool, true, false, Option, none, some, List, [], ◌∷◌, ◌++◌, ◌==◌,
  if◌then◌else◌,
}
use tlpi_practice.Common.Bits.{has_flag}
use tlpi_practice.Common.Disk.{Bytes}
use tlpi_practice.Common.Text.{text}
use tlpi_practice.Numbers.Long.{ℤ, pos, negsuc, strtol}

pub data Tag : Type 0 where
  user_obj user group_obj group mask_tag other_tag : Tag

-- The calls of libacl and of the system whose failure ends the program.
pub data Call : Type 0 where
  acl_get_permset acl_get_perm acl_get_tag_type acl_get_qualifier acl_get_entry : Call
  getpwuid getpwnam getgrgid getgrnam getgrent stat : Call

pub data Result (A : Type 0) : Type 0 where
  ok : A → Result A
  usage : Result A
  fails : Call → Result A

infixl 5 ◌>>=◌
abbrev pub ◌>>=◌ : {A B : Type 0} → Result A → (A → Result B) → Result B
(ok a) >>= f = f a
usage >>= f = usage
(fails c) >>= f = fails c

-- An answer of a library that may be a failure.
abbrev pub need : {A : Type 0} → Call → Option A → Result A
need c none = fails c
need c (some a) = ok a

-- What `acl_get_perm` returns of the three permissions.
pub record Permset : Type 0 where
  pub read : Option Bool
  pub write : Option Bool
  pub execute : Option Bool

-- What the calls of libacl return of one entry.
pub record Entry : Type 0 where
  pub tag : Option Tag
  pub permset : Option Permset
  pub qualifier : Option ℕ

abbrev pub bit : Bool → ℕ
bit b = if b then 1 else 0

unfoldable pub get_perm : Entry → Result ℕ
get_perm entry = do
  permset ← need acl_get_permset entry.permset
  r ← need acl_get_perm permset.read
  w ← need acl_get_perm permset.write
  x ← need acl_get_perm permset.execute
  ok (4 * bit r + 2 * bit w + 1 * bit x)

pub record UsrNode : Type 0 where
  pub uid : ℕ
  pub perm : ℕ

pub record GrpNode : Type 0 where
  pub gid : ℕ
  pub perm : ℕ

-- The variables that the loop over the entries fills. Before it, `user_obj.perm` has no value, and
-- `other` is -1, which is `none` here. The lists are those behind the two header nodes.
pub record Lists : Type 0 where
  pub user_obj_perm : Option ℕ
  pub group_obj_perm : Option ℕ
  pub usr_list : List UsrNode
  pub grp_list : List GrpNode
  pub mask : ℕ
  pub other : Option ℕ

abbrev pub initial : Lists
initial = record {
  user_obj_perm = none;
  group_obj_perm = none;
  usr_list = [];
  grp_list = [];
  mask = 7;
  other = none;
}

-- The switch.
unfoldable pub put_entry : Tag → ℕ → Option ℕ → Lists → Result Lists
put_entry user_obj perm id l = ok (record l { user_obj_perm = some perm })
put_entry user perm id l = do
  uid ← need acl_get_qualifier id
  ok (record l { usr_list = record { uid = uid; perm = perm } ∷ l.usr_list })
put_entry group_obj perm id l = ok (record l { group_obj_perm = some perm })
put_entry group perm id l = do
  gid ← need acl_get_qualifier id
  ok (record l { grp_list = record { gid = gid; perm = perm } ∷ l.grp_list })
put_entry mask_tag perm id l = ok (record l { mask = perm })
put_entry other_tag perm id l = ok (record l { other = some perm })

-- The loop over the entries; `none` is an `acl_get_entry` that fails.
unfoldable pub collect : List (Option Entry) → Lists → Result Lists
unfolding get_perm put_entry
collect [] l = ok l
collect (none ∷ es) l = fails acl_get_entry
collect (some entry ∷ es) l = do
  tag ← need acl_get_tag_type entry.tag
  perm ← get_perm entry
  l' ← put_entry tag perm entry.qualifier l
  collect es l'

-- The passwd and group files: a name for a number, and a number for a name.
pub record Names : Type 0 where
  pub passwd_name : ℕ → Option Bytes
  pub passwd_uid : Bytes → Option ℕ
  pub group_name : ℕ → Option Bytes
  pub group_gid : Bytes → Option ℕ

-- `atoi` into a uid_t or gid_t.
unfoldable pub id_of : ℤ → ℕ
id_of (pos n) = n % 2 ^ 32
id_of (negsuc n) = 2 ^ 32 - 1 - n % 2 ^ 32

pub data Kind : Type 0 where
  for_user for_group : Kind

-- Which number is asked for: `uid` or `gid`, of which the other is 0.
pub record Query : Type 0 where
  pub kind : Kind
  pub uid : ℕ
  pub gid : ℕ

abbrev pub user_query : ℕ → Query
user_query uid = record { kind = for_user; uid = uid; gid = 0 }

abbrev pub group_query : ℕ → Query
group_query gid = record { kind = for_group; uid = 0; gid = gid }

-- A number other than 0 is looked up by number, and all else by name.
unfoldable pub resolve : Names → Bytes → Bytes → Result Query
unfolding id_of
resolve names (c ∷ []) arg =
    let id = id_of ((strtol arg 10).res) in
    if c == b'u'
    then (if id == 0
        then (need getpwnam (names.passwd_uid arg) >>= λ uid. ok (user_query uid))
        else (need getpwuid (names.passwd_name id) >>= λ name. ok (user_query id)))
    else if c == b'g'
    then (if id == 0
        then (need getgrnam (names.group_gid arg) >>= λ gid. ok (group_query gid))
        else (need getgrgid (names.group_name id) >>= λ name. ok (group_query id)))
    else usage
resolve names _ arg = usage

-- A line that is printed: the word, the number behind it if there is one, and the three letters.
pub record Line : Type 0 where
  pub word : Bytes
  pub id : Option ℕ
  pub letters : Bytes

unfoldable pub letters : ℕ → Bytes
letters perm =
    (if has_flag perm 4 then b'r' else b'-')
    ∷ (if has_flag perm 2 then b'w' else b'-')
    ∷ (if has_flag perm 1 then b'x' else b'-')
    ∷ []

abbrev pub line : Bytes → Option ℕ → Bytes → Line
line word id ls = record { word = word; id = id; letters = ls }

-- Every bit of -1 is set.
unfoldable pub other_line : Option ℕ → Line
unfolding letters
other_line none = line (text "other") none (text "rwx")
other_line (some perm) = line (text "other") none (letters perm)

pub data Outcome : Type 0 where
  prints : List Line → Outcome
  -- `user_obj.perm` is read before it is set
  uninitialized : Outcome
  diverges : Outcome
  -- the walk through the bytes behind the first name of a group, which no NULL ends
  strays : Outcome
  failed : Call → Outcome
  wrong_usage : Outcome

-- `while (p)` in the branch for a user, which does not move `p`.
unfoldable pub find_user : ℕ → ℕ → List UsrNode → Outcome
unfolding letters
find_user uid mask [] = prints []
find_user uid mask (p ∷ ps) =
    if p.uid == uid
    then prints (line (text "user") (some uid) (letters (bit_and p.perm mask)) ∷ [])
    else diverges

-- The loop over the groups, by their numbers, with what follows behind it. For the first group
-- already, `mem` goes on byte by byte from the first name, and an address of a byte is never NULL.
unfoldable pub search_groups : List ℕ → Outcome → Outcome
search_groups [] o = o
search_groups (gid ∷ gids) o = strays

-- The inner loop over `grp_list`, and the loop over `grp_to_check`. The number that they print is
-- `uid`.
unfoldable pub find_group : ℕ → ℕ → ℕ → List GrpNode → Option Line
unfolding letters
find_group uid mask gid [] = none
find_group uid mask gid (n ∷ ns) =
    if gid == n.gid
    then some (line (text "group") (some uid) (letters (bit_and n.perm mask)))
    else find_group uid mask gid ns

unfoldable pub find_groups : ℕ → ℕ → List GrpNode → List ℕ → Option Line
unfolding find_group
find_groups uid mask ns [] = none
find_groups uid mask ns (gid ∷ gids) = elim (find_group uid mask gid ns) [
  | none ↦ find_groups uid mask ns gids
  | some l ↦ some l
]

-- From `int match = 0` of line 256 on: the group's line, or that of the others.
unfoldable pub finish : List Line → Query → Lists → List ℕ → Outcome
unfolding find_groups other_line
finish printed q l to_check = elim (find_groups q.uid l.mask l.grp_list to_check) [
  | none ↦ prints (printed ++ other_line l.other ∷ [])
  | some g ↦ prints (printed ++ g ∷ [])
]

-- What the system tells of the groups: those that getgrent gives, or that it has failed. `groups` is
-- none where the first call fails.
unfoldable pub ask_user : ℕ → Option (List ℕ) → Query → Lists → Outcome
unfolding find_user search_groups finish
ask_user owner groups q l =
    if q.uid == owner
    then elim l.user_obj_perm [
      | none ↦ uninitialized
      | some perm ↦ finish (line (text "user_obj") none (letters perm) ∷ []) q l []
    ]
    else elim (find_user q.uid l.mask l.usr_list) [
      | prints [] ↦ elim groups [
        | none ↦ failed getgrent
        | some gids ↦ search_groups gids (finish [] q l [])
      ]
      | prints (found ∷ more) ↦ finish (found ∷ more) q l []
      | uninitialized ↦ uninitialized
      | diverges ↦ diverges
      | strays ↦ strays
      | failed c ↦ failed c
      | wrong_usage ↦ wrong_usage
    ]

unfoldable pub answer : ℕ → Option (List ℕ) → Query → Lists → Outcome
unfolding ask_user finish
answer owner groups q l = elim q.kind [
  | for_user ↦ ask_user owner groups q l
  | for_group ↦ finish [] q l (q.gid ∷ [])
]

-- `main` behind the count of its arguments: the owner of the file is what `stat` gives, and the
-- entries are those of `acl_get_file`. Its failure is NULL, which the test for -1 lets through, and
-- acl_get_entry refuses.
unfoldable pub run :
    Names
    → Bytes
    → Bytes
    → Option ℕ
    → Option (List (Option Entry))
    → Option (List ℕ)
    → Result Outcome
unfolding resolve collect answer
run names kind arg owner entries groups = do
  q ← resolve names kind arg
  uid ← need stat owner
  acl ← need acl_get_entry entries
  l ← collect acl initial
  ok (answer uid groups q l)

unfoldable pub main :
    Names → List Bytes → Option ℕ → Option (List (Option Entry)) → Option (List ℕ) → Outcome
unfolding run
main names (argv0 ∷ kind ∷ arg ∷ file ∷ []) owner entries groups =
    elim (run names kind arg owner entries groups) [
      | ok o ↦ o
      | usage ↦ wrong_usage
      | fails c ↦ failed c
    ]
main names _ owner entries groups = wrong_usage
