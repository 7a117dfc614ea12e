-- ===== src/Acl/Filled.antt =====
-- 17-1-acl.c: the variables behind the loop, by the last entries of each kind, and what is printed of
-- them.
use Prim.Native.Nat.{bit_and}
use tlpi_practice.Common.{
  ℕ, ◌+◌, ◌*◌, ◌≡◌, refl, ap, ◌∙◌, Bool, true, false, ◌&&◌, Option, none, some, List, [], ◌∷◌, ◌==◌,
  if◌then◌else◌, arith,
}
use tlpi_practice.Common.Disk.{Bytes}
use tlpi_practice.Common.Text.{text}
use tlpi_practice.Acl.{
  Tag, user_obj, user, group_obj, group, mask_tag, other_tag, bit, UsrNode, GrpNode, Lists, initial,
  Line, line, letters, other_line,
}
use tlpi_practice.Acl.Collect.{
  Plain, perm_of, last_of, is_user_obj, is_user, is_group, is_mask, is_other, put_tag, collected,
  last_of-view,
}

abbrev letter : Bool → ℕ → ℕ
letter b c = if b then c else b'-'

abbrev pub shown : Bool → Bool → Bool → Bytes
shown r w x = letter r b'r' ∷ letter w b'w' ∷ letter x b'x' ∷ []

pub letters-perm : (r w x : Bool) → letters (4 * bit r + 2 * bit w + 1 * bit x) ≡ shown r w x
unfolding letters
letters-perm r w x = ground arith

letters-bit_and :
    (r w x r' w' x' : Bool)
    → letters (bit_and (4 * bit r + 2 * bit w + 1 * bit x) (4 * bit r' + 2 * bit w' + 1 * bit x'))
      ≡ shown (r && r') (w && w') (x && x')
unfolding letters
letters-bit_and r w x r' w' x' = ground arith

-- The letters of an entry under the mask; where there is no mask, all of them count.
unfoldable pub masked : Plain → Option Plain → Bytes
masked e none = shown e.r e.w e.x
masked e (some m) = shown (e.r && m.r) (e.w && m.w) (e.x && m.x)

abbrev pub mask_of : Option Plain → ℕ
mask_of none = 7
mask_of (some m) = perm_of m

letters-unmasked :
    (r w x : Bool) → letters (bit_and (4 * bit r + 2 * bit w + 1 * bit x) 7) ≡ shown r w x
unfolding letters
letters-unmasked r w x = ground arith

pub letters-masked :
    (e : Plain) (m : Option Plain) → letters (bit_and (perm_of e) (mask_of m)) ≡ masked e m
unfolding masked
letters-masked e none = letters-unmasked e.r e.w e.x
letters-masked e (some m) = letters-bit_and e.r e.w e.x m.r m.w m.x

unfoldable pub others : List Plain → Line
others es = elim (last_of is_other es) [
  | none ↦ line (text "other") none (text "rwx")
  | some e ↦ line (text "other") none (shown e.r e.w e.x)
]

-- The variables behind the loop.
abbrev pub filled : List Plain → Lists
filled es = collected es initial

abbrev pub find_perm : ℕ → List GrpNode → Option ℕ
find_perm gid [] = none
find_perm gid (n ∷ ns) = if gid == n.gid then some n.perm else find_perm gid ns

abbrev pub head : List UsrNode → Option UsrNode
head [] = none
head (p ∷ ps) = some p

find_perm-put_tag :
    (gid : ℕ) (tag : Tag) (perm id : ℕ) (l : Lists)
    → find_perm gid ((put_tag tag perm id l).grp_list)
      ≡ (if elim tag [ group ↦ gid == id | _ ↦ false ] then some perm else find_perm gid l.grp_list)
unfolding put_tag
find_perm-put_tag gid user_obj perm id l = refl
find_perm-put_tag gid user perm id l = refl
find_perm-put_tag gid group_obj perm id l = refl
find_perm-put_tag gid group perm id l = refl
find_perm-put_tag gid mask_tag perm id l = refl
find_perm-put_tag gid other_tag perm id l = refl

head-put_tag :
    (tag : Tag) (perm id : ℕ) (l : Lists)
    → head ((put_tag tag perm id l).usr_list) ≡ (
        if elim tag [ user ↦ true | _ ↦ false ]
        then some (record { uid = id; perm = perm })
        else head l.usr_list)
unfolding put_tag
head-put_tag user_obj perm id l = refl
head-put_tag user perm id l = refl
head-put_tag group_obj perm id l = refl
head-put_tag group perm id l = refl
head-put_tag mask_tag perm id l = refl
head-put_tag other_tag perm id l = refl

owner-put_tag :
    (tag : Tag) (perm id : ℕ) (l : Lists)
    → (put_tag tag perm id l).user_obj_perm
      ≡ (if elim tag [ user_obj ↦ true | _ ↦ false ] then some perm else l.user_obj_perm)
unfolding put_tag
owner-put_tag user_obj perm id l = refl
owner-put_tag user perm id l = refl
owner-put_tag group_obj perm id l = refl
owner-put_tag group perm id l = refl
owner-put_tag mask_tag perm id l = refl
owner-put_tag other_tag perm id l = refl

mask-put_tag :
    (tag : Tag) (perm id : ℕ) (l : Lists)
    → (put_tag tag perm id l).mask
      ≡ (if elim tag [ mask_tag ↦ true | _ ↦ false ] then perm else l.mask)
unfolding put_tag
mask-put_tag user_obj perm id l = refl
mask-put_tag user perm id l = refl
mask-put_tag group_obj perm id l = refl
mask-put_tag group perm id l = refl
mask-put_tag mask_tag perm id l = refl
mask-put_tag other_tag perm id l = refl

other-put_tag :
    (tag : Tag) (perm id : ℕ) (l : Lists)
    → (put_tag tag perm id l).other
      ≡ (if elim tag [ other_tag ↦ true | _ ↦ false ] then some perm else l.other)
unfolding put_tag
other-put_tag user_obj perm id l = refl
other-put_tag user perm id l = refl
other-put_tag group_obj perm id l = refl
other-put_tag group perm id l = refl
other-put_tag mask_tag perm id l = refl
other-put_tag other_tag perm id l = refl

mask_of_last : (o : Option Plain) → elim o [ none ↦ 7 | some e ↦ perm_of e ] ≡ mask_of o
mask_of_last none = refl
mask_of_last (some e) = refl

pub mask-filled : (es : List Plain) → (filled es).mask ≡ mask_of (last_of is_mask es)
mask-filled es =
    last_of-view (λ l. l.mask) is_mask perm_of (λ e l. mask-put_tag e.tag (perm_of e) e.id l) es
      initial
    ∙ mask_of_last (last_of is_mask es)

other_line_last :
    (o : Option Plain)
    → other_line (elim o [ none ↦ none | some e ↦ some (perm_of e) ]) ≡ elim o [
      | none ↦ line (text "other") none (text "rwx")
      | some e ↦ line (text "other") none (shown e.r e.w e.x)
    ]
unfolding other_line
other_line_last none = refl
other_line_last (some e) = ap (line (text "other") none) (letters-perm e.r e.w e.x)

pub other_line-filled : (es : List Plain) → other_line ((filled es).other) ≡ others es
unfolding others
other_line-filled es =
    ap other_line (
      last_of-view (λ l. l.other) is_other (λ e. some (perm_of e))
        (λ e l. other-put_tag e.tag (perm_of e) e.id l) es initial)
    ∙ other_line_last (last_of is_other es)

pub find_perm-filled :
    (gid : ℕ) (es : List Plain)
    → find_perm gid ((filled es).grp_list)
      ≡ elim (last_of (is_group gid) es) [ none ↦ none | some e ↦ some (perm_of e) ]
find_perm-filled gid es =
    last_of-view (λ l. find_perm gid l.grp_list) (is_group gid) (λ e. some (perm_of e))
      (λ e l. find_perm-put_tag gid e.tag (perm_of e) e.id l) es initial

pub head-filled :
    (es : List Plain)
    → head ((filled es).usr_list) ≡ elim (last_of is_user es) [
      | none ↦ none
      | some e ↦ some (record { uid = e.id; perm = perm_of e })
    ]
head-filled es =
    last_of-view (λ l. head l.usr_list) is_user
      (λ e. some (record { uid = e.id; perm = perm_of e }))
      (λ e l. head-put_tag e.tag (perm_of e) e.id l) es initial

pub owner-filled :
    (es : List Plain)
    → (filled es).user_obj_perm
      ≡ elim (last_of is_user_obj es) [ none ↦ none | some e ↦ some (perm_of e) ]
owner-filled es =
    last_of-view (λ l. l.user_obj_perm) is_user_obj (λ e. some (perm_of e))
      (λ e l. owner-put_tag e.tag (perm_of e) e.id l) es initial
