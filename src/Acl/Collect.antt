-- ===== src/Acl/Collect.antt =====
-- 17-1-acl.c: what the lists hold behind the loop over the entries.
use tlpi_practice.Common.{
  ℕ, ◌+◌, ◌*◌, ◌≡◌, refl, ◌∙◌, Bool, true, false, Option, none, some, List, [], ◌∷◌, map, ◌==◌,
  if◌then◌else◌, Option-cases, Bool-cases, inl, inr,
}
use tlpi_practice.Acl.{
  Tag, user_obj, user, group_obj, group, mask_tag, other_tag, ok, Entry, bit, get_perm, Lists,
  put_entry, collect,
}

-- An entry of which libacl tells all.
pub record Plain : Type 0 where
  pub tag : Tag
  pub id : ℕ
  pub r : Bool
  pub w : Bool
  pub x : Bool

abbrev pub entry_of : Plain → Option Entry
entry_of e = some (record {
  tag = some e.tag;
  permset = some (record { read = some e.r; write = some e.w; execute = some e.x });
  qualifier = some e.id;
})

abbrev pub perm_of : Plain → ℕ
perm_of e = 4 * bit e.r + 2 * bit e.w + 1 * bit e.x

-- The last entry of a kind.
unfoldable pub last_of : (Plain → Bool) → List Plain → Option Plain
last_of p [] = none
last_of p (e ∷ es) = elim (last_of p es) [
  | some found ↦ some found
  | none ↦ if p e then some e else none
]

abbrev pub is_user_obj : Plain → Bool
is_user_obj e = elim e.tag [ user_obj ↦ true | _ ↦ false ]

abbrev pub is_user : Plain → Bool
is_user e = elim e.tag [ user ↦ true | _ ↦ false ]

abbrev pub is_group : ℕ → Plain → Bool
is_group gid e = elim e.tag [ group ↦ gid == e.id | _ ↦ false ]

abbrev pub is_mask : Plain → Bool
is_mask e = elim e.tag [ mask_tag ↦ true | _ ↦ false ]

abbrev pub is_other : Plain → Bool
is_other e = elim e.tag [ other_tag ↦ true | _ ↦ false ]

-- The loop without its failures.
unfoldable pub put_tag : Tag → ℕ → ℕ → Lists → Lists
put_tag user_obj perm id l = record l { user_obj_perm = some perm }
put_tag user perm id l = record l { usr_list = record { uid = id; perm = perm } ∷ l.usr_list }
put_tag group_obj perm id l = record l { group_obj_perm = some perm }
put_tag group perm id l = record l { grp_list = record { gid = id; perm = perm } ∷ l.grp_list }
put_tag mask_tag perm id l = record l { mask = perm }
put_tag other_tag perm id l = record l { other = some perm }

abbrev pub put_plain : Plain → Lists → Lists
put_plain e l = put_tag e.tag (perm_of e) e.id l

put_entry-put_tag :
    (tag : Tag) (perm id : ℕ) (l : Lists)
    → put_entry tag perm (some id) l ≡ ok (put_tag tag perm id l)
unfolding put_entry put_tag
put_entry-put_tag user_obj perm id l = refl
put_entry-put_tag user perm id l = refl
put_entry-put_tag group_obj perm id l = refl
put_entry-put_tag group perm id l = refl
put_entry-put_tag mask_tag perm id l = refl
put_entry-put_tag other_tag perm id l = refl

unfoldable pub collected : List Plain → Lists → Lists
collected [] l = l
collected (e ∷ es) l = collected es (put_plain e l)

pub collect-collected :
    (es : List Plain) (l : Lists) → collect (map entry_of es) l ≡ ok (collected es l)
unfolding collect collected get_perm
collect-collected [] l = refl
collect-collected (e ∷ es) l =
    rw (put_entry-put_tag e.tag (perm_of e) e.id l) (collect-collected es (put_plain e l))

-- A view of the lists that each entry of a kind sets, and no other entry changes, shows the last
-- entry of the kind.
pub last_of-view :
    {A : Type 0} (view : Lists → A) (p : Plain → Bool) (f : Plain → A)
    → ((e : Plain) (l : Lists) → view (put_plain e l) ≡ (if p e then f e else view l))
    → (es : List Plain) (l : Lists)
    → view (collected es l) ≡ elim (last_of p es) [ none ↦ view l | some e ↦ f e ]
unfolding collected last_of
last_of-view view p f step [] l = refl
last_of-view view p f step (e ∷ es) l =
    let ih = last_of-view view p f step es (put_plain e l) in
    elim (Option-cases (last_of p es)) [
      | inr (found, is) ↦ rw (last_of, is) (rw is at ih)
      | inl missing ↦ elim (Bool-cases (p e)) [
        | inl fits ↦ rw (last_of, missing, fits) ((rw missing at ih) ∙ (step e l ∙ rw fits refl))
        | inr other ↦ rw (last_of, missing, other) ((rw missing at ih) ∙ (step e l ∙ rw other refl))
      ]
    ]
