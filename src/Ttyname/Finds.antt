-- ===== src/Ttyname/Finds.antt =====
-- 62-2-do_ttyname.c: the name that is returned.
use tlpi_practice.Common.{
  ℕ, ◌≡◌, refl, ap, ◌∙◌, Bool, true, false, some, List, [], ◌∷◌, ◌++◌, ◌==◌, length, drop,
  replicate, arith,
}
use mathlib.Core.List.{append_assoc}
use tlpi_practice.Common.Disk.{Bytes, overlay}
use tlpi_practice.Common.Text.{text}
use tlpi_practice.Common.CString.{cstring, cstring-append_zero}
use tlpi_practice.Common.Slices.{overlay-append_left}
use tlpi_practice.Ttyname.{Item, Directory, strcpy, returns, missing, search, initial, my_ttyname}

-- The first item of the device, behind items that have a status and are other devices.
pub data First (rdev : ℕ) (name : Bytes) : List Item → Type 0 where
  here : (e : Item) (es : List Item) → e.rdev ≡ some rdev → e.name ≡ name → First rdev name (e ∷ es)
  later :
      (e : Item) (es : List Item) (other : ℕ)
      → e.rdev ≡ some other
      → (other == rdev) ≡ false
      → First rdev name es
      → First rdev name (e ∷ es)

-- No item is the device, and all have a status.
unfoldable pub Absent : ℕ → List Item → Type 0
Absent rdev [] = Unit {0}
Absent rdev (e ∷ es) =
    ((other : ℕ) × (e.rdev ≡ some other) × ((other == rdev) ≡ false)) × Absent rdev es

same : (n : ℕ) → (n == n) ≡ true
same n = ground arith

search-First :
    (rdev at : ℕ) (res name : Bytes) (broken : Bool) (es : List Item)
    → First rdev name es
    → search rdev at res broken es ≡ returns (strcpy res at name)
unfolding search
search-First rdev at res name broken _ (here e es is named) = rw (search, is, same rdev, named) refl
search-First rdev at res name broken _ (later e es other is differs h) =
    rw (search, is, differs) (search-First rdev at res name broken es h)

search-Absent :
    (rdev at : ℕ) (res : Bytes) (es : List Item)
    → Absent rdev es
    → search rdev at res false es ≡ missing
unfolding search Absent
search-Absent rdev at res [] h = refl
search-Absent rdev at res (e ∷ es) ((other, is, differs), h) =
    rw (search, is, differs) (search-Absent rdev at res es h)

initial_split : initial ≡ text "/dev/" ++ replicate 4091 0
unfolding initial overlay text
initial_split = refl

pts_split : strcpy initial 4 (text "/pts") ≡ (text "/dev/pts" ++ 0 ∷ []) ++ replicate 4087 0
unfolding initial overlay text
pts_split = refl

-- The array for a name behind /dev/, and for one behind /dev/pts.
dev_text : (name : Bytes) → cstring (strcpy initial 5 name) ≡ text "/dev/" ++ cstring name
unfolding text cstring
dev_text name =
    let rest = drop (length (name ++ 0 ∷ [])) (replicate 4091 0) in
    let put =
      ap (λ r. strcpy r 5 name) initial_split
      ∙ overlay-append_left (text "/dev/") (replicate 4091 0) (name ++ 0 ∷ []) 5 refl in
    let ends : cstring ((name ++ 0 ∷ []) ++ rest) ≡ cstring name =
      ap cstring (append_assoc name (0 ∷ []) rest) ∙ cstring-append_zero name rest in
    ap cstring put ∙ ap (λ t. text "/dev/" ++ t) ends

pts_text :
    (name : Bytes) → cstring (strcpy (strcpy initial 4 (text "/pts")) 9 name) ≡ text "/dev/pts"
unfolding text cstring
pts_text name =
    let put =
      ap (λ r. strcpy r 9 name) pts_split
      ∙ overlay-append_left (text "/dev/pts" ++ 0 ∷ []) (replicate 4087 0) (name ++ 0 ∷ []) 9
          refl in
    ap cstring put

-- A device that is found below /dev is returned with its path, that of the first entry that is it.
pub my_ttyname-dev :
    (rdev : ℕ) (dev pts : Directory) (name : Bytes)
    → First rdev name dev.items
    → (res : Bytes) × (my_ttyname (some rdev) (some dev) pts ≡ some res)
      × (cstring res ≡ text "/dev/" ++ cstring name)
unfolding my_ttyname
my_ttyname-dev rdev dev pts name first = (
  strcpy initial 5 name,
  rw (my_ttyname, search-First rdev 5 initial name dev.broken dev.items first) refl,
  dev_text name,
)

-- A device that is an entry of /dev/pts, and none of /dev, is returned as "/dev/pts", without its
-- name: the NUL behind "/dev/pts" stays before the name. This is where the entries of /dev, and
-- those of /dev/pts before it, have a status.
pub my_ttyname-pts :
    (rdev : ℕ) (dev pts : Directory) (name : Bytes)
    → dev.broken ≡ false
    → Absent rdev dev.items
    → First rdev name pts.items
    → (res : Bytes) × (my_ttyname (some rdev) (some dev) pts ≡ some res)
      × (cstring res ≡ text "/dev/pts")
unfolding my_ttyname
my_ttyname-pts rdev dev pts name whole none_there first =
    let at = strcpy initial 4 (text "/pts") in
    let nothing : search rdev 5 initial dev.broken dev.items ≡ missing =
      ap (λ b. search rdev 5 initial b dev.items) whole
      ∙ search-Absent rdev 5 initial dev.items none_there in
    (
      strcpy at 9 name,
      rw (my_ttyname, nothing, search-First rdev 9 at name pts.broken pts.items first) refl,
      pts_text name,
    )
