-- ===== src/Ttyname/Tests.antt =====
-- 62-2-do_ttyname.c for a console and for a pseudoterminal.
use tlpi_practice.Common.{ℕ, ◌≡◌, refl, false, none, some, [], ◌∷◌, ◌++◌}
use tlpi_practice.Common.CString.{cstring}
use tlpi_practice.Common.Disk.{Bytes}
use tlpi_practice.Common.Text.{text}
use tlpi_practice.Ttyname.{Item, Directory, search, my_ttyname}
use tlpi_practice.Ttyname.Finds.{here, later, Absent, my_ttyname-dev}

abbrev item : Bytes → ℕ → Item
item name n = record { name = name; rdev = some n }

abbrev dev : Directory
dev = record { items = item (text "null") 3 ∷ item (text "tty1") 5 ∷ []; broken = false }

abbrev pts : Directory
pts = record { items = item (text "0") 7 ∷ item (text "1") 8 ∷ []; broken = false }

console :
    (res : Bytes) × (my_ttyname (some 5) (some dev) pts ≡ some res)
    × (cstring res ≡ text "/dev/" ++ cstring (text "tty1"))
console = my_ttyname-dev 5 dev pts (text "tty1") (later _ _ 3 refl refl (here _ _ refl refl))

absent : Absent 8 dev.items
unfolding Absent
absent = ((3, refl, refl), ((5, refl, refl), tt))

unknown : my_ttyname (some 9) (some dev) pts ≡ none
unfolding my_ttyname search
unknown = refl
