-- ===== src/LockedTree/Tests.antt =====
-- 30-2-thread-safe_binary-tree.c for a root with the key "" and two more keys.
use tlpi_practice.Common.{◌≡◌, refl, true, false}
use tlpi_practice.Common.Text.{text}
use tlpi_practice.Common.CString.{strcmp}
use tlpi_practice.LockedTree.{
  Tree, null, node, new_node, descend, added, null_pointer, waits_ever, add,
}
use tlpi_practice.LockedTree.Ordered.{
  AllKeys, Ordered, Unlocked, size, Has, add-Ordered, add-blocks,
}

abbrev root : Tree
root = node (text "") 0 false null null

abbrev larger : Tree
larger = node (text "") 0 false (new_node (text "m") 1) null

-- The keys behind a node's own are on its left.
adds :
    add (text "z") 2 larger
    ≡ added (node (text "") 0 false (node (text "m") 1 true (new_node (text "z") 2) null) null)
unfolding add descend strcmp text
adds = refl

-- What `initialize` leaves its caller with.
no_root : add (text "z") 2 null ≡ null_pointer
unfolding add
no_root = refl

add-Ordered_example :
    (t' : Tree) × (add (text "z") 2 larger ≡ added t')
    × (size t' ≡ 3)
    × Has (text "z") 2 t'
    × Ordered t'
unfolding Unlocked Ordered AllKeys size strcmp text
add-Ordered_example =
    add-Ordered (text "z") 2 larger refl (refl, (refl, tt, tt), tt)
      ((refl, tt, tt), tt, (tt, tt, tt, tt), tt)

add-blocks_example :
    add (text "z") 3 (node (text "") 0 true (new_node (text "z") 2) null) ≡ waits_ever
unfolding add descend strcmp text
add-blocks_example = add-blocks (text "z") 2 3 root _ refl refl
