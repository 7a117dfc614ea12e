-- ===== src/ProcessTree/Tests.antt =====
-- 12-2-print_process_tree.c for `init` and a child, and where a parent is read behind its child.
use tlpi_practice.Common.{ℕ, ◌++◌, ◌≡◌, ◌<◌, refl, Option, none, some, List, [], ◌∷◌, arith}
use tlpi_practice.Common.Disk.{Bytes}
use tlpi_practice.ProcessTree.{
  Table, Entry, Result, ok, read_all, build, create_node, add_child, ensure_parent, empty,
}
use tlpi_practice.ProcessTree.Print.{
  Tree, tree, Forest, nil, cons, Reaches, Screen, blank, print_tree, print_marks, label, set_mark,
}
use tlpi_practice.ProcessTree.Draw.{draw, Fits}
use tlpi_practice.ProcessTree.Printed.{Of, main-draw}
use tlpi_practice.Common.Decimal.{decimal, decimal_onto}
use tlpi_practice.Common.Text.{text}
use tlpi_practice.ProcessTree.Table.{New, own, kids}
use tlpi_practice.ProcessTree.Build.{AllNew, Closed, onto}

abbrev entry : ℕ → ℕ → Entry
entry pid ppid = record { pid = pid; ppid = ppid; name = b'p' ∷ [] }

-- The parent number and the name of a node.
abbrev parent_at : ℕ → Result → Option (Option ℕ)
parent_at p (ok t) = elim (t p) [ none ↦ none | some n ↦ some n.ppid ]
parent_at p _ = none

-- Process 5 is named as a parent before its own file is read, and then stays without one.
early_parent_is_lost : parent_at 5 (read_all (entry 7 5 ∷ entry 5 1 ∷ []) empty) ≡ some none
unfolding read_all create_node add_child ensure_parent
early_parent_is_lost = refl

late_child_is_kept : parent_at 5 (read_all (entry 5 1 ∷ entry 7 5 ∷ []) empty) ≡ some (some 1)
unfolding read_all create_node add_child ensure_parent
late_child_is_kept = refl

abbrev entries : List Entry
entries = entry 1 0 ∷ entry 5 1 ∷ entry 7 5 ∷ []

-- Where the numbers are small, and the lists show that they are new.
new :
    (e : Entry) (es : List Entry)
    → own e.pid es ≡ none
    → kids e.pid es ≡ []
    → e.ppid < e.pid
    → e.pid < 32768
    → New e es
new e es own_none no_kids less small = record {
  first = own_none;
  no_kids = no_kids;
  no_loop = λ q. omega (arith, q);
  in_array = (small, omega arith);
}

entries_new : AllNew entries []
unfolding AllNew own kids
entries_new = (
  new _ _ refl refl (omega arith) (omega arith),
  (
    new _ _ refl refl (omega arith) (omega arith),
    (new _ _ refl refl (omega arith) (omega arith), tt),
  ),
)

entries-Closed : Closed (onto entries [])
unfolding Closed onto own kids
entries-Closed p pos missing = ground arith

abbrev node : ℕ → Forest → Tree
node pid ps = tree pid (some (b'p' ∷ [])) ps

abbrev out : Option Screen → Option Bytes
out none = none
out (some s) = some s.out

-- Two children, of which the last one has two more: the bar of the first column goes on beside them.
printed :
    out (
      print_tree
        (node 1 (cons (node 7 nil) (cons (node 5 (cons (node 9 nil) (cons (node 8 nil) nil))) nil)))
        0
        []
        0
        blank)
    ≡ some (
        text "p(1)-+-p(7)"
        ++ 10 ∷ (text "     `-p(5)-+-p(9)" ++ 10 ∷ (text "     |      `-p(8)" ++ 10 ∷ [])))
unfolding print_tree print_marks label set_mark decimal decimal_onto text
printed = refl

main-draw_example :
    (t : Table) × (build entries ≡ ok t)
    × Reaches t 1 (node 1 (cons (node 5 (cons (node 7 nil) nil)) nil))
    × (s : Screen) × (print_tree (node 1 (cons (node 5 (cons (node 7 nil) nil)) nil)) 0 [] 0 blank
        ≡ some s)
    × (s.out ≡ draw (node 1 (cons (node 5 (cons (node 7 nil) nil)) nil)) [] b' ')
    × ((i : ℕ) → s.mark i ≡ b' ')
unfolding Of onto own kids Fits label decimal decimal_onto
main-draw_example =
    main-draw entries (node 1 (cons (node 5 (cons (node 7 nil) nil)) nil)) entries_new
      entries-Closed
      (
        entry 1 0,
        refl,
        refl,
        refl,
        ((entry 5 1, refl, refl, refl, ((entry 7 5, refl, refl, refl, tt), tt)), tt),
      )
      (omega arith, ((omega arith, ((omega arith, tt), tt)), tt))
