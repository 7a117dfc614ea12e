-- ===== src/ProcessTree/Print.antt =====
-- 12-2-print_process_tree.c: `print_tree`, with the columns that it draws a bar in.
use tlpi_practice.Common.{
  ℕ, zero, suc, ◌+◌, ◌*◌, ◌≡◌, Bool, true, false, Option, none, some, List, [], ◌∷◌, ◌++◌, ltb,
  ◌==◌, length, if◌then◌else◌,
}
use tlpi_practice.Common.Decimal.{decimal}
use tlpi_practice.Common.Disk.{Bytes}
use tlpi_practice.Common.Text.{text}
use tlpi_practice.Common.Threads.{put}
use tlpi_practice.ProcessTree.{Node, Table}

-- A node with the nodes behind its `child`, from one `next` to the other.
mutual
  pub data Tree : Type 0 where
    tree : ℕ → Option Bytes → Forest → Tree

  pub data Forest : Type 0 where
    nil : Forest
    cons : Tree → Forest → Forest

-- `p->next` of a node before `ps`.
abbrev pub next : Forest → Bool
next nil = false
next (cons p ps) = true

-- What the pointers of the table reach from number `p`.
unfoldable mutual
  pub Reaches : Table → ℕ → Tree → Type 0
  Reaches t p (tree pid ins ps) =
      (n : Node) × (t p ≡ some n) × (n.pid ≡ pid) × (n.ins ≡ ins) × ReachesAll t n.child ps

  pub ReachesAll : Table → List ℕ → Forest → Type 0
  ReachesAll t [] nil = Unit {0}
  ReachesAll t [] (cons p ps) = ⊥
  ReachesAll t (c ∷ cs) nil = ⊥
  ReachesAll t (c ∷ cs) (cons p ps) = Reaches t c p × ReachesAll t cs ps

abbrev pub columns : ℕ
columns = 1024

-- The array `mark`, and what has been printed.
pub record Screen : Type 0 where
  pub mark : ℕ → ℕ
  pub out : Bytes

-- The array as `main` fills it.
abbrev pub blank : Screen
blank = record { mark = λ i. b' '; out = [] }

abbrev pub say : Bytes → Screen → Screen
say bs s = record s { out = s.out ++ bs }

-- A write behind the array, and a NULL that is printed, give none.
unfoldable pub set_mark : ℕ → ℕ → Screen → Option Screen
set_mark i c s = if ltb i columns then some (record s { mark = put s.mark i c }) else none

infixl 5 ◌then◌
abbrev pub ◌then◌ : Option Screen → (Screen → Option Screen) → Option Screen
none then f = none
(some s) then f = f s

-- `mark[i]` for `n` columns from `i` on. There is no check: a column is printed only after the one
-- behind it has been written.
unfoldable pub print_marks : ℕ → ℕ → (ℕ → ℕ) → Bytes
print_marks zero i m = []
print_marks (suc n) i m = m i ∷ print_marks n (suc i) m

-- `sprintf(buffer, "%s(%d)", root->ins, root->pid)`
unfoldable pub label : ℕ → Bytes → Bytes
label pid ins = ins ++ b'(' ∷ (decimal pid ++ b')' ∷ [])

abbrev pub gap : ℕ → ℕ
gap pid = if pid == 1 then 1 else 3

unfoldable mutual
  pub print_tree : Tree → ℕ → Bytes → ℕ → Screen → Option Screen
  print_tree (tree pid none ps) blank_num pre print s = none
  print_tree (tree pid (some ins) ps) blank_num pre print s =
      let buffer = label pid ins in
      let printed = say (print_marks (print * blank_num) 0 s.mark ++ (pre ++ buffer)) s in
      let rest = print_children ps (blank_num + (length buffer + gap pid)) printed in
      if ltb (length buffer) 1024 then rest else none

  -- From `root->child->next` on.
  pub print_children : Forest → ℕ → Screen → Option Screen
  print_children nil blank_num s = some (say (10 ∷ []) s)
  print_children (cons p ps) blank_num s =
      (if next ps then set_mark blank_num b'|' s else some s)
      then print_tree p blank_num (if next ps then text "-+-" else text "---") 0
      then print_rest ps blank_num
      then set_mark blank_num b' '

  -- `while (p)`
  pub print_rest : Forest → ℕ → Screen → Option Screen
  print_rest nil blank_num s = some s
  print_rest (cons p ps) blank_num s =
      print_tree p blank_num (if next ps then text "|-" else text "`-") 1 s
      then print_rest ps blank_num
