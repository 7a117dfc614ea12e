-- ===== src/ProcessTree/Printed.antt =====
-- 12-2-print_process_tree.c: what the program prints for the files below /proc.
use tlpi_practice.Common.{ℕ, ◌≡◌, ◌∙◌, some, List, [], ◌∷◌, ap}
use tlpi_practice.ProcessTree.{Table, Entry, ok, build}
use tlpi_practice.ProcessTree.Table.{kids, own, node_of, view}
use tlpi_practice.ProcessTree.Build.{onto, AllNew, Closed, build-view}
use tlpi_practice.ProcessTree.Print.{
  Tree, tree, Forest, nil, cons, Reaches, ReachesAll, Screen, blank, print_tree,
}
use tlpi_practice.ProcessTree.Draw.{draw, Fits, print_tree-draw}

-- The tree of the entries from process `p` on: each has the name of its entry, and its children are
-- those whose entries name it as their parent.
unfoldable mutual
  pub Of : List Entry → ℕ → Tree → Type 0
  Of es p (tree pid ins ps) =
      (e : Entry) × (own p es ≡ some e) × (p ≡ pid) × (some e.name ≡ ins) × OfAll es (kids p es) ps

  pub OfAll : List Entry → List ℕ → Forest → Type 0
  OfAll es [] nil = Unit {0}
  OfAll es [] (cons p ps) = ⊥
  OfAll es (c ∷ cs) nil = ⊥
  OfAll es (c ∷ cs) (cons p ps) = Of es c p × OfAll es cs ps

mutual
  unfolding Of Reaches node_of

  Of-Reaches :
      (es : List Entry) (t : Table)
      → ((p : ℕ) → t p ≡ view es p)
      → (p : ℕ) (x : Tree) → Of es p x
      → Reaches t p x
  Of-Reaches es t h p (tree pid ins ps) (e, mine, same, named, all) = (
    record { pid = p; ppid = some e.ppid; ins = some e.name; child = kids p es },
    h p ∙ ap (λ o. node_of p o (kids p es)) mine,
    same,
    named,
    OfAll-ReachesAll es t h (kids p es) ps all,
  )

  OfAll-ReachesAll :
      (es : List Entry) (t : Table)
      → ((p : ℕ) → t p ≡ view es p)
      → (cs : List ℕ) (xs : Forest) → OfAll es cs xs
      → ReachesAll t cs xs
  OfAll-ReachesAll es t h [] nil all = tt
  OfAll-ReachesAll es t h [] (cons x xs) all = absurd all
  OfAll-ReachesAll es t h (c ∷ cs) nil all = absurd all
  OfAll-ReachesAll es t h (c ∷ cs) (cons x xs) (here, all) =
      (Of-Reaches es t h c x here, OfAll-ReachesAll es t h cs xs all)

-- The program prints the tree of the entries from process 1 on, the child that was read last before
-- the others, with a column of bars from the first to the last child of a process and down beside
-- all that is below the last one, and leaves the array `mark` blank. This is where the table is the
-- one of the entries (each number has one entry, behind that of its parent, and each parent but 0
-- has one), and where each text ends before the end of that array.
pub main-draw :
    (es : List Entry) (p : Tree)
    → AllNew es []
    → Closed (onto es [])
    → Of (onto es []) 1 p
    → Fits p 0
    → (t : Table) × (build es ≡ ok t)
      × Reaches t 1 p
      × (s : Screen) × (print_tree p 0 [] 0 blank ≡ some s)
      × (s.out ≡ draw p [] b' ')
      × ((i : ℕ) → s.mark i ≡ b' ')
main-draw es p new closed entries fits =
    let (t, built, seen) = build-view es new closed in
    let (s, run, drawn, kept) = print_tree-draw p fits in
    (t, built, Of-Reaches (onto es []) t seen 1 p entries, s, run, drawn, kept)
