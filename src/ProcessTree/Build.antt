-- ===== src/ProcessTree/Build.antt =====
-- 12-2-print_process_tree.c: the tree that `main` prints is that of the files.
use tlpi_practice.Common.{
  ℕ, zero, suc, ◌≡◌, ◌<◌, refl, ◌∙◌, true, none, List, [], ◌∷◌, ltb, arith, Option-cases, inl, inr,
}
use tlpi_practice.ProcessTree.{
  max_pid, Table, empty, create_node, Entry, ok, read_all, adopt, adopt_all, build,
}
use tlpi_practice.ProcessTree.Table.{kids, own, node_of, view, New, create_node-view}

-- The entries that are read onto those that have been, the last one first.
unfoldable pub onto : List Entry → List Entry → List Entry
onto [] before = before
onto (e ∷ es) before = onto es (e ∷ before)

-- Each process has one entry, behind that of its parent where the parent has one.
unfoldable pub AllNew : List Entry → List Entry → Type 0
AllNew [] before = Unit {0}
AllNew (e ∷ es) before = New e before × AllNew es (e ∷ before)

read_all-view :
    (es before : List Entry) (t : Table)
    → AllNew es before
    → ((p : ℕ) → t p ≡ view before p)
    → (t' : Table) × (read_all es t ≡ ok t') × ((p : ℕ) → t' p ≡ view (onto es before) p)
unfolding read_all onto AllNew
read_all-view [] before t new h = (t, refl, h)
read_all-view (e ∷ es) before t (new, news) h =
    let (t', run, seen) =
      read_all-view es (e ∷ before) (create_node e.pid e.ppid e.name t) news
        (create_node-view e before t new h) in
    let (own_in, parent_in) = new.in_array in
    let in1 : ltb e.pid max_pid ≡ true = ground arith in
    let in2 : ltb e.ppid max_pid ≡ true = ground arith in (t', rw (read_all, in1, in2) run, seen)

-- Every parent has an entry, but for number 0, that of no process.
unfoldable pub Closed : List Entry → Type 0
Closed es = (p : ℕ) → 0 < p → own p es ≡ none → kids p es ≡ []

adopt_nothing :
    (es : List Entry) (t : Table) (i : ℕ) → Closed es → 0 < i → t i ≡ view es i → adopt i t ≡ ok t
unfolding adopt Closed node_of
adopt_nothing es t i closed pos e = elim (Option-cases (own i es)) [
  | inl gone ↦
      let absent : t i ≡ none = e ∙ rw (gone, closed i pos gone) refl in rw (adopt, absent) refl
  | inr (x, there) ↦ rw (adopt, e, there) refl
]

adopt_all_nothing :
    (fuel : ℕ) (es : List Entry) (t : Table) (i : ℕ)
    → Closed es
    → 0 < i
    → ((p : ℕ) → t p ≡ view es p)
    → adopt_all fuel i t ≡ ok t
unfolding adopt_all
adopt_all_nothing zero es t i closed pos h = refl
adopt_all_nothing (suc fuel) es t i closed pos h =
    rw (adopt_all, adopt_nothing es t i closed pos (h i))
      (adopt_all_nothing fuel es t (suc i) closed (omega arith) h)

-- The table that is printed holds a node for each entry, with the parent and the name of the entry,
-- and as its children those whose entries name it as their parent, the last one read first; and
-- apart from these a node for number 0 only, if an entry names it. This is where each number has
-- one entry, behind that of its parent, and each parent but 0 has one, and no number is out of the
-- array's range.
pub build-view :
    (es : List Entry)
    → AllNew es []
    → Closed (onto es [])
    → (t : Table) × (build es ≡ ok t) × ((p : ℕ) → t p ≡ view (onto es []) p)
unfolding build kids own node_of
build-view es new closed =
    let (t, run, seen) = read_all-view es [] empty new (λ p. refl) in
    let kept = adopt_all_nothing 32767 (onto es []) t 1 closed (omega arith) seen in
    (t, rw (build, run) kept, seen)
