-- ===== src/ProcessTree/Table.antt =====
-- 12-2-print_process_tree.c: the table that is read.
use tlpi_practice.Common.{
  ℕ, ◌≡◌, ◌≢◌, refl, sym, ap, ◌∙◌, subst, true, false, inl, inr, Option, none, some, List, [], ◌∷◌,
  ◌==◌, if◌then◌else◌, arith, Option-cases, ◌<◌,
}
use tlpi_practice.Common.Disk.{Bytes}
use tlpi_practice.Common.Threads.{put, put_self, put_other, same_or_other}
use tlpi_practice.ProcessTree.{max_pid, Node, Table, add_child, ensure_parent, create_node, Entry}

-- The children of `p` among the entries, which are listed with the last one first.
unfoldable pub kids : ℕ → List Entry → List ℕ
kids p [] = []
kids p (e ∷ es) = if e.ppid == p then e.pid ∷ kids p es else kids p es

unfoldable pub own : ℕ → List Entry → Option Entry
own p [] = none
own p (e ∷ es) = if e.pid == p then some e else own p es

-- The node of a process with an entry, and of one that is only named as a parent.
unfoldable pub node_of : ℕ → Option Entry → List ℕ → Option Node
node_of p (some e) cs = some (record { pid = p; ppid = some e.ppid; ins = some e.name; child = cs })
node_of p none (c ∷ cs) = some (record { pid = p; ppid = none; ins = none; child = c ∷ cs })
node_of p none [] = none

abbrev pub view : List Entry → Table
view es p = node_of p (own p es) (kids p es)

-- The number of the entry is not that of an earlier one, nor of the parent of one, nor of its own
-- parent, and its numbers are in the array.
pub record New (e : Entry) (es : List Entry) : Type 0 where
  pub first : own e.pid es ≡ none
  pub no_kids : kids e.pid es ≡ []
  pub no_loop : e.ppid ≢ e.pid
  pub in_array : (e.pid < max_pid) × (e.ppid < max_pid)

abbrev link : ℕ → ℕ → Table → Table
link ppid pid t = add_child ppid pid (ensure_parent ppid t)

ensure_other : (t : Table) (ppid p : ℕ) → p ≢ ppid → ensure_parent ppid t p ≡ t p
unfolding ensure_parent
ensure_other t ppid p ne = elim (Option-cases (t ppid)) [
  | inl gone ↦ rw (ensure_parent, gone) (put_other t ppid _ p ne)
  | inr (n, there) ↦ rw (ensure_parent, there) refl
]

filled : ℕ → Option Entry → List ℕ → Node
filled p (some e) cs = record { pid = p; ppid = some e.ppid; ins = some e.name; child = cs }
filled p none cs = record { pid = p; ppid = none; ins = none; child = cs }

ensure_self :
    (t : Table) (ppid : ℕ) (o : Option Entry) (cs : List ℕ)
    → t ppid ≡ node_of ppid o cs
    → ensure_parent ppid t ppid ≡ some (filled ppid o cs)
unfolding ensure_parent node_of filled
ensure_self t ppid none [] e = rw (ensure_parent, e) (put_self t ppid _)
ensure_self t ppid none (c ∷ cs) e = rw (ensure_parent, e) e
ensure_self t ppid (some x) cs e = rw (ensure_parent, e) e

add_child_other : (t : Table) (pid ppid p : ℕ) → p ≢ ppid → add_child ppid pid t p ≡ t p
unfolding add_child
add_child_other t pid ppid p ne = elim (Option-cases (t ppid)) [
  | inl gone ↦ rw (add_child, gone) refl
  | inr (n, there) ↦ rw (add_child, there) (put_other t ppid _ p ne)
]

add_child_self :
    (t : Table) (pid ppid : ℕ) (o : Option Entry) (cs : List ℕ)
    → t ppid ≡ some (filled ppid o cs)
    → add_child ppid pid t ppid ≡ node_of ppid o (pid ∷ cs)
unfolding add_child node_of filled
add_child_self t pid ppid none cs e = rw (add_child, e) (put_self t ppid _)
add_child_self t pid ppid (some x) cs e = rw (add_child, e) (put_self t ppid _)

link_other : (t : Table) (pid ppid p : ℕ) → p ≢ ppid → link ppid pid t p ≡ t p
link_other t pid ppid p ne =
    add_child_other (ensure_parent ppid t) pid ppid p ne ∙ ensure_other t ppid p ne

-- The parent, whether it has an entry or not, has one child more.
link_self :
    (t : Table) (pid ppid : ℕ) (o : Option Entry) (cs : List ℕ)
    → t ppid ≡ node_of ppid o cs
    → link ppid pid t ppid ≡ node_of ppid o (pid ∷ cs)
link_self t pid ppid o cs e =
    add_child_self (ensure_parent ppid t) pid ppid o cs (ensure_self t ppid o cs e)

eq_test : {a b : ℕ} → a ≡ b → (a == b) ≡ true
eq_test e = ground arith

ne_test : {a b : ℕ} → a ≢ b → (a == b) ≡ false
ne_test ne = ground arith

node_none : (q : ℕ) {o : Option Entry} {cs : List ℕ} → o ≡ none → cs ≡ [] → node_of q o cs ≡ none
unfolding node_of
node_none q a b = rw (a, b) refl

create_node_absent :
    (pid ppid : ℕ) (ins : Bytes) (t : Table)
    → t pid ≡ none
    → create_node pid ppid ins t
      ≡ link ppid pid
          (put t pid (some (record { pid = pid; ppid = some ppid; ins = some ins; child = [] })))
unfolding create_node
create_node_absent pid ppid ins t absent = rw (create_node, absent) refl

view_parent :
    (e : Entry) (es : List Entry)
    → e.ppid ≢ e.pid
    → view (e ∷ es) e.ppid ≡ node_of e.ppid (own e.ppid es) (e.pid ∷ kids e.ppid es)
unfolding own kids
view_parent e es ne =
    let not_mine : (e.pid == e.ppid) ≡ false = ne_test (λ q. ne (sym q)) in
    rw (own, kids, not_mine, eq_test {a = e.ppid} refl) refl

view_own :
    (e : Entry) (es : List Entry)
    → New e es
    → view (e ∷ es) e.pid
      ≡ some (record { pid = e.pid; ppid = some e.ppid; ins = some e.name; child = [] })
unfolding own kids node_of
view_own e es new = rw (own, kids, eq_test {a = e.pid} refl, ne_test new.no_loop, new.no_kids) refl

pub create_node-view :
    (e : Entry) (es : List Entry) (t : Table)
    → New e es
    → ((p : ℕ) → t p ≡ view es p)
    → (p : ℕ) → create_node e.pid e.ppid e.name t p ≡ view (e ∷ es) p
unfolding create_node own kids
create_node-view e es t new h p =
    let absent : t e.pid ≡ none = h e.pid ∙ node_none e.pid new.first new.no_kids in
    let n : Node = record { pid = e.pid; ppid = some e.ppid; ins = some e.name; child = [] } in
    let t' : Table = put t e.pid (some n) in
    let made = create_node_absent e.pid e.ppid e.name t absent in
    let run : create_node e.pid e.ppid e.name t p ≡ link e.ppid e.pid t' p = ap (λ f. f p) made in
    elim (same_or_other p e.ppid) [
      | inl parent ↦
          let old : t' e.ppid ≡ view es e.ppid =
            put_other t e.pid (some n) e.ppid new.no_loop ∙ h e.ppid in
          let linked = link_self t' e.pid e.ppid (own e.ppid es) (kids e.ppid es) old in
          subst (λ q. create_node e.pid e.ppid e.name t q ≡ view (e ∷ es) q) (sym parent)
            (ap (λ f. f e.ppid) made ∙ (linked ∙ sym (view_parent e es new.no_loop)))
      | inr ne ↦
          let kept = link_other t' e.pid e.ppid p ne in
          let no_child : (e.ppid == p) ≡ false = ne_test (λ q. ne (sym q)) in
          elim (same_or_other p e.pid) [
            | inl mine ↦
                subst
                  (λ q.
                    link e.ppid e.pid t' p ≡ t' p
                    → create_node e.pid e.ppid e.name t p ≡ view (e ∷ es) q)
                  (sym mine)
                  (λ k.
                    run
                    ∙ (k ∙ (ap t' mine ∙ (put_self t e.pid (some n) ∙ sym (view_own e es new)))))
                  kept
            | inr other ↦
                let not_mine : (e.pid == p) ≡ false = ne_test (λ q. other (sym q)) in
                run
                ∙ (kept
                    ∙ (put_other t e.pid (some n) p other
                        ∙ rw (own, kids, not_mine, no_child) (h p)))
          ]
    ]
