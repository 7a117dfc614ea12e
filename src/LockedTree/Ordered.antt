-- ===== src/LockedTree/Ordered.antt =====
-- 30-2-thread-safe_binary-tree.c: what `add` keeps, and the lock that it leaves held.
use tlpi_practice.Common.{
  ℕ, suc, ◌+◌, ◌≡◌, refl, ap, subst, Bool, true, false, not, ◌⊎◌, none, some, arith, Bool-cases,
  Option, Option-cases, inl, inr,
}
use mathlib.Core.Option.{some-injective}
use tlpi_practice.Common.Disk.{Bytes}
use tlpi_practice.Common.CString.{strcmp, is_negative}
use tlpi_practice.LockedTree.{
  Tree, null, node, new_node, is_null, descend, added, waits_ever, ended, add,
}

unfoldable pub AllKeys : (Bytes → Bool) → Tree → Type 0
AllKeys p null = Unit {0}
AllKeys p (node k x locked l r) = (p k ≡ true) × AllKeys p l × AllKeys p r

-- To the left of a node are the keys behind its own, to the right the others.
unfoldable pub Ordered : Tree → Type 0
Ordered null = Unit {0}
Ordered (node k x locked l r) =
    AllKeys (λ q. is_negative (strcmp k q)) l
    × AllKeys (λ q. not (is_negative (strcmp k q))) r
    × Ordered l
    × Ordered r

unfoldable pub Unlocked : Tree → Type 0
Unlocked null = Unit {0}
Unlocked (node k x locked l r) = (locked ≡ false) × Unlocked l × Unlocked r

unfoldable pub size : Tree → ℕ
size null = 0
size (node k x locked l r) = suc (size l + size r)

-- Whether a value is stored under a key.
unfoldable pub Has : Bytes → ℕ → Tree → Type 0
Has key value null = ⊥
Has key value (node k x locked l r) =
    ((k ≡ key) × (x ≡ value)) ⊎ (Has key value l ⊎ Has key value r)

record Grown (key : Bytes) (value : ℕ) (t t' : Tree) : Type 0 where
  run : descend key value t ≡ some t'
  ordered : Ordered t'
  more : size t' ≡ suc (size t)
  has : Has key value t'
  all : (p : Bytes → Bool) → p key ≡ true → AllKeys p t → AllKeys p t'

descend-Grown :
    (key : Bytes) (value : ℕ) (t : Tree)
    → Unlocked t
    → Ordered t
    → (t' : Tree) × Grown key value t t'
unfolding descend Unlocked Ordered AllKeys size Has
descend-Grown key value null u o = (
  new_node key value,
  record {
    run = refl;
    ordered = (tt, tt, tt, tt);
    more = refl;
    has = inl (refl, refl);
    all = λ p h a. (h, tt, tt);
  },
)
descend-Grown key value (node k x locked l r) (free, ul, ur) (ol, or', sl, sr) =
    elim (Bool-cases (is_negative (strcmp k key))) [
      | inl before ↦
          let (l', g) = descend-Grown key value l ul sl in
          (
            node k x (is_null l) l' r,
            record {
              run = rw (descend, free, before, g.run) refl;
              ordered = (g.all (λ q. is_negative (strcmp k q)) before ol, or', g.ordered, sr);
              more = omega (arith, g.more);
              has = inr (inl g.has);
              all = λ p h (mine, al, ar). (mine, g.all p h al, ar);
            },
          )
      | inr behind ↦
          let (r', g) = descend-Grown key value r ur sr in
          (
            node k x (is_null r) l r',
            record {
              run = rw (descend, free, behind, g.run) refl;
              ordered = (
                ol,
                g.all (λ q. not (is_negative (strcmp k q))) (ap not behind) or',
                sl,
                g.ordered,
              );
              more = omega (arith, g.more);
              has = inr (inr g.has);
              all = λ p h (mine, al, ar). (mine, al, g.all p h ar);
            },
          )
    ]

-- Into a tree that is not NULL, with no lock held, whose keys are in order, `add` puts the value
-- under its key: it ends, the tree has one node more and holds the value under the key, and its keys
-- are in order.
pub add-Ordered :
    (key : Bytes) (value : ℕ) (t : Tree)
    → is_null t ≡ false
    → Unlocked t
    → Ordered t
    → (t' : Tree) × (add key value t ≡ added t')
      × (size t' ≡ suc (size t))
      × Has key value t'
      × Ordered t'
unfolding add
add-Ordered key value null some_root u o = cc
add-Ordered key value (node k x locked l r) some_root u o =
    let (t', g) = descend-Grown key value (node k x locked l r) u o in
    (t', ap ended g.run, g.more, g.has, g.ordered)

-- One level of a second `add`: the lock is held, or the child that it goes on to blocks.
level :
    (key : Bytes) (w : ℕ) (k : Bytes) (x : ℕ) (l r c' : Tree) (child : Tree)
    → (is_null child ≡ false → descend key w c' ≡ none)
    → (is_negative (strcmp k key) ≡ true → descend key w (node k x (is_null child) c' r) ≡ none)
      × (is_negative (strcmp k key) ≡ false → descend key w (node k x (is_null child) l c') ≡ none)
unfolding descend
level key w k x l r c' null h = (λ b. refl, λ b. refl)
level key w k x l r c' (node _ _ _ _ _) h =
    (λ b. rw (descend, b, h refl) refl, λ b. rw (descend, b, h refl) refl)

-- The same of the loop.
descend-blocks :
    (key : Bytes) (v w : ℕ) (t t' : Tree)
    → is_null t ≡ false
    → descend key v t ≡ some t'
    → descend key w t' ≡ none
unfolding descend
descend-blocks key v w null t' some_root e = cc
descend-blocks key v w (node k x true l r) t' some_root e = cc
descend-blocks key v w (node k x false l r) t' some_root e =
    elim (Bool-cases (is_negative (strcmp k key))) [
      | inl before ↦ elim (Option-cases (descend key v l)) [
        | inl gone ↦ let h : none ≡ some t' = rw (descend, before, gone) at e in cc
        | inr (l', left) ↦
            let h : some (node k x (is_null l) l' r) ≡ some t' = rw (descend, before, left) at e in
            let blocked =
              (level key w k x l r l' l (λ n. descend-blocks key v w l l' n left)).0 before in
            subst (λ q. descend key w q ≡ none) (some-injective _ _ h) blocked
      ]
      | inr behind ↦ elim (Option-cases (descend key v r)) [
        | inl gone ↦ let h : none ≡ some t' = rw (descend, behind, gone) at e in cc
        | inr (r', right) ↦
            let h : some (node k x (is_null r) l r') ≡ some t' = rw (descend, behind, right) at e in
            let blocked =
              (level key w k x l r r' r (λ n. descend-blocks key v w r r' n right)).1 behind in
            subst (λ q. descend key w q ≡ none) (some-injective _ _ h) blocked
      ]
    ]

blocked : (key : Bytes) (w : ℕ) (t : Tree) → descend key w t ≡ none → add key w t ≡ waits_ever
unfolding descend add
blocked key w null h = cc
blocked key w (node k x locked l r) h = ap ended h

added_of : (o : Option Tree) (t : Tree) → ended o ≡ added t → o ≡ some t
added_of none t h = cc
added_of (some u) t h = cc

-- A tree into which `add` has put a key is one where a second `add` of that key waits for ever: the
-- first one leaves the lock of the node held to which it has hung its own. This holds for any tree
-- that has a root, for which the first `add` ends.
pub add-blocks :
    (key : Bytes) (v w : ℕ) (t t' : Tree)
    → is_null t ≡ false
    → add key v t ≡ added t'
    → add key w t' ≡ waits_ever
unfolding add
add-blocks key v w null t' some_root e = cc
add-blocks key v w (node k x locked l r) t' some_root e =
    blocked key w t' (descend-blocks key v w (node k x locked l r) t' refl (added_of _ t' e))
