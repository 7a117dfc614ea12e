-- ===== src/Getcwd/Climb.antt =====
-- 18-5-my_getcwd.c: the way up is the way down, and what `m_getcwd` returns.
use tlpi_practice.Common.{
  ℕ, suc, ◌+◌, ◌≡◌, ◌≤◌, ◌<◌, refl, sym, ap, subst, ◌∙◌, Bool, true, false, some, List, [], ◌∷◌,
  ◌++◌, ltb, length, arith, if◌then◌else◌, Bool-cases, inl, inr,
}
use mathlib.Core.List.{append-nil}
use tlpi_practice.Common.Disk.{Bytes}
use tlpi_practice.Getcwd.{
  Stat, same, Item, System, found, find_ent, at_root, climb, Result, returns, erange, put_names,
  m_getcwd,
}
use tlpi_practice.Getcwd.PathText.{
  NulFree, AllNulFree, join, behind, put_names_fits, put_names_erange,
}

-- The first item with status `s` has the name `n`, and the items before it have a status.
pub data Listed (n : Bytes) (s : Stat) : List Item → Type 0 where
  here :
      (e : Item) (es : List Item) (t : Stat)
      → e.lstat ≡ some t
      → same t s ≡ true
      → e.name ≡ n
      → Listed n s (e ∷ es)
  there :
      (e : Item) (es : List Item) (t : Stat)
      → e.lstat ≡ some t
      → same t s ≡ false
      → Listed n s es
      → Listed n s (e ∷ es)

find_ent-Listed :
    (n : Bytes) (s : Stat) (broken : Bool) (es : List Item)
    → Listed n s es
    → find_ent s broken es ≡ found n
unfolding find_ent
find_ent-Listed n s broken _ (here e es t known is named) = rw (find_ent, known, is, named) refl
find_ent-Listed n s broken _ (there e es t known other h) =
    rw (find_ent, known, other) (find_ent-Listed n s broken es h)

-- Directory `e` is below `d` under the name `n`, and is another directory than `d`.
pub record Child (sys : System) (d : ℕ) (n : Bytes) (e : ℕ) : Type 0 where
  pub above : sys.parent e ≡ d
  pub low : Stat
  pub high : Stat
  pub stat_low : sys.stat e ≡ some low
  pub stat_high : sys.stat d ≡ some high
  pub other : same low high ≡ false
  pub enters : sys.may_enter d ≡ true
  pub listed : Listed n low (sys.items d)

-- The names `ns` lead from directory `d` down to directory `c`.
pub data Leads (sys : System) : ℕ → List Bytes → ℕ → Type 0 where
  stays : (d : ℕ) → Leads sys d [] d
  down :
      (d e c : ℕ) (n : Bytes) (ns : List Bytes)
      → Child sys d n e
      → Leads sys e ns c
      → Leads sys d (n ∷ ns) c

-- The root is the directory above itself.
pub record Root (sys : System) (r : ℕ) : Type 0 where
  pub above : sys.parent r ≡ r
  pub status : Stat
  pub stat_root : sys.stat r ≡ some status

climb-up :
    (sys : System) (e fuel : ℕ) (n : Bytes) (names : List Bytes) (low high : Stat)
    → sys.stat e ≡ some low
    → sys.stat (sys.parent e) ≡ some high
    → same low high ≡ false
    → sys.may_enter (sys.parent e) ≡ true
    → Listed n low (sys.items (sys.parent e))
    → climb (suc fuel) sys e names ≡ climb fuel sys (sys.parent e) (n ∷ names)
unfolding climb
climb-up sys e fuel n names low high here_is up_is other enters listed =
    let up = sys.parent e in
    let search = find_ent-Listed n low (sys.broken up) (sys.items up) listed in
    rw (climb, here_is, up_is, other, enters, search) refl

climb-step :
    (sys : System) (d e fuel : ℕ) (n : Bytes) (names : List Bytes)
    → Child sys d n e
    → climb (suc fuel) sys e names ≡ climb fuel sys d (n ∷ names)
climb-step sys d e fuel n names child =
    let back : d ≡ sys.parent e = sym child.above in
    climb-up sys e fuel n names child.low child.high child.stat_low
      (subst (λ p. sys.stat p ≡ some child.high) back child.stat_high) child.other
      (subst (λ p. sys.may_enter p ≡ true) back child.enters)
      (subst (λ p. Listed n child.low (sys.items p)) back child.listed)
    ∙ ap (λ p. climb fuel sys p (n ∷ names)) child.above

climb-Leads :
    (sys : System) (d c : ℕ) (ns : List Bytes) (fuel : ℕ) (names : List Bytes)
    → Leads sys d ns c
    → climb (length ns + fuel) sys c names ≡ climb fuel sys d (ns ++ names)
climb-Leads sys _ _ _ fuel names (stays d) =
    let e : 0 + fuel ≡ fuel = omega arith in ap (λ f. climb f sys d names) e
climb-Leads sys _ _ _ fuel names (down d e c n ns child rest) =
    let count : suc (length ns) + fuel ≡ length ns + suc fuel = omega arith in
    ap (λ f. climb f sys c names) count
    ∙ (climb-Leads sys e c ns (suc fuel) names rest ∙ climb-step sys d e fuel n (ns ++ names) child)

same_refl : (s : Stat) → same s s ≡ true
same_refl s = ground arith

climb-root :
    (sys : System) (r fuel : ℕ) (names : List Bytes)
    → Root sys r
    → climb (suc fuel) sys r names ≡ at_root names
unfolding climb
climb-root sys r fuel names root =
    rw (climb, root.stat_root, root.above, root.stat_root, same_refl root.status) refl

climbs :
    (sys : System) (r c fuel : ℕ) (ns : List Bytes)
    → Root sys r
    → Leads sys r ns c
    → climb (length ns + suc fuel) sys c [] ≡ at_root ns
climbs sys r c fuel ns root path =
    climb-Leads sys r c ns (suc fuel) [] path
    ∙ (climb-root sys r fuel (ns ++ []) root ∙ ap at_root (append-nil ns))

if_true : {A : Type 0} (b : Bool) (x y : A) → b ≡ true → (if b then x else y) ≡ x
if_true b x y h = rw h refl

if_false : {A : Type 0} (b : Bool) (x y : A) → b ≡ false → (if b then x else y) ≡ y
if_false b x y h = rw h refl

abbrev outcome : List Bytes → Bytes → Result
outcome ns buf =
    if ltb (length (join ns)) (length buf)
    then returns (join ns ++ behind (length (join ns)) buf)
    else erange

put_all_full :
    (ns : List Bytes) (buf : Bytes)
    → AllNulFree ns
    → 0 < length buf
    → length buf ≤ length (join ns)
    → put_names ns 0 buf ≡ erange
unfolding NulFree join
put_all_full [] buf free some_room full = absurd (omega (arith, some_room, full))
put_all_full (n ∷ ns) buf free some_room full =
    put_names_erange n ns [] buf tt free (omega (arith, full))

put_all :
    (ns : List Bytes) (buf : Bytes)
    → AllNulFree ns
    → 0 < length buf
    → put_names ns 0 buf ≡ outcome ns buf
unfolding NulFree
put_all ns buf free some_room = elim (Bool-cases (ltb (length (join ns)) (length buf))) [
  | inl fits ↦
      let less : length (join ns) < length buf = ground arith in
      put_names_fits ns [] buf tt free (omega (arith, less)) ∙ sym (if_true _ _ _ fits)
  | inr full ↦
      let more : length buf ≤ length (join ns) = ground arith in
      put_all_full ns buf free some_room more ∙ sym (if_false _ _ _ full)
]

-- From a directory to which the names `ns` lead down from the root, `m_getcwd` finds the way up
-- again, and puts the path of these names into the buffer with a NUL behind it, where the buffer has
-- room for both; where it has not, it returns NULL with ERANGE. For the root itself it leaves the
-- buffer as it is. No byte behind the NUL is changed, and the climb takes no more rounds than there
-- are names, and one. This is where each directory is the first item of its status in the one above
-- it, with a name without NUL.
pub m_getcwd-path :
    (sys : System) (r c fuel : ℕ) (ns : List Bytes) (buf : Bytes)
    → Root sys r
    → Leads sys r ns c
    → AllNulFree ns
    → 0 < length buf
    → m_getcwd (length ns + suc fuel) sys c buf ≡ (
        if ltb (length (join ns)) (length buf)
        then returns (join ns ++ behind (length (join ns)) buf)
        else erange)
unfolding m_getcwd
m_getcwd-path sys r c fuel ns buf root path free some_room =
    rw (m_getcwd, climbs sys r c fuel ns root path) (put_all ns buf free some_room)
