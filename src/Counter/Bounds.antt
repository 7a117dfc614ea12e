-- ===== src/Counter/Bounds.antt =====
-- 30-1-changed_simple_thread.c: what `glob` can be.
use tlpi_practice.Common.{ℕ, suc, ◌+◌, ◌*◌, ◌^◌, ◌≤◌, ◌<◌, ◌≡◌, arith}
use tlpi_practice.Counter.{
  Pc, load, increment, store, print, Thread, Move, loads, increments, stores, prints, State, first,
  second, Reachable, begins, steps, Returned, plus_one,
}

-- The stores that a thread has done.
unfoldable pub stored : Thread → ℕ
stored t = elim t.pc [ print ↦ suc t.j | _ ↦ t.j ]

-- What a thread holds, where `n` stores have been done in all.
unfoldable Local : ℕ → ℕ → Pc → ℕ → ℕ → Type 0
Local loops n load j loc = j ≤ loops
Local loops n increment j loc = (j < loops) × (loc ≤ n)
Local loops n store j loc = (j < loops) × (loc ≤ suc n) × (0 < loc)
Local loops n print j loc = j < loops

record Invariant (loops g : ℕ) (a b : Thread) : Type 0 where
  upper : g ≤ stored a + stored b
  lower : 0 < stored a + stored b → 0 < g
  mine : Local loops (stored a + stored b) a.pc a.j a.loc
  other : Local loops (stored a + stored b) b.pc b.j b.loc

Local-le :
    (loops n m : ℕ) (pc : Pc) (j loc : ℕ) → n ≤ m → Local loops n pc j loc → Local loops m pc j loc
unfolding Local
Local-le loops n m load j loc le h = h
Local-le loops n m increment j loc le (h, small) = (h, omega arith)
Local-le loops n m store j loc le (h, small, some) = (h, omega arith, some)
Local-le loops n m print j loc le h = h

-- No word wraps where both threads together do fewer than 2 ^ 31 rounds.
plus_one-suc : (loc : ℕ) → suc loc < 2 ^ 32 → plus_one loc ≡ suc loc
unfolding plus_one
plus_one-suc loc h = omega arith

le_stored :
    (loops n : ℕ) (pc : Pc) (j loc : ℕ)
    → Local loops n pc j loc
    → stored (record { j = j; loc = loc; pc = pc }) ≤ loops
unfolding Local stored
le_stored loops n load j loc h = h
le_stored loops n increment j loc (more, small) = omega arith
le_stored loops n store j loc (more, small, some) = omega arith
le_stored loops n print j loc h = omega arith

Move-Invariant :
    {loops g g' : ℕ} {a a' b : Thread}
    → 2 * loops < 2 ^ 31
    → Move loops g a g' a'
    → Invariant loops g a b
    → Invariant loops g' a' b
unfolding Local stored
Move-Invariant few (loads g j loc more) inv = record {
  upper = inv.upper;
  lower = inv.lower;
  mine = (more, inv.upper);
  other = inv.other;
}
Move-Invariant {loops} {b = b} few (increments g j loc) inv =
    let (more, small) = inv.mine in
    let theirs = le_stored loops _ b.pc b.j b.loc inv.other in
    let next : plus_one loc ≡ suc loc = plus_one-suc loc (omega arith) in
    rw next record {
      upper = inv.upper;
      lower = inv.lower;
      mine = (more, omega arith, omega arith);
      other = inv.other;
    }
Move-Invariant {b = b} few (stores g j loc) inv =
    let (more, small, some) = inv.mine in
    record {
      upper = omega arith;
      lower = λ h. some;
      mine = more;
      other = Local-le _ _ _ b.pc b.j b.loc (omega arith) inv.other;
    }
Move-Invariant few (prints g j loc) inv = record {
  upper = inv.upper;
  lower = inv.lower;
  mine = omega (arith, inv.mine);
  other = inv.other;
}

swap : {loops g : ℕ} {a b : Thread} → Invariant loops g a b → Invariant loops g b a
swap {a = a} {b = b} inv = record {
  upper = omega (arith, inv.upper);
  lower = λ h. inv.lower (omega arith);
  mine = Local-le _ _ _ b.pc b.j b.loc (omega arith) inv.other;
  other = Local-le _ _ _ a.pc a.j a.loc (omega arith) inv.mine;
}

Reachable-Invariant :
    {loops : ℕ} {s : State}
    → 2 * loops < 2 ^ 31
    → Reachable loops s
    → Invariant loops s.glob s.t1 s.t2
unfolding Local stored
Reachable-Invariant few begins = record {
  upper = omega arith;
  lower = λ h. h;
  mine = omega arith;
  other = omega arith;
}
Reachable-Invariant few (steps r (first b m)) = Move-Invariant few m (Reachable-Invariant few r)
Reachable-Invariant few (steps r (second a m)) =
    swap (Move-Invariant few m (swap (Reachable-Invariant few r)))

stored-Returned : (loops : ℕ) (t : Thread) → Returned loops t → stored t ≡ loops
unfolding stored
stored-Returned loops t (j, at_load) = rw (stored, at_load) j

-- In every order of the statements of the two threads, once both have returned, `glob` is at most
-- twice the number of loops, and it is above 0; provided that there are loops, and that twice their
-- number fits an `int`.
pub glob-bounds :
    (loops : ℕ) (s : State)
    → 0 < loops
    → 2 * loops < 2 ^ 31
    → Reachable loops s
    → Returned loops s.t1
    → Returned loops s.t2
    → (0 < s.glob) × (s.glob ≤ 2 * loops)
glob-bounds loops s some few r one two =
    let inv = Reachable-Invariant few r in
    let e1 = stored-Returned loops s.t1 one in
    let e2 = stored-Returned loops s.t2 two in
    (inv.lower (omega (arith, e1, e2)), omega (arith, e1, e2, inv.upper))
