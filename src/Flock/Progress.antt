-- ===== src/Flock/Progress.antt =====
-- 55-2-flock_dead_lock.c: the two processes do not block each other.
use tlpi_practice.Common.{ℕ, zero, suc, ◌+◌, ◌≡◌, refl, true, ◌⊎◌, inl, inr, arith}
use tlpi_practice.Flock.{
  File, f1, f2, Process, child, parent, Pc, first, wait, post, second, paused, shared, refers,
  first_file, second_file, State, pc_of, Free, Step, locks_first, waits, posts, locks_second,
  Reachable, begins, steps,
}

-- How much of the semaphore a process holds.
abbrev holds : Pc → ℕ
holds post = 1
holds _ = 0

-- A lock is held by no open file or by the one that both processes use, and the semaphore is 1
-- but for what the processes hold.
record Invariant (s : State) : Type 0 where
  free1 : Free s f1 (shared f1)
  free2 : Free s f2 (shared f2)
  whole : s.sem + holds s.at_child + holds s.at_parent ≡ 1

Step-Invariant : (s s' : State) → Step true s s' → Invariant s → Invariant s'
unfolding refers
Step-Invariant _ _ (locks_first s child at free) inv = record {
  free1 = inr refl;
  free2 = inv.free2;
  whole = (rw at at inv.whole);
}
Step-Invariant _ _ (locks_first s parent at free) inv = record {
  free1 = inv.free1;
  free2 = inr refl;
  whole = (rw at at inv.whole);
}
Step-Invariant _ _ (waits s child n at pos) inv =
    let w : suc n + 0 + holds s.at_parent ≡ 1 = rw (at, pos) at inv.whole in
    record { free1 = inv.free1; free2 = inv.free2; whole = omega (arith, w) }
Step-Invariant _ _ (waits s parent n at pos) inv =
    let w : suc n + holds s.at_child + 0 ≡ 1 = rw (at, pos) at inv.whole in
    record { free1 = inv.free1; free2 = inv.free2; whole = omega (arith, w) }
Step-Invariant _ _ (posts s child at) inv =
    let w : s.sem + 1 + holds s.at_parent ≡ 1 = rw at at inv.whole in
    record { free1 = inv.free1; free2 = inv.free2; whole = omega (arith, w) }
Step-Invariant _ _ (posts s parent at) inv =
    let w : s.sem + holds s.at_child + 1 ≡ 1 = rw at at inv.whole in
    record { free1 = inv.free1; free2 = inv.free2; whole = omega (arith, w) }
Step-Invariant _ _ (locks_second s child at free) inv = record {
  free1 = inv.free1;
  free2 = inr refl;
  whole = (rw at at inv.whole);
}
Step-Invariant _ _ (locks_second s parent at free) inv = record {
  free1 = inr refl;
  free2 = inv.free2;
  whole = (rw at at inv.whole);
}

Reachable-Invariant : (s : State) → Reachable true s → Invariant s
Reachable-Invariant _ begins = record { free1 = inl refl; free2 = inl refl; whole = refl }
Reachable-Invariant s' (steps {s} r st) = Step-Invariant s s' st (Reachable-Invariant s r)

Free-of : (s : State) → Invariant s → (f : File) → Free s f (shared f)
Free-of s inv f1 = inv.free1
Free-of s inv f2 = inv.free2

abbrev Goes : State → Type 0
Goes s = (s' : State) × Step true s s'

-- A process that is not in `pause` goes on, or waits for the semaphore.
process-Goes :
    (s : State) (p : Process) (c : Pc)
    → Invariant s
    → pc_of s p ≡ c
    → (c ≡ paused) ⊎ (Goes s ⊎ ((c ≡ wait) × (s.sem ≡ 0)))
unfolding refers
process-Goes s p first inv e = inr (inl (_, locks_first s p e (Free-of s inv (first_file p))))
process-Goes s p wait inv e = sem s.sem refl
  where
    sem : (n : ℕ) → s.sem ≡ n → (wait ≡ paused) ⊎ (Goes s ⊎ ((wait ≡ wait) × (s.sem ≡ 0)))
    sem zero z = inr (inr (refl, z))
    sem (suc n) z = inr (inl (_, waits s p n e z))
process-Goes s p post inv e = inr (inl (_, posts s p e))
process-Goes s p second inv e = inr (inl (_, locks_second s p e (Free-of s inv (second_file p))))
process-Goes s p paused inv e = inl refl

-- In every order of their statements, the two processes never block each other: until both are in
-- `pause`, with both locks taken, one of them can go on. This is so because the files are opened
-- before `fork`, and the program has no deadlock to show.
pub Reachable-goes :
    (s : State)
    → Reachable true s
    → ((s.at_child ≡ paused) × (s.at_parent ≡ paused)) ⊎ ((s' : State) × Step true s s')
Reachable-goes s r =
    let inv = Reachable-Invariant s r in
    elim (process-Goes s child s.at_child inv refl) [
      | inr (inl go) ↦ inr go
      | inl c ↦ elim (process-Goes s parent s.at_parent inv refl) [
        | inl q ↦ inl (c, q)
        | inr (inl go) ↦ inr go
        | inr (inr (w, none_left)) ↦
            let k : s.sem + 0 + 0 ≡ 1 = rw (c, w) at inv.whole in absurd (omega (arith, k))
      ]
      | inr (inr (w, none_left)) ↦ elim (process-Goes s parent s.at_parent inv refl) [
        | inl q ↦ let k : s.sem + 0 + 0 ≡ 1 = rw (w, q) at inv.whole in absurd (omega (arith, k))
        | inr (inl go) ↦ inr go
        | inr (inr (v, _)) ↦
            let k : s.sem + 0 + 0 ≡ 1 = rw (w, v) at inv.whole in absurd (omega (arith, k))
      ]
    ]
