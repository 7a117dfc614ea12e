-- ===== src/Once/Runs.antt =====
-- 31-1-one_time_init.c: `init` runs at most once, and to its end before a thread returns.
use tlpi_practice.Common.{
  ℕ, suc, ◌≤◌, ◌≡◌, refl, sym, ap, ◌∙◌, subst, Bool, true, false, inl, inr, Option, none, some,
  arith,
}
use mathlib.Core.Bool.{false≢true}
use mathlib.Core.Option.{none-ne-some, some-injective}
use tlpi_practice.Common.Threads.{put}
use tlpi_practice.Once.{
  Pc, outer_test, lock, inner_test, call, calling, store, unlock, returned, State, at, Step, skips,
  enters, locks, finds_done, finds_undone, calls, finishes, stores, unlocks, Reachable, begins,
  steps,
}
use tlpi_practice.Once.Zone.{
  InZone, Settled, Held, Phase, zone_put, ended_put, Phase-outside, phase_inside, Phase-set,
  Invariant,
}

-- A step outside the zone.
outside :
    (s : State) (t : ℕ) (p q : Pc)
    → Invariant s
    → s.pc t ≡ p
    → ¬ InZone p
    → ¬ Held p s.called s.finished s.inited
    → ¬ InZone q
    → (q ≡ returned → s.inited ≡ true)
    → Invariant (at s t q)
outside s t p q inv e out free out' returns = record {
  zone = zone_put s.pc t q s.holder (λ z. absurd (out' z)) (λ u ne z. inv.zone u z);
  phase =
      Phase-outside s.holder s.pc t q s.called s.finished s.inited
        (λ h. free (subst (λ v. Held v s.called s.finished s.inited) e h)) inv.phase;
  ended = ended_put s.pc t q inv.ended returns;
}

-- A step of the holder that keeps the lock, with the counts and the flag that it leaves.
inside :
    (s : State) (t : ℕ) (p q : Pc) (c f : ℕ) (i : Bool)
    → Invariant s
    → s.pc t ≡ p
    → InZone p
    → Held q c f i
    → ¬ (q ≡ returned)
    → (s.inited ≡ true → i ≡ true)
    → Invariant
        (record { inited = i; holder = s.holder; called = c; finished = f; pc = put s.pc t q })
inside s t p q c f i inv e z held stays keeps =
    let mine = inv.zone t (subst InZone (sym e) z) in
    record {
      zone = zone_put s.pc t q s.holder (λ z'. mine) (λ u ne z'. inv.zone u z');
      phase = Phase-set s.holder s.pc t q c f i mine held;
      ended = ended_put s.pc t q (λ u r. keeps (inv.ended u r)) (λ r. absurd (stays r));
    }

Settled-true : {c f : ℕ} {i : Bool} → Settled c f i → i ≡ true → (c ≡ 1) × (f ≡ 1) × (i ≡ true)
Settled-true (inl (c, f, no_i)) yes_i = absurd (false≢true (sym no_i ∙ yes_i))
Settled-true (inr done) yes_i = done

Settled-false : {c f : ℕ} {i : Bool} → Settled c f i → i ≡ false → (c ≡ 0) × (f ≡ 0) × (i ≡ false)
Settled-false (inl fresh) no_i = fresh
Settled-false (inr (c, f, yes_i)) no_i = absurd (false≢true (sym no_i ∙ yes_i))

Step-Invariant : (s s' : State) → Step s s' → Invariant s → Invariant s'
unfolding InZone Held Phase
Step-Invariant _ _ (skips s t e i) inv =
    outside s t outer_test returned inv e (λ z. z) (λ h. h) (λ z. z) (λ r. i)
Step-Invariant _ _ (enters s t e i) inv =
    outside s t outer_test lock inv e (λ z. z) (λ h. h) (λ z. z) (λ r. cc)
Step-Invariant _ _ (locks s t e free) inv = record {
  zone =
      zone_put s.pc t inner_test (some t) (λ z. refl)
        (λ u ne z. absurd (none-ne-some u (sym free ∙ inv.zone u z)));
  phase =
      Phase-set (some t) s.pc t inner_test s.called s.finished s.inited refl
        (subst (λ h. Phase h s.pc s.called s.finished s.inited) free inv.phase);
  ended = ended_put s.pc t inner_test inv.ended (λ r. cc);
}
Step-Invariant _ _ (finds_done s t e i) inv =
    let done = Settled-true (phase_inside s t inner_test inv e tt) i in
    inside s t inner_test unlock s.called s.finished s.inited inv e tt done (λ r. cc) (λ d. d)
Step-Invariant _ _ (finds_undone s t e i) inv =
    let fresh = Settled-false (phase_inside s t inner_test inv e tt) i in
    inside s t inner_test call s.called s.finished s.inited inv e tt fresh (λ r. cc) (λ d. d)
Step-Invariant _ _ (calls s t e) inv =
    let (c, f, i) = phase_inside s t call inv e tt in
    inside s t call calling (suc s.called) s.finished s.inited inv e tt (ap suc c, f, i) (λ r. cc)
      (λ d. d)
Step-Invariant _ _ (finishes s t e) inv =
    let (c, f, i) = phase_inside s t calling inv e tt in
    inside s t calling store s.called (suc s.finished) s.inited inv e tt (c, ap suc f, i) (λ r. cc)
      (λ d. d)
Step-Invariant _ _ (stores s t e) inv =
    let (c, f, i) = phase_inside s t store inv e tt in
    inside s t store unlock s.called s.finished true inv e tt (c, f, refl) (λ r. cc) (λ d. refl)
Step-Invariant _ _ (unlocks s t e) inv =
    let mine : s.holder ≡ some t = inv.zone t (subst InZone (sym e) tt) in
    let (c, f, i) = phase_inside s t unlock inv e tt in
    record {
      zone =
          zone_put s.pc t returned none (λ z. absurd z)
            (λ u ne z. absurd (ne (some-injective u t (sym (inv.zone u z) ∙ mine))));
      phase = inr (c, f, i);
      ended = ended_put s.pc t returned inv.ended (λ r. i);
    }

Reachable-Invariant : (s : State) → Reachable s → Invariant s
unfolding InZone Phase
Reachable-Invariant _ begins = record {
  zone = λ t z. absurd z;
  phase = inl (refl, refl, refl);
  ended = λ t r. cc;
}
Reachable-Invariant s' (steps {s} r st) = Step-Invariant s s' st (Reachable-Invariant s r)

-- What the holder's place says of the counts.
at_most_once :
    (p : Pc) {c f : ℕ} {i : Bool} → Held p c f i → (c ≤ 1) × (i ≡ true → (c ≡ 1) × (f ≡ 1))
unfolding Held
at_most_once inner_test (inl (c, f, no_i)) =
    (omega (arith, c), λ yes_i. absurd (false≢true (sym no_i ∙ yes_i)))
at_most_once inner_test (inr (c, f, yes_i)) = (omega (arith, c), λ i. (c, f))
at_most_once call (c, f, no_i) = (omega (arith, c), λ yes_i. absurd (false≢true (sym no_i ∙ yes_i)))
at_most_once calling (c, f, no_i) =
    (omega (arith, c), λ yes_i. absurd (false≢true (sym no_i ∙ yes_i)))
at_most_once store (c, f, no_i) =
    (omega (arith, c), λ yes_i. absurd (false≢true (sym no_i ∙ yes_i)))
at_most_once unlock (c, f, yes_i) = (omega (arith, c), λ i. (c, f))
at_most_once outer_test h = absurd h
at_most_once lock h = absurd h
at_most_once returned h = absurd h

counts :
    (h : Option ℕ) (pc : ℕ → Pc) (c f : ℕ) (i : Bool)
    → Phase h pc c f i
    → (c ≤ 1) × (i ≡ true → (c ≡ 1) × (f ≡ 1))
unfolding Phase Held
counts none pc c f i ph = at_most_once inner_test ph
counts (some t) pc c f i ph = at_most_once (pc t) ph

-- In every order of the statements of any number of threads, `init` is called once at most.
pub called-le_one : (s : State) → Reachable s → s.called ≤ 1
called-le_one s r =
    let inv = Reachable-Invariant s r in
    (counts s.holder s.pc s.called s.finished s.inited inv.phase).0

-- In every order of the statements of any number of threads, a thread that has returned from
-- `one_time_init` finds that `init` has been called once, and that this call has ended.
pub returned-finished :
    (s : State) (t : ℕ) → Reachable s → s.pc t ≡ returned → (s.called ≡ 1) × (s.finished ≡ 1)
returned-finished s t r e =
    let inv = Reachable-Invariant s r in
    (counts s.holder s.pc s.called s.finished s.inited inv.phase).1 (inv.ended t e)
