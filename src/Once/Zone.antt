-- ===== src/Once/Zone.antt =====
-- 31-1-one_time_init.c: the phase of a run by the place of the thread that holds the lock.
use tlpi_practice.Common.{
  ℕ, ◌≡◌, ◌≢◌, sym, ap, ◌∙◌, subst, Bool, true, false, ◌⊎◌, inl, inr, Option, none, some,
}
use tlpi_practice.Common.Threads.{put, put_self, put_other, same_or_other}
use tlpi_practice.Once.{
  Pc, outer_test, lock, inner_test, call, calling, store, unlock, returned, State,
}

-- Between the lock and the unlock.
unfoldable pub InZone : Pc → Type 0
InZone outer_test = ⊥
InZone lock = ⊥
InZone returned = ⊥
InZone _ = Unit {0}

abbrev pub Settled : ℕ → ℕ → Bool → Type 0
Settled c f i = ((c ≡ 0) × (f ≡ 0) × (i ≡ false)) ⊎ ((c ≡ 1) × (f ≡ 1) × (i ≡ true))

-- The counts and the flag where the holder of the lock is at this place.
unfoldable pub Held : Pc → ℕ → ℕ → Bool → Type 0
Held inner_test c f i = Settled c f i
Held call c f i = (c ≡ 0) × (f ≡ 0) × (i ≡ false)
Held calling c f i = (c ≡ 1) × (f ≡ 0) × (i ≡ false)
Held store c f i = (c ≡ 1) × (f ≡ 1) × (i ≡ false)
Held unlock c f i = (c ≡ 1) × (f ≡ 1) × (i ≡ true)
Held _ c f i = ⊥

unfoldable pub Phase : Option ℕ → (ℕ → Pc) → ℕ → ℕ → Bool → Type 0
Phase none pc c f i = Settled c f i
Phase (some t) pc c f i = Held (pc t) c f i

pub record Invariant (s : State) : Type 0 where
  pub zone : (t : ℕ) → InZone (s.pc t) → s.holder ≡ some t
  pub phase : Phase s.holder s.pc s.called s.finished s.inited
  pub ended : (t : ℕ) → s.pc t ≡ returned → s.inited ≡ true

pub zone_put :
    (f : ℕ → Pc) (t : ℕ) (p : Pc) (h : Option ℕ)
    → (InZone p → h ≡ some t)
    → ((u : ℕ) → u ≢ t → InZone (f u) → h ≡ some u)
    → (u : ℕ) → InZone (put f t p u)
    → h ≡ some u
zone_put f t p h mine others u z = elim (same_or_other u t) [
  | inl e ↦
      let z' : InZone p = subst InZone (put_self f t p) (subst (λ v. InZone (put f t p v)) e z) in
      rw e (mine z')
  | inr ne ↦ others u ne (subst InZone (put_other f t p u ne) z)
]

pub ended_put :
    (f : ℕ → Pc) (t : ℕ) (p : Pc) {B : Type 0}
    → ((u : ℕ) → f u ≡ returned → B)
    → (p ≡ returned → B)
    → (u : ℕ) → put f t p u ≡ returned
    → B
ended_put f t p others mine u e = elim (same_or_other u t) [
  | inl same ↦ mine (sym (put_self f t p) ∙ (sym (ap (put f t p) same) ∙ e))
  | inr ne ↦ others u (sym (put_other f t p u ne) ∙ e)
]

-- A step of a thread outside the zone leaves the phase.
pub Phase-outside :
    (h : Option ℕ) (pc : ℕ → Pc) (t : ℕ) (p : Pc) (c f : ℕ) (i : Bool)
    → ¬ Held (pc t) c f i
    → Phase h pc c f i
    → Phase h (put pc t p) c f i
unfolding Phase
Phase-outside none pc t p c f i out ph = ph
Phase-outside (some v) pc t p c f i out ph = elim (same_or_other v t) [
  | inl e ↦ absurd (out (subst (λ w. Held (pc w) c f i) e ph))
  | inr ne ↦ subst (λ q. Held q c f i) (sym (put_other pc t p v ne)) ph
]

-- The holder's place and counts, and how its step sets them.
pub phase_inside :
    (s : State) (t : ℕ) (p : Pc)
    → Invariant s
    → s.pc t ≡ p
    → InZone p
    → Held p s.called s.finished s.inited
unfolding Phase
phase_inside s t p inv e z =
    let held = inv.zone t (subst InZone (sym e) z) in
    let ph = subst (λ h. Phase h s.pc s.called s.finished s.inited) held inv.phase in
    subst (λ q. Held q s.called s.finished s.inited) e ph

pub Phase-set :
    (h : Option ℕ) (pc : ℕ → Pc) (t : ℕ) (p : Pc) (c f : ℕ) (i : Bool)
    → h ≡ some t
    → Held p c f i
    → Phase h (put pc t p) c f i
unfolding Phase
Phase-set h pc t p c f i e held =
    subst (λ o. Phase o (put pc t p) c f i) (sym e)
      (subst (λ q. Held q c f i) (sym (put_self pc t p)) held)
