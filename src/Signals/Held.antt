-- ===== src/Signals/Held.antt =====
-- 22-4-systemV_signal_api.c: a signal that is held stays so; and 23-1-my_alarm.c.
use tlpi_practice.Common.{
  ℕ, ◌+◌, ◌*◌, ◌≡◌, ◌≤◌, ◌<◌, refl, sym, ap, ◌∙◌, Bool, true, false, ◌||◌, List, [], ◌∷◌, arith,
  if◌then◌else◌, Bool-cases, inl, inr,
}
use tlpi_practice.Common.Threads.{put}
use tlpi_practice.Signals.{
  Handler, is_hold, Process, sigset, sighold, sigrelse, sigignore, both, can_block, block, Time,
  my_alarm,
}

-- A call of the interface, apart from `sigpause`, which gives the mask back when it returns.
pub data Call : Type 0 where
  set_call : ℕ → Handler → Call
  hold_call relse_call ignore_call : ℕ → Call

unfoldable pub step : (ℕ → Bool) → Call → Process → Process
unfolding sigset sighold sigrelse sigignore
step valid (set_call sig h) p = (sigset valid sig h p).0
step valid (hold_call sig) p = sighold sig p
step valid (relse_call sig) p = sigrelse sig p
step valid (ignore_call sig) p = sigignore valid sig p

unfoldable pub steps : (ℕ → Bool) → List Call → Process → Process
unfolding step
steps valid [] p = p
steps valid (c ∷ cs) p = steps valid cs (step valid c p)

-- The signals that the calls hold, by SIG_HOLD only.
unfoldable pub holds : Call → ℕ → Bool
holds (set_call sig h) other = if is_hold h then put (λ s. false) sig true other else false
holds (hold_call sig) other = false
holds (relse_call sig) other = false
holds (ignore_call sig) other = false

unfoldable pub held : List Call → ℕ → Bool
unfolding holds
held [] other = false
held (c ∷ cs) other = holds c other || held cs other

or_false : (b : Bool) → (b || false) ≡ b
or_false true = refl
or_false false = refl

kept : (b : Bool) → both b true ≡ (b || false)
kept true = refl
kept false = refl

step-mask :
    (valid : ℕ → Bool) (c : Call) (p : Process) (other : ℕ)
    → (step valid c p).mask other ≡ (p.mask other || both (holds c other) (can_block other))
unfolding step holds sigset sighold sigrelse sigignore block
step-mask valid (set_call sig h) p other = elim (Bool-cases (is_hold h)) [
  | inl hold ↦ rw (step, sigset, holds, hold) refl
  | inr acts ↦ elim (Bool-cases (valid sig)) [
    | inl ok ↦ rw (step, sigset, holds, acts, ok) (sym (or_false (p.mask other)))
    | inr bad ↦ rw (step, sigset, holds, acts, bad) (sym (or_false (p.mask other)))
  ]
]
step-mask valid (hold_call sig) p other = refl
step-mask valid (relse_call sig) p other = kept (p.mask other)
step-mask valid (ignore_call sig) p other = elim (Bool-cases (valid sig)) [
  | inl ok ↦ rw (step, sigignore, ok) (sym (or_false (p.mask other)))
  | inr bad ↦ rw (step, sigignore, bad) (sym (or_false (p.mask other)))
]

joined : (m a b c : Bool) → ((m || both a c) || both b c) ≡ (m || both (a || b) c)
joined true a b c = refl
joined false true b true = refl
joined false true true false = refl
joined false true false false = refl
joined false false b c = refl

-- Behind any row of calls, the signals that are blocked are those that were blocked before and those
-- that `sigset` has been asked to hold, of the ones that can be blocked, which SIGKILL and SIGSTOP are
-- not: `sighold` holds none, and nothing, neither `sigrelse` nor a new handler, lets a signal through
-- again.
pub steps-held :
    (valid : ℕ → Bool) (cs : List Call) (p : Process) (sig : ℕ)
    → (steps valid cs p).mask sig ≡ (p.mask sig || both (held cs sig) (can_block sig))
unfolding steps held
steps-held valid [] p sig = sym (or_false (p.mask sig))
steps-held valid (c ∷ cs) p sig =
    steps-held valid cs (step valid c p) sig
    ∙ (ap (λ b. b || both (held cs sig) (can_block sig)) (step-mask valid c p sig)
        ∙ joined (p.mask sig) (holds c sig) (held cs sig) (can_block sig))

-- `my_alarm` returns the seconds that are left, rounded up.
pub my_alarm_lem :
    (seconds : ℕ) (former : Time)
    → former.tv_usec < 1000000
    → (former.tv_sec * 1000000 + former.tv_usec ≤ (my_alarm seconds former).1 * 1000000)
      × ((my_alarm seconds former).1 * 1000000 < former.tv_sec * 1000000 + former.tv_usec + 1000000)
unfolding my_alarm
my_alarm_lem seconds former h = (omega arith, omega arith)
