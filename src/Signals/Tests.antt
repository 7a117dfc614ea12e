-- ===== src/Signals/Tests.antt =====
-- 22-4-systemV_signal_api.c and 23-1-my_alarm.c for single calls.
use tlpi_practice.Common.{ℕ, ◌≡◌, refl, Bool, true, false, ◌||◌, List, [], ◌∷◌}
use tlpi_practice.Signals.{
  sig_dfl, sig_hold, function, sigemptyset, Process, handler, no_value, sigset, both, can_block,
  sigpause, m_siginterrupt, my_alarm,
}
use tlpi_practice.Signals.Held.{
  Call, set_call, hold_call, relse_call, steps, held, holds, steps-held,
}

abbrev process : Process
process = record {
  mask = λ sig. false;
  actions = λ sig. record { sa_handler = sig_dfl; sa_restart = false; sa_mask = sigemptyset };
}

abbrev valid : ℕ → Bool
valid sig = true

abbrev calls : List Call
calls = set_call 2 sig_hold ∷ hold_call 3 ∷ relse_call 2 ∷ set_call 2 (function 9) ∷ []

steps-held_example :
    (steps valid calls process).mask 2 ≡ (process.mask 2 || both (held calls 2) (can_block 2))
steps-held_example = steps-held valid calls process 2

-- Signal 2 is blocked still, and signal 3, that of `sighold`, is not.
blocked : (steps valid calls process).mask 2 ≡ true
unfolding held holds can_block
blocked = steps-held valid calls process 2

not_blocked : (steps valid calls process).mask 3 ≡ false
unfolding held holds can_block
not_blocked = steps-held valid calls process 3

-- SIGKILL cannot be held.
not_held : (steps valid (set_call 9 sig_hold ∷ []) process).mask 9 ≡ false
unfolding held holds can_block
not_held = steps-held valid (set_call 9 sig_hold ∷ []) process 9

old_handler : (sigset valid 2 (function 9) process).1 ≡ handler sig_dfl
unfolding sigset
old_handler = refl

-- A signal that is held for the first time: the handler that is returned has never been set.
unset_handler : (sigset valid 2 sig_hold process).1 ≡ no_value
unfolding sigset
unset_handler = refl

-- While `sigpause` waits for signal 2, this one is the one that is blocked.
paused : sigpause 2 2 ≡ true
unfolding sigpause can_block
paused = refl

left : (my_alarm 5 (record { tv_sec = 3; tv_usec = 1 })).1 ≡ 4
unfolding my_alarm
left = refl

-- A signal that should interrupt calls makes them restart.
restarts : ((m_siginterrupt valid 2 true process).0.actions 2).sa_restart ≡ true
unfolding m_siginterrupt
restarts = refl
