-- ===== src/Signals.antt =====
-- 22-4-systemV_signal_api.c, 20-4-my_siginterrupt.c and 23-1-my_alarm.c: the System V interface to
-- signals and `siginterrupt` over `sigaction` and `sigprocmask`, and `alarm` over `setitimer`.
mod Held
mod Tests
use tlpi_practice.Common.{
  ℕ, zero, suc, ◌+◌, ◌*◌, ◌/◌, Bool, true, false, ◌||◌, not, Option, none, some, List, [], ◌∷◌,
  ◌==◌, ltb, if◌then◌else◌,
}
use tlpi_practice.Common.Threads.{put}

pub data Handler : Type 0 where
  sig_dfl sig_ign sig_hold : Handler
  function : ℕ → Handler

abbrev pub is_hold : Handler → Bool
is_hold sig_hold = true
is_hold _ = false

abbrev pub SigSet : Type 0
SigSet = ℕ → Bool

abbrev pub sigemptyset : SigSet
sigemptyset sig = false

abbrev pub sigfillset : SigSet
sigfillset sig = true

abbrev pub sigaddset : SigSet → ℕ → SigSet
sigaddset set sig = put set sig true

-- What a signal does: its handler, whether calls that it interrupts are restarted, and what is
-- blocked meanwhile.
pub record Sigaction : Type 0 where
  pub sa_handler : Handler
  pub sa_restart : Bool
  pub sa_mask : SigSet

-- The signals of a process: those that it blocks, and what they do.
pub record Process : Type 0 where
  pub mask : SigSet
  pub actions : ℕ → Sigaction

abbrev pub both : Bool → Bool → Bool
both true b = b
both false b = false

abbrev pub sigkill : ℕ
sigkill = 9

abbrev pub sigstop : ℕ
sigstop = 19

-- The numbers that sigaddset takes (32 and 33 are the library's own), but for SIGKILL and SIGSTOP,
-- which sigprocmask passes over without an error.
unfoldable pub can_block : ℕ → Bool
can_block sig = both (ltb 0 sig) (
    both (ltb sig 65)
      (not ((sig == sigkill) || ((sig == sigstop) || ((sig == 32) || (sig == 33))))))

-- SIG_BLOCK and SIG_UNBLOCK.
unfoldable pub block : SigSet → Process → Process
unfolding can_block
block set p = record p { mask = λ sig. p.mask sig || both (set sig) (can_block sig) }

abbrev pub unblock : SigSet → Process → Process
unblock set p = record p { mask = λ sig. both (p.mask sig) (not (set sig)) }

-- What `sigset` returns: SIG_ERR, SIG_HOLD, a handler, or a variable without a value.
pub data Returned : Type 0 where
  sig_err : Returned
  handler : Handler → Returned
  no_value : Returned

-- `valid` is whether sigaction takes the signal and the handler.
unfoldable pub sigset : (ℕ → Bool) → ℕ → Handler → Process → Process × Returned
unfolding block
sigset valid sig h p =
    let old = p.mask sig in
    let sa : Sigaction = record { sa_handler = h; sa_restart = true; sa_mask = sigemptyset } in
    if is_hold h
    then (block (sigaddset sigemptyset sig) p, if old then handler sig_hold else no_value)
    else if valid sig
    then (
      record p { actions = put p.actions sig sa },
      if old then handler sig_hold else handler (p.actions sig).sa_handler,
    )
    else (p, sig_err)

unfoldable pub sighold : ℕ → Process → Process
unfolding block
sighold sig p = block sigemptyset p

unfoldable pub sigrelse : ℕ → Process → Process
sigrelse sig p = unblock sigemptyset p

unfoldable pub sigignore : (ℕ → Bool) → ℕ → Process → Process
sigignore valid sig p =
    let sa : Sigaction = record {
      sa_handler = sig_ign;
      sa_restart = false;
      sa_mask = sigfillset;
    } in
    if valid sig then record p { actions = put p.actions sig sa } else p

-- The signals that are blocked while `sigpause` waits.
unfoldable pub sigpause : ℕ → SigSet
unfolding can_block
sigpause sig other = both (sigaddset sigemptyset sig other) (can_block other)

-- What is left of the timer, in seconds and microseconds.
pub record Time : Type 0 where
  pub tv_sec : ℕ
  pub tv_usec : ℕ

-- The new timer, and what is returned of the former one.
unfoldable pub my_alarm : ℕ → Time → Time × ℕ
my_alarm seconds former =
    (record { tv_sec = seconds; tv_usec = 0 }, former.tv_sec + (former.tv_usec + 999999) / 1000000)

-- 20-4-my_siginterrupt.c: whether 0 is returned, and the process.
unfoldable pub m_siginterrupt : (ℕ → Bool) → ℕ → Bool → Process → Process × Bool
m_siginterrupt valid sig flag p =
    let act : Sigaction = record (p.actions sig) { sa_restart = flag } in
    if valid sig then (record p { actions = put p.actions sig act }, true) else (p, false)
