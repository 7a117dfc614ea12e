-- ===== src/Talk/Server.antt =====
-- 46-6-talk_server.c. The list behind `header` is a list, the first client first. What the kernel
-- answers is an argument of each step, and the calls made are kept in order.
pub mod Roster
pub mod Broadcast
pub mod Traces
pub mod Cleanup
use tlpi_practice.Common.{
  ℕ, zero, suc, ◌+◌, ◌≡◌, Bool, true, false, Option, none, some, List, map, [], ◌∷◌, ◌++◌, arith,
  ltb, ◌==◌, if◌then◌else◌,
}
use tlpi_practice.Talk.Message.{
  ClientMsg, login_msg, logout_msg, text_msg, get_int, Call, Sent, create_known_file, create_queue,
  alarm, msgsnd, remove_queue, unlink_known_file, write_id, close_file, default_action, raise,
  unblock, complain, delivered, interrupted, failed,
}

-- `struct client`
pub record Client : Type 0 where
  pub pid : ℕ
  pub msgid : ℕ

abbrev pub sigint : ℕ
sigint = 2

abbrev pub sigalrm : ℕ
sigalrm = 14

abbrev pub sigterm : ℕ
sigterm = 15

pub data ExitHandler : Type 0 where
  clear_file clear_msq : ExitHandler

-- Whether EF_DUMPCORE is set and not empty, `serverId`, what `atexit` has registered (the latest
-- first), and the calls made so far.
pub record Process : Type 0 where
  pub dumps_core : Bool
  pub server_id : ℕ
  pub at_exit : List ExitHandler
  pub calls : List Call

pub data Run {ℓ} (A : Type ℓ) : Type ℓ where
  running : A → Process → Run A
  exited : List Call → Run A

abbrev pub Cmd : Type 0 → Type 0
Cmd A = Process → Run A

infixl 5 ◌>>=◌ ◌>>◌
abbrev pub ◌>>=◌ : {A B : Type 0} → Cmd A → (A → Cmd B) → Cmd B
◌>>=◌ m f p = elim (m p) [ running a p' ↦ f a p' | exited calls ↦ exited calls ]

abbrev pub ◌>>◌ : {A B : Type 0} → Cmd A → Cmd B → Cmd B
m >> k = m >>= λ _. k

abbrev pub pure : {A : Type 0} → A → Cmd A
pure = running

abbrev pub call : Call → Cmd (Unit {0})
call c p = running tt (record p { calls = p.calls ++ c ∷ [] })

-- `clear_file` and `clear_msq`
abbrev pub run_handler : ℕ → ExitHandler → Call
run_handler id clear_file = unlink_known_file
run_handler id clear_msq = remove_queue id

-- `errExit` ends in `exit`, which calls the handlers, or with EF_DUMPCORE in `abort`, which does not.
pub err_exit : {A : Type 0} → Cmd A
err_exit p =
    exited (p.calls ++ (if p.dumps_core then [] else map (run_handler p.server_id) p.at_exit))

pub check : Bool → Cmd (Unit {0})
check true = pure tt
check false = err_exit

abbrev at_exit : ExitHandler → Cmd (Unit {0})
at_exit h p = running tt (record p { at_exit = h ∷ p.at_exit })

new_queue : Option ℕ → Cmd (Unit {0})
new_queue none p = err_exit p
new_queue (some id) p =
    running tt (record p { server_id = id; calls = p.calls ++ create_queue id ∷ [] })

-- What the calls before the loop return: whether they succeed, and the queue of `msgget`.
pub record Startup : Type 0 where
  pub opens : Bool
  pub registers_clear_file : Bool
  pub queue : Option ℕ
  pub registers_clear_msq : Bool
  pub writes : Bool
  pub closes : Bool
  pub catches : ℕ → Bool
  pub allocates : Bool

abbrev running_id : Cmd ℕ
running_id p = running p.server_id p

-- `main` up to the second `atexit`.
pub acquire : Startup → Cmd (Unit {0})
unfolding check err_exit new_queue
acquire e = do
  check e.opens
  call create_known_file
  check e.registers_clear_file
  at_exit clear_file
  new_queue e.queue
  check e.registers_clear_msq
  at_exit clear_msq

-- `main` up to the loop.
unfoldable pub start : Startup → Cmd (List Client)
unfolding acquire
start e = do
  acquire e
  check e.writes
  id ← running_id
  call (write_id id)
  check e.closes
  call close_file
  check (e.catches sigterm)
  check (e.catches sigint)
  check (e.catches sigalrm)
  check e.allocates
  pure []

-- `LOGIN_MSG`: the new client is the first; `allocates` is whether `malloc` succeeds.
unfoldable pub log_in : Bool → ClientMsg → List Client → Cmd (List Client)
unfolding check err_exit
log_in allocates msg clients = do
  check allocates
  pure (record { pid = msg.pid; msgid = get_int msg.mtext } ∷ clients)

-- `LOGOUT_MSG`: unlink the first client with the process number of the message.
unfoldable pub log_out : ℕ → List Client → List Client
log_out pid [] = []
log_out pid (c ∷ cs) = if c.pid == pid then cs else c ∷ log_out pid cs

-- `TEXT_MSG`: `answer` is what `msgsnd` returns for a queue, and `removes` whether `msgctl`
-- removes it. A client whose queue is full for two seconds is dropped.
unfoldable pub broadcast : (ℕ → Sent) → (ℕ → Bool) → ClientMsg → ℕ → List Client → Cmd (List Client)
unfolding err_exit
broadcast answer removes msg len [] = pure []
broadcast answer removes msg len (c ∷ cs) =
    let rest = broadcast answer removes msg len cs in
    do
      call (alarm 2)
      call (msgsnd c.msgid msg len)
      elim (answer c.msgid) [
        | delivered ↦ (do call (alarm 0); left ← rest; pure (c ∷ left))
        | interrupted ↦ (do
          call (remove_queue c.msgid)
          if removes c.msgid then pure tt else call (complain c.pid)
          rest)
        | failed ↦ err_exit
      ]

-- What `msgrcv` returns.
pub data Received : Type 0 where
  eintr failure : Received
  got : ClientMsg → ℕ → Received

-- What the calls of one round return.
pub record Answers : Type 0 where
  pub allocates : Bool
  pub answer : ℕ → Sent
  pub removes : ℕ → Bool

-- One round of `while (1)`.
unfoldable pub round : Answers → Received → List Client → Cmd (List Client)
unfolding err_exit
round a eintr clients = pure clients
round a failure clients = err_exit
round a (got msg len) clients =
    if msg.mtype == login_msg
    then log_in a.allocates msg clients
    else if msg.mtype == logout_msg
    then pure (log_out msg.pid clients)
    else if msg.mtype == text_msg
    then broadcast a.answer a.removes msg len clients
    else pure clients

unfoldable pub serve : List (Answers × Received) → List Client → Cmd (List Client)
serve [] clients = pure clients
serve ((a, r) ∷ rounds) clients = do left ← round a r clients; serve rounds left

-- The handler, and the death by the signal that it raises anew; SIGALRM only interrupts a call.
unfoldable pub handler : ℕ → Cmd (Unit {0})
handler sig p =
    if sig == sigalrm
    then running tt p
    else exited (
        p.calls
        ++ remove_queue p.server_id
          ∷ unlink_known_file
          ∷ default_action sig
          ∷ raise sig
          ∷ unblock sig
          ∷ [])

abbrev pub initial : Bool → Process
initial dumps_core = record { dumps_core = dumps_core; server_id = 0; at_exit = []; calls = [] }

-- `dumps_core` is what getenv tells `errExit` of EF_DUMPCORE.
unfoldable pub main : Bool → Startup → List (Answers × Received) → Run (List Client)
unfolding start serve
main dumps_core e rounds = (do clients ← start e; serve rounds clients) (initial dumps_core)
