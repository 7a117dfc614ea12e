-- ===== src/Talk/Client.antt =====
-- 46-6-talk_client.c. After the fork the child prints what comes and the parent sends what is typed.
use tlpi_practice.Common.{
  ℕ, ◌+◌, Bool, true, false, Option, none, some, List, [], ◌∷◌, ◌++◌, ◌==◌, if◌then◌else◌,
}
use tlpi_practice.Common.Disk.{Bytes, overlay}
use tlpi_practice.Talk.Message.{
  ClientMsg, login_msg, logout_msg, text_msg, cli_len, put_int, Call, Sent, alarm, msgsnd,
  create_queue, remove_queue, close_file, default_action, raise, unblock, complain, print_text,
  delivered, interrupted, failed,
}
use tlpi_practice.Talk.Server.{Received, eintr, failure, got, sigint, sigalrm, sigterm}

-- The statics, whether `atexit` has registered `clear_msq`, and the calls made so far. `pid` is
-- what `getpid` returns.
pub record Process : Type 0 where
  pub pid : ℕ
  pub server_id : ℕ
  pub client_id : ℕ
  pub is_child : Bool
  pub registered : Bool
  pub calls : List Call

pub data Run {ℓ} (A : Type ℓ) : Type ℓ where
  running : A → Process → Run A
  exited : List Call → Run A

abbrev pub Cmd : Type 0 → Type 0
Cmd A = Process → Run A

infixl 5 ◌>>=◌ ◌>>◌
abbrev pub ◌>>=◌ : {A B : Type 0} → Cmd A → (A → Cmd B) → Cmd B
◌>>=◌ m f p = elim (m p) [ running a p' ↦ f a p' | exited calls ↦ exited calls ]

abbrev pub ◌>>◌ : {A B : Type 0} → Cmd A → Cmd B → Cmd B
m >> k = m >>= λ _. k

abbrev pub pure : {A : Type 0} → A → Cmd A
pure = running

abbrev pub call : Call → Cmd (Unit {0})
call c p = running tt (record p { calls = p.calls ++ c ∷ [] })

-- `clear_msq`
abbrev clear_msq : Process → List Call
clear_msq p = if p.is_child then [] else remove_queue p.client_id ∷ []

-- `errExit` and `fatal` end in `exit`.
-- EF_DUMPCORE is taken as not set here.
pub err_exit : {A : Type 0} → Cmd A
err_exit p = exited (p.calls ++ (if p.registered then clear_msq p else []))

pub check : Bool → Cmd (Unit {0})
check true = pure tt
check false = err_exit

-- What `msgsnd` has returned to a sender that waits two seconds.
pub sent_in_time : Sent → Cmd (Unit {0})
unfolding err_exit
sent_in_time delivered = call (alarm 0)
sent_in_time interrupted = err_exit
sent_in_time failed = err_exit

-- The login message; `mtext` is what the local variable held.
unfoldable pub login : Process → Bytes → ClientMsg
login p mtext = record { mtype = login_msg; pid = p.pid; mtext = put_int p.client_id mtext }

-- The message of `handler` and of `log_out`.
unfoldable pub logout : Process → Bytes → ClientMsg
logout p mtext = record { mtype = logout_msg; pid = p.pid; mtext = mtext }

pub record Startup : Type 0 where
  pub opens : Bool
  pub server_id : Option ℕ
  pub queue : Option ℕ
  pub registers : Bool
  pub closes : Bool
  pub catches : ℕ → Bool
  pub logs_in : Sent

read_id : Option ℕ → Cmd (Unit {0})
unfolding err_exit
read_id none p = err_exit p
read_id (some id) p = running tt (record p { server_id = id })

new_queue : Option ℕ → Cmd (Unit {0})
unfolding err_exit
new_queue none p = err_exit p
new_queue (some id) p =
    running tt (record p { client_id = id; calls = p.calls ++ create_queue id ∷ [] })

abbrev register : Cmd (Unit {0})
register p = running tt (record p { registered = true })

abbrev send_login : Bytes → Cmd ClientMsg
send_login mtext p =
    let msg = login p mtext in
    running msg (record p { calls = p.calls ++ msgsnd p.server_id msg (4 + 4) ∷ [] })

-- `main` up to the fork.
unfoldable pub start : Startup → Bytes → Cmd ClientMsg
unfolding check err_exit read_id new_queue sent_in_time
start e mtext = do
  check e.opens
  read_id e.server_id
  new_queue e.queue
  check e.registers
  register
  check e.closes
  call close_file
  check (e.catches sigterm)
  check (e.catches sigint)
  check (e.catches sigalrm)
  call (alarm 2)
  msg ← send_login mtext
  sent_in_time e.logs_in
  pure msg

abbrev show : ClientMsg → Cmd (Unit {0})
show msg = call (print_text msg.pid msg.mtext)

-- One round of the child: when no message has come in five minutes it says so, and prints the
-- last one again.
unfoldable pub child_round : Received → ClientMsg → Cmd ClientMsg
unfolding err_exit
child_round eintr msg = do call (alarm 300); call (alarm 0); call (complain 0); show msg; pure msg
child_round failure msg = do call (alarm 300); call (alarm 0); err_exit
child_round (got msg' len) msg = do call (alarm 300); call (alarm 0); show msg'; pure msg'

-- `fgets (msg.mtext, 512, stdin)`; at the end of the input it leaves the text as it was.
abbrev read_line : Option Bytes → Bytes → Bytes
read_line none mtext = mtext
read_line (some line) mtext = overlay mtext 0 (line ++ 0 ∷ [])

abbrev send_text : ClientMsg → Cmd (Unit {0})
send_text msg p = running tt (record p { calls = p.calls ++ msgsnd p.server_id msg cli_len ∷ [] })

-- One round of the parent.
unfoldable pub parent_round : Option Bytes → Sent → ClientMsg → Cmd ClientMsg
unfolding sent_in_time
parent_round line answer msg = do
  let msg' = record msg { mtext = read_line line msg.mtext }
  call (alarm 2)
  send_text msg'
  sent_in_time answer
  pure msg'

child_loop : List Received → ClientMsg → Cmd ClientMsg
child_loop [] msg = pure msg
child_loop (r ∷ rs) msg = do msg' ← child_round r msg; child_loop rs msg'

parent_loop : List (Option Bytes × Sent) → ClientMsg → Cmd ClientMsg
parent_loop [] msg = pure msg
parent_loop ((line, answer) ∷ rs) msg = do msg' ← parent_round line answer msg; parent_loop rs msg'

-- What `fork` returns.
pub data Fork : Type 0 where
  no_process in_child in_parent : Fork

abbrev become_child : Cmd (Unit {0})
become_child p = running tt (record p { is_child = true })

-- `main`, with what the child receives or what the parent is typed.
unfoldable pub main :
    Startup → Bytes → Fork → List Received → List (Option Bytes × Sent) → Cmd ClientMsg
unfolding start err_exit child_loop child_round parent_loop parent_round
main e mtext fork received typed = do
  msg ← start e mtext
  elim fork [
    | no_process ↦ err_exit
    | in_child ↦ (do become_child; child_loop received msg)
    | in_parent ↦ parent_loop typed (record msg { mtype = text_msg })
  ]

-- `log_out`, which nothing calls.
unfoldable pub log_out : Bytes → Cmd (Unit {0})
log_out mtext p =
    if p.is_child
    then running tt p
    else running tt (record p {
      calls = p.calls ++ alarm 2 ∷ msgsnd p.server_id (logout p mtext) 4 ∷ alarm 0 ∷ [];
    })

-- The handler; the parent removes its queue and logs out before the signal ends it.
unfoldable pub handler : ℕ → Bytes → Cmd (Unit {0})
handler sig mtext p =
    let leave =
      remove_queue p.client_id ∷ alarm 2 ∷ msgsnd p.server_id (logout p mtext) 4 ∷ alarm 0 ∷ [] in
    if sig == sigalrm
    then running tt p
    else exited (
        p.calls
        ++ ((if p.is_child then [] else leave)
            ++ default_action sig ∷ raise sig ∷ unblock sig ∷ []))
