-- ===== src/Talk/Tests.antt =====
-- The chat programs on small rosters.
use tlpi_practice.Common.{
  ℕ, ◌≡◌, refl, Bool, true, false, some, List, [], ◌∷◌, arith, ◌==◌, if◌then◌else◌,
}
use tlpi_practice.Talk.Message.{ClientMsg, Sent, delivered, interrupted, text_msg}
use tlpi_practice.Talk.Server
use tlpi_practice.Talk.Server.{
  Process, Run, running, exited, Startup, Answers, Received, got, eintr, failure, round, log_in,
  log_out, serve, initial, main, broadcast,
}
use tlpi_practice.Talk.Server.Broadcast.{
  Post, post, Broadcasts, broadcast-Broadcasts, targets, removed,
}
use tlpi_practice.Talk.Server.Traces.{file_after}
use tlpi_practice.Talk.Server.Cleanup.{EndsClean, main-EndsClean}
use tlpi_practice.Talk.Client
use tlpi_practice.Talk.Client.{login, logout}
use tlpi_practice.Talk.Login.{login-logout}

abbrev client : ℕ → ℕ → Server.Client
client pid msgid = record { pid = pid; msgid = msgid }

abbrev roster : List Server.Client
roster = client 7 70 ∷ client 8 80 ∷ client 7 71 ∷ []

abbrev hello : ClientMsg
hello = record { mtype = text_msg; pid = 7; mtext = b'h' ∷ b'i' ∷ 0 ∷ [] }

-- The queue 80 is full.
abbrev answer : ℕ → Sent
answer q = if q == 80 then interrupted else delivered

abbrev startup : Startup
startup = record {
  opens = true;
  registers_clear_file = true;
  queue = some 5;
  registers_clear_msq = true;
  writes = true;
  closes = true;
  catches = λ sig. true;
  allocates = true;
}

abbrev process : Process
process = initial false

abbrev answers : Answers
answers = record { allocates = true; answer = answer; removes = λ q. true }

log_out_runs : log_out 7 roster ≡ client 8 80 ∷ client 7 71 ∷ []
unfolding log_out
log_out_runs = refl

broadcast-Broadcasts_example :
    Broadcasts answer hello 516 roster process
      (broadcast answer (λ q. true) hello 516 roster process)
broadcast-Broadcasts_example = broadcast-Broadcasts answer (λ q. true) hello 516 roster process

-- The kept clients and the calls of one broadcast.
broadcast_sends : Run (List Server.Client) → List Post × List ℕ × List Server.Client
broadcast_sends (running left p) = (targets p.calls, removed p.calls, left)
broadcast_sends (exited calls) = (targets calls, removed calls, [])

broadcast_runs : broadcast_sends (broadcast answer (λ q. true) hello 516 roster process) ≡ (
  post hello 516 70 ∷ post hello 516 80 ∷ post hello 516 71 ∷ [],
  80 ∷ [],
  client 7 70 ∷ client 7 71 ∷ [],
)
unfolding broadcast_sends broadcast targets removed
broadcast_runs = refl

main-EndsClean_example :
    EndsClean (main false startup ((answers, got hello 516) ∷ (answers, failure) ∷ []))
main-EndsClean_example =
    main-EndsClean startup ((answers, got hello 516) ∷ (answers, failure) ∷ []) refl refl

-- If `atexit` fails the known file stays.
still_there : Run (List Server.Client) → Bool
still_there (running left p) = file_after false p.calls
still_there (exited calls) = file_after false calls

main_leaves_file :
    still_there (main false (record startup { registers_clear_file = false }) []) ≡ true
unfolding still_there main file_after
main_leaves_file = refl

-- With EF_DUMPCORE an error leaves the file.
abort_leaves_file : still_there (main true startup ((answers, failure) ∷ [])) ≡ true
unfolding still_there main file_after round
abort_leaves_file = refl

abbrev caller : Client.Process
caller = record {
  pid = 9;
  server_id = 5;
  client_id = 1000;
  is_child = false;
  registered = true;
  calls = [];
}

login-logout_example :
    (round answers (got (login caller (0 ∷ 0 ∷ 0 ∷ 0 ∷ [])) 8) roster process
      ≡ running (client 9 1000 ∷ roster) process)
    × (serve
          ((answers, got (login caller (0 ∷ 0 ∷ 0 ∷ 0 ∷ [])) 8)
            ∷ (answers, got (logout caller []) 4)
            ∷ [])
          roster
          process
        ≡ running roster process)
login-logout_example =
    login-logout caller 0 0 0 0 [] [] answers answers roster process (omega arith) refl
