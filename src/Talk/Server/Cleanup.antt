-- ===== src/Talk/Server/Cleanup.antt =====
-- What the talk server leaves behind when it ends: its file, and its queue.
use tlpi_practice.Common.{
  ℕ, ◌≡◌, refl, ◌∙◌, Bool, true, false, inl, inr, List, map, [], ◌∷◌, ◌++◌, arith, ◌==◌, Bool-cases,
  if◌then◌else◌, Option-cases,
}
use tlpi_practice.Talk.Message.{
  ClientMsg, login_msg, logout_msg, text_msg, Call, Sent, alarm, msgsnd, remove_queue,
  unlink_known_file, write_id, close_file, default_action, raise, unblock, complain,
}
use tlpi_practice.Talk.Server.Broadcast.{Sent-cases}
use tlpi_practice.Talk.Server.{
  Client, Process, Run, Cmd, acquire, check, err_exit, running, exited, broadcast, run_handler,
  clear_msq, clear_file, ◌>>=◌, Startup, Answers, Received, eintr, failure, got, start, serve,
  round, main, initial, log_in, handler, sigalrm, sigint, sigterm,
}
use tlpi_practice.Talk.Server.Traces.{
  file_after, queue_after, file_after-append, queue_after-append, IsClean, IsHarmless,
  nothing-IsHarmless,
}

-- In the loop: both handlers are registered, and the server's only queue is `serverId`.
record Serving (p : Process) : Type 0 where
  no_dump : p.dumps_core ≡ false
  handlers : p.at_exit ≡ clear_msq ∷ clear_file ∷ []
  only : (q : ℕ) → (p.server_id == q) ≡ false → queue_after q false p.calls ≡ false

abbrev Tidy {ℓ} : {A : Type ℓ} → Run A → Type 0
Tidy (running a p) = Serving p
Tidy (exited calls) = IsClean calls

Tidy-bind :
    {A B : Type 0} (m : Cmd A) (k : A → Cmd B) (p : Process)
    → Tidy (m p)
    → ((a : A) (q : Process) → Serving q → Tidy (k a q))
    → Tidy ((m >>= k) p)
Tidy-bind m k p t next = go (m p) t
  where
    go : (r : Run _) → Tidy r → Tidy (elim r [ running a q ↦ k a q | exited calls ↦ exited calls ])
    go (running a q) s = next a q s
    go (exited calls) c = c

-- The last two calls clean up, whatever came before.
IsClean-end :
    (p : Process) (more : List Call)
    → ((q : ℕ) → (p.server_id == q) ≡ false → queue_after q false p.calls ≡ false)
    → IsHarmless more
    → IsClean (p.calls ++ remove_queue p.server_id ∷ unlink_known_file ∷ more)
IsClean-end p more only harmless = record {
  no_file = file_after-append p.calls _ false ∙ unfold file_after in harmless.files false;
  no_queue = λ q. rw queue_after-append (elim (Bool-cases (p.server_id == q)) [
    | inl own ↦ unfold queue_after in rw own (harmless.queues q)
    | inr other ↦ unfold queue_after in rw (other, only q other) (harmless.queues q)
  ]);
}

err_exit-IsClean :
    (p : Process)
    → Serving p
    → IsClean (p.calls ++ (if p.dumps_core then [] else map (run_handler p.server_id) p.at_exit))
err_exit-IsClean p s = rw (s.no_dump, s.handlers) (IsClean-end p [] s.only nothing-IsHarmless)

call-Serving :
    (p : Process) (c : Call)
    → Serving p
    → ((q : ℕ) → queue_after q false (c ∷ []) ≡ false)
    → Serving (record p { calls = p.calls ++ c ∷ [] })
call-Serving p c s harmless = record {
  no_dump = s.no_dump;
  handlers = s.handlers;
  only = λ q other. queue_after-append q p.calls (c ∷ []) false ∙ rw (s.only q other) (harmless q);
}

check-Tidy : (b : Bool) (p : Process) → Serving p → Tidy (check b p)
unfolding check err_exit
check-Tidy true p s = s
check-Tidy false p s = err_exit-IsClean p s

log_in-Tidy :
    (b : Bool) (msg : ClientMsg) (cs : List Client) (p : Process)
    → Serving p
    → Tidy (log_in b msg cs p)
unfolding log_in
log_in-Tidy true msg cs p s = s
log_in-Tidy false msg cs p s = err_exit-IsClean p s

remove_queue-IsHarmless : (id q : ℕ) → queue_after q false (remove_queue id ∷ []) ≡ false
unfolding queue_after
remove_queue-IsHarmless id q = ground arith

broadcast-Tidy :
    (answer : ℕ → Sent) (removes : ℕ → Bool) (msg : ClientMsg) (len : ℕ) (cs : List Client)
    (p : Process)
    → Serving p
    → Tidy (broadcast answer removes msg len cs p)
unfolding broadcast
broadcast-Tidy answer removes msg len [] p s = s
broadcast-Tidy answer removes msg len (c ∷ cs) p s =
    let s₁ = call-Serving p (alarm 2) s (λ q. unfold queue_after in refl) in
    let s₂ = call-Serving _ (msgsnd c.msgid msg len) s₁ (λ q. unfold queue_after in refl) in
    let rest = λ (p' : Process) (s' : Serving p'). broadcast-Tidy answer removes msg len cs p' s' in
    elim (Sent-cases (answer c.msgid)) [
      | inl e ↦
          let s₃ = call-Serving _ (alarm 0) s₂ (λ q. unfold queue_after in refl) in
          rw e (
            Tidy-bind (broadcast answer removes msg len cs) (λ left p'. running (c ∷ left) p') _
              (rest _ s₃) (λ left p' s'. s'))
      | inr (inl e) ↦
          let s₃ = call-Serving _ (remove_queue c.msgid) s₂ (remove_queue-IsHarmless c.msgid) in
          elim (Bool-cases (removes c.msgid)) [
            | inl quiet ↦ rw (e, quiet) (rest _ s₃)
            | inr noisy ↦
                rw (e, noisy)
                  (rest _ (call-Serving _ (complain c.pid) s₃ (λ q. unfold queue_after in refl)))
          ]
      | inr (inr e) ↦ rw e (unfold err_exit in err_exit-IsClean _ s₂)
    ]

round-Tidy :
    (a : Answers) (r : Received) (cs : List Client) (p : Process)
    → Serving p
    → Tidy (round a r cs p)
unfolding round
round-Tidy a eintr cs p s = s
round-Tidy a failure cs p s = err_exit-IsClean p s
round-Tidy a (got msg len) cs p s = elim (Bool-cases (msg.mtype == login_msg)) [
  | inl h ↦ rw h (log_in-Tidy a.allocates msg cs p s)
  | inr h ↦ elim (Bool-cases (msg.mtype == logout_msg)) [
    | inl h' ↦ rw (h, h') s
    | inr h' ↦ elim (Bool-cases (msg.mtype == text_msg)) [
      | inl h'' ↦ rw (h, h', h'') (broadcast-Tidy a.answer a.removes msg len cs p s)
      | inr h'' ↦ rw (h, h', h'') s
    ]
  ]
]

serve-Tidy :
    (rounds : List (Answers × Received)) (cs : List Client) (p : Process)
    → Serving p
    → Tidy (serve rounds cs p)
unfolding serve
serve-Tidy [] cs p s = s
serve-Tidy ((a, r) ∷ rounds) cs p s =
    Tidy-bind (round a r cs) (serve rounds) p (round-Tidy a r cs p s) (serve-Tidy rounds)

acquire-Tidy :
    (e : Startup)
    → e.registers_clear_file ≡ true
    → e.registers_clear_msq ≡ true
    → Tidy (acquire e (initial false))
unfolding acquire
acquire-Tidy e h h' = elim (Bool-cases e.opens) [
  | inl opened ↦ elim (Option-cases e.queue) [
    | inl missing ↦
        rw (opened, h, missing)
          (record {
            no_file = unfold file_after in refl;
            no_queue = λ q. unfold queue_after in refl;
          })
    | inr (id, made) ↦
        rw (opened, h, made, h')
          (record {
            no_dump = refl;
            handlers = refl;
            only = λ q other. unfold queue_after in rw other;
          })
  ]
  | inr closed ↦
      rw closed
        (record { no_file = unfold file_after in refl; no_queue = λ q. unfold queue_after in refl })
]

start-Tidy :
    (e : Startup)
    → e.registers_clear_file ≡ true
    → e.registers_clear_msq ≡ true
    → Tidy (start e (initial false))
unfolding start
start-Tidy e h h' = Tidy-bind (acquire e) _ (initial false) (acquire-Tidy e h h') λ _ p s.
    Tidy-bind (check e.writes) _ p (check-Tidy e.writes p s) λ _ p s.
      let s = call-Serving p (write_id p.server_id) s (λ q. unfold queue_after in refl) in
      Tidy-bind (check e.closes) _ _ (check-Tidy e.closes _ s) λ _ p s.
        let s = call-Serving p close_file s (λ q. unfold queue_after in refl) in
        Tidy-bind (check (e.catches sigterm)) _ _ (check-Tidy (e.catches sigterm) _ s) λ _ p s.
          Tidy-bind (check (e.catches sigint)) _ p (check-Tidy (e.catches sigint) p s) λ _ p s.
            Tidy-bind (check (e.catches sigalrm)) _ p (check-Tidy (e.catches sigalrm) p s)
              λ _ p s. Tidy-bind (check e.allocates) _ p (check-Tidy e.allocates p s) λ _ p s. s

-- The run has ended, and the calls it made left nothing behind.
abbrev pub EndedClean {ℓ} : {A : Type ℓ} → Run A → Type 0
EndedClean (running a p) = ⊥
EndedClean (exited calls) = IsClean calls

handler-Tidy :
    (sig : ℕ) (p : Process) → Serving p → (sig == sigalrm) ≡ false → EndedClean (handler sig p)
unfolding handler
handler-Tidy sig p s other = rw other (
    IsClean-end p (default_action sig ∷ raise sig ∷ unblock sig ∷ []) s.only
      (record { queues = λ q. unfold queue_after in refl; files = λ b. unfold file_after in refl }))

-- It has ended so, or the handler of any signal but SIGALRM ends it so.
abbrev pub EndsClean : Run (List Client) → Type 0
EndsClean (running cs p) = (sig : ℕ) → (sig == sigalrm) ≡ false → EndedClean (handler sig p)
EndsClean (exited calls) = IsClean calls

EndsClean-of_Tidy : (r : Run (List Client)) → Tidy r → EndsClean r
EndsClean-of_Tidy (running cs p) s = λ sig other. handler-Tidy sig p s other
EndsClean-of_Tidy (exited calls) c = c

-- However the server ends, by an error in the calls before the loop or in a round, or by the handler
-- of a signal after any number of rounds, neither the known file nor a queue that it made is left;
-- provided that its two calls of `atexit` do not fail, and that EF_DUMPCORE is not set or empty.
pub main-EndsClean :
    (e : Startup) (rounds : List (Answers × Received))
    → e.registers_clear_file ≡ true
    → e.registers_clear_msq ≡ true
    → EndsClean (main false e rounds)
unfolding main
main-EndsClean e rounds h h' =
    EndsClean-of_Tidy _
      (Tidy-bind (start e) (serve rounds) (initial false) (start-Tidy e h h') (serve-Tidy rounds))
