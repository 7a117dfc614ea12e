-- ===== src/Talk/Server/Broadcast.antt =====
-- Which calls the talk server makes for one text message.
use tlpi_practice.Common.{
  ℕ, ◌≡◌, refl, sym, ap, ◌∙◌, Bool, true, false, ◌⊎◌, inl, inr, List, map, [], ◌∷◌, ◌++◌,
  Bool-cases, if◌then◌else◌,
}
use mathlib.Core.List.{append_assoc, append-nil}
use tlpi_practice.Talk.Message.{
  ClientMsg, Call, Sent, alarm, msgsnd, remove_queue, complain, delivered, interrupted, failed,
}
use tlpi_practice.Talk.Server.{
  Client, Process, Run, err_exit, running, exited, broadcast, run_handler, ExitHandler, clear_msq,
  clear_file,
}

-- A send: the queue, the message, and its length.
pub record Post : Type 0 where
  pub to : ℕ
  pub msg : ClientMsg
  pub len : ℕ

abbrev pub post : ClientMsg → ℕ → ℕ → Post
post msg len id = record { to = id; msg = msg; len = len }

-- The sends, and the queues that were removed.
unfoldable pub targets : List Call → List Post
targets [] = []
targets (msgsnd id msg len ∷ cs) = post msg len id ∷ targets cs
targets (_ ∷ cs) = targets cs

unfoldable pub removed : List Call → List ℕ
removed [] = []
removed (remove_queue id ∷ cs) = id ∷ removed cs
removed (_ ∷ cs) = removed cs

targets-append : (xs ys : List Call) → targets (xs ++ ys) ≡ targets xs ++ targets ys
unfolding targets
targets-append [] ys = refl
targets-append (msgsnd id msg len ∷ xs) ys = ap (◌∷◌ (post msg len id)) (targets-append xs ys)
targets-append (_ ∷ xs) ys = targets-append xs ys

removed-append : (xs ys : List Call) → removed (xs ++ ys) ≡ removed xs ++ removed ys
unfolding removed
removed-append [] ys = refl
removed-append (remove_queue id ∷ xs) ys = ap (◌∷◌ id) (removed-append xs ys)
removed-append (_ ∷ xs) ys = removed-append xs ys

targets_run : (id : ℕ) (hs : List ExitHandler) → targets (map (run_handler id) hs) ≡ []
unfolding targets
targets_run id [] = refl
targets_run id (clear_file ∷ hs) = targets_run id hs
targets_run id (clear_msq ∷ hs) = targets_run id hs

targets_handlers :
    (dumps : Bool) (id : ℕ) (hs : List ExitHandler)
    → targets (if dumps then [] else map (run_handler id) hs) ≡ []
targets_handlers true id hs = unfold targets in refl
targets_handlers false id hs = targets_run id hs

extend {ℓ} :
    {A : Type ℓ} {a b : List A} (d xs ys : List A) → b ≡ d ++ xs → a ≡ b ++ ys → a ≡ d ++ (xs ++ ys)
extend d xs ys e f = f ∙ ap (λ l. l ++ ys) e ∙ append_assoc d xs ys

pub Sent-cases : (s : Sent) → (s ≡ delivered) ⊎ (s ≡ interrupted) ⊎ (s ≡ failed)
Sent-cases delivered = inl refl
Sent-cases interrupted = inr (inl refl)
Sent-cases failed = inr (inr refl)

module _ (answer : ℕ → Sent) where
  -- Each client's part of the roster that stays, of the queues that go, and of the sends that are
  -- tried, up to the first that fails for good.
  abbrev pub keep_one : Sent → Client → List Client → List Client
  keep_one delivered c cs = c ∷ cs
  keep_one _ c cs = cs

  unfoldable pub kept : List Client → List Client
  kept [] = []
  kept (c ∷ cs) = keep_one (answer c.msgid) c (kept cs)

  abbrev pub drop_one : Sent → ℕ → List ℕ → List ℕ
  drop_one interrupted id ids = id ∷ ids
  drop_one _ id ids = ids

  unfoldable pub dropped : List Client → List ℕ
  dropped [] = []
  dropped (c ∷ cs) = drop_one (answer c.msgid) c.msgid (dropped cs)

  abbrev pub try_one : Sent → List ℕ → List ℕ
  try_one failed ids = []
  try_one _ ids = ids

  unfoldable pub tried : List Client → List ℕ
  tried [] = []
  tried (c ∷ cs) = c.msgid ∷ try_one (answer c.msgid) (tried cs)

  abbrev pub fails_one : Sent → Bool → Bool
  fails_one failed later = true
  fails_one _ later = later

  unfoldable pub fails : List Client → Bool
  fails [] = false
  fails (c ∷ cs) = fails_one (answer c.msgid) (fails cs)

  -- How a broadcast from process state `p` ends.
  abbrev pub Broadcasts : ClientMsg → ℕ → List Client → Process → Run (List Client) → Type 0
  Broadcasts msg len cs p (running left p') =
      (fails cs ≡ false)
      × (left ≡ kept cs)
      × (targets p'.calls ≡ targets p.calls ++ map (λ c. post msg len c.msgid) cs)
      × (removed p'.calls ≡ removed p.calls ++ dropped cs)
  Broadcasts msg len cs p (exited calls) =
      (fails cs ≡ true) × (targets calls ≡ targets p.calls ++ map (post msg len) (tried cs))

  -- The calls for client `c` took the process from `p` to `p'`, and removed the queues `ids`.
  record Turn (msg : ClientMsg) (len : ℕ) (c : Client) (ids : List ℕ) (p p' : Process)
      : Type 0 where
    sent : targets p'.calls ≡ targets p.calls ++ post msg len c.msgid ∷ []
    gone : removed p'.calls ≡ removed p.calls ++ ids

  Turn-delivered :
      (c : Client) (msg : ClientMsg) (len : ℕ) (p : Process)
      → Turn msg len c [] p (record p {
        calls = ((p.calls ++ alarm 2 ∷ []) ++ msgsnd c.msgid msg len ∷ []) ++ alarm 0 ∷ [];
      })
  unfolding targets removed
  Turn-delivered c msg len p = record {
    sent = simp (targets-append, append_assoc);
    gone = simp (removed-append, append_assoc);
  }

  Turn-removed :
      (c : Client) (msg : ClientMsg) (len : ℕ) (p : Process)
      → Turn msg len c (c.msgid ∷ []) p (record p {
        calls =
            ((p.calls ++ alarm 2 ∷ []) ++ msgsnd c.msgid msg len ∷ []) ++ remove_queue c.msgid ∷ [];
      })
  unfolding targets removed
  Turn-removed c msg len p = record {
    sent = simp (targets-append, append_assoc);
    gone = simp (removed-append, append_assoc);
  }

  Turn-complained :
      (c : Client) (msg : ClientMsg) (len : ℕ) (p : Process)
      → Turn msg len c (c.msgid ∷ []) p (record p {
        calls =
            (((p.calls ++ alarm 2 ∷ []) ++ msgsnd c.msgid msg len ∷ [])
              ++ remove_queue c.msgid ∷ [])
            ++ complain c.pid ∷ [];
      })
  unfolding targets removed
  Turn-complained c msg len p = record {
    sent = simp (targets-append, append_assoc);
    gone = simp (removed-append, append_assoc);
  }

  after_failed :
      (c : Client) (cs : List Client) (p : Process) (msg : ClientMsg) (len : ℕ)
      → answer c.msgid ≡ failed
      → Broadcasts msg len
          (c ∷ cs)
          p
          (err_exit (record p { calls = (p.calls ++ alarm 2 ∷ []) ++ msgsnd c.msgid msg len ∷ [] }))
  unfolding fails tried targets err_exit
  after_failed c cs p msg len e =
      (rw e refl, rw e (simp (targets-append, append_assoc, targets_handlers)))

  after_delivered :
      (msg : ClientMsg) (len : ℕ) (c : Client) (cs : List Client) (p p' : Process)
      (r : Run (List Client))
      → answer c.msgid ≡ delivered
      → Turn msg len c [] p p'
      → Broadcasts msg len cs p' r
      → Broadcasts msg len
          (c ∷ cs)
          p
          (elim r [ running left q ↦ running (c ∷ left) q | exited calls ↦ exited calls ])
  unfolding kept dropped tried fails
  after_delivered msg len c cs p p' (running left q) e t (a, b, sent, gone) = (
    rw e a,
    rw e (ap (◌∷◌ c) b),
    extend _ (post msg len c.msgid ∷ []) _ t.sent sent,
    rw e (extend _ [] _ t.gone gone),
  )
  after_delivered msg len c cs p p' (exited calls) e t (a, sent) =
      (rw e a, rw e (extend _ (post msg len c.msgid ∷ []) _ t.sent sent))

  after_interrupted :
      (msg : ClientMsg) (len : ℕ) (c : Client) (cs : List Client) (p p' : Process)
      (r : Run (List Client))
      → answer c.msgid ≡ interrupted
      → Turn msg len c (c.msgid ∷ []) p p'
      → Broadcasts msg len cs p' r
      → Broadcasts msg len (c ∷ cs) p r
  unfolding kept dropped tried fails
  after_interrupted msg len c cs p p' (running left q) e t (a, b, sent, gone) = (
    rw e a,
    rw e b,
    extend _ (post msg len c.msgid ∷ []) _ t.sent sent,
    rw e (extend _ (c.msgid ∷ []) _ t.gone gone),
  )
  after_interrupted msg len c cs p p' (exited calls) e t (a, sent) =
      (rw e a, rw e (extend _ (post msg len c.msgid ∷ []) _ t.sent sent))

  -- The message that the server has got is sent on, with its length, once to each client, in the order
  -- of the list. Clients that do not take
  -- it in time lose their queue and are dropped, the others stay in order; but a send that fails
  -- for another reason ends the server, with nothing sent to the clients behind.
  pub broadcast-Broadcasts :
      (removes : ℕ → Bool) (msg : ClientMsg) (len : ℕ) (cs : List Client) (p : Process)
      → Broadcasts msg len cs p (broadcast answer removes msg len cs p)
  unfolding broadcast
  broadcast-Broadcasts removes msg len [] p =
      unfold fails kept dropped in (refl, refl, sym (append-nil _), sym (append-nil _))
  broadcast-Broadcasts removes msg len (c ∷ cs) p = elim (Sent-cases (answer c.msgid)) [
    | inl e ↦ rw e (
        after_delivered msg len c cs p _ _ e (Turn-delivered c msg len p)
          (broadcast-Broadcasts removes msg len cs _))
    | inr (inl e) ↦ elim (Bool-cases (removes c.msgid)) [
      | inl quiet ↦
          rw (e, quiet)
            (after_interrupted msg len c cs p _ _ e (Turn-removed c msg len p)
              (broadcast-Broadcasts removes msg len cs _))
      | inr noisy ↦
          rw (e, noisy)
            (after_interrupted msg len c cs p _ _ e (Turn-complained c msg len p)
              (broadcast-Broadcasts removes msg len cs _))
    ]
    | inr (inr e) ↦ rw e (after_failed c cs p msg len e)
  ]
