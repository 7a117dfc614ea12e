-- ===== src/Semaphore/Undo.antt =====
-- 47-4-reserverSemNB.c: what the end of a process leaves of its operations.
use tlpi_practice.Common.{
  ℕ, zero, suc, ◌+◌, ◌≡◌, true, List, [], ◌∷◌, arith, if◌then◌else◌, Bool-cases, inl, inr,
}
use tlpi_practice.Semaphore.{
  Sem, Event, signal, released, Flags, reserve_from, reserve_sem, release_sem, Op, reserve,
  reserve_nb, release, call, calls, after, is_waiting, exit_value,
}

-- How many releases by other processes a wait ends with, and those of a row of calls.
unfoldable pub awaited_from : Flags → ℕ → List Event → ℕ
awaited_from f (suc n) es = 0
awaited_from f zero [] = 0
awaited_from f zero (signal ∷ es) =
    let again = awaited_from f zero es in if f.retry then again else 0
awaited_from f zero (released ∷ es) = 1

unfoldable pub awaited_by : Flags → Op → Sem → ℕ
awaited_by f (reserve es) s = awaited_from f s.value es
awaited_by f _ s = 0

unfoldable pub awaited : Flags → List Op → Sem → ℕ
awaited f [] s = 0
awaited f (op ∷ ops) s =
    let rest = awaited f ops (after (call f op s)) in
    awaited_by f op s + (if is_waiting (call f op s) then 0 else rest)

unfoldable pub Blocking : List Op → Type 0
Blocking [] = Unit {0}
Blocking (reserve es ∷ ops) = Blocking ops
Blocking (release ∷ ops) = Blocking ops
Blocking (reserve_nb ∷ ops) = ⊥

-- What is to be undone makes up for the difference to `n`.
abbrev Balanced : ℕ → Sem → Type 0
Balanced n s = s.value + s.give_back ≡ n + s.take_away

reserve_from-Balanced :
    (f : Flags) (k n : ℕ) (es : List Event) (s : Sem)
    → f.undo ≡ true
    → k + s.give_back ≡ n + s.take_away
    → Balanced (n + awaited_from f k es) (after (reserve_from f k es s))
unfolding reserve_from awaited_from after
reserve_from-Balanced f (suc left) n es s u b = rw u (omega arith)
reserve_from-Balanced f zero n [] s u b = omega arith
reserve_from-Balanced f zero n (released ∷ es) s u b = rw u (omega arith)
reserve_from-Balanced f zero n (signal ∷ es) s u b = elim (Bool-cases f.retry) [
  | inl again ↦
      let ih = reserve_from-Balanced f zero n es s u b in rw (reserve_from, awaited_from, again) ih
  | inr no_more ↦ rw (reserve_from, awaited_from, no_more) (omega arith)
]

call-Balanced :
    (f : Flags) (op : Op) (ops : List Op) (n : ℕ) (s : Sem)
    → f.undo ≡ true
    → Blocking (op ∷ ops)
    → Balanced n s
    → Balanced (n + awaited_by f op s) (after (call f op s))
unfolding awaited_by Blocking call reserve_sem release_sem after
call-Balanced f (reserve es) ops n s u h b = reserve_from-Balanced f s.value n es s u b
call-Balanced f release ops n s u h b = rw u (omega arith)
call-Balanced f reserve_nb ops n s u h b = absurd h

Blocking-rest : (op : Op) (ops : List Op) → Blocking (op ∷ ops) → Blocking ops
unfolding Blocking
Blocking-rest (reserve es) ops h = h
Blocking-rest release ops h = h
Blocking-rest reserve_nb ops h = absurd h

calls-Balanced :
    (f : Flags) (ops : List Op) (n : ℕ) (s : Sem)
    → f.undo ≡ true
    → Blocking ops
    → Balanced n s
    → Balanced (n + awaited f ops s) (calls f ops s)
unfolding calls awaited
calls-Balanced f [] n s u h b = omega arith
calls-Balanced f (op ∷ ops) n s u h b =
    let one = call-Balanced f op ops n s u h b in
    elim (Bool-cases (is_waiting (call f op s))) [
      | inl w ↦ rw (calls, awaited, w) (omega (arith, one))
      | inr w ↦
          let ih =
            calls-Balanced f ops (n + awaited_by f op s) (after (call f op s)) u
              (Blocking-rest op ops h) one in
          rw (calls, awaited, w) (omega (arith, ih))
    ]

-- With bsUseSemUndo, the end of a process gives the semaphore the value that it had before the first
-- call, and the releases of other processes that calls have waited for; for any row of calls of
-- `reserveSem` and `releaseSem`, failed ones and a wait at the end included, but without
-- `reserveSemNB`, which does not use SEM_UNDO.
pub calls-exit_value :
    (f : Flags) (ops : List Op) (s : Sem)
    → f.undo ≡ true
    → Blocking ops
    → s.give_back ≡ 0
    → s.take_away ≡ 0
    → exit_value (calls f ops s) ≡ s.value + awaited f ops s
calls-exit_value f ops s u h g t =
    let b : Balanced s.value s = omega (arith, g, t) in
    let e = calls-Balanced f ops s.value s u h b in omega (arith, e)
