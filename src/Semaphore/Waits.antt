-- ===== src/Semaphore/Waits.antt =====
-- 47-4-reserverSemNB.c and 47-2-sync_with_sem.c: signals do not change what a wait ends with.
use tlpi_practice.Common.{ℕ, zero, suc, Bool, true, false, List, [], ◌∷◌, if◌then◌else◌}
use tlpi_practice.Semaphore.{Result, done, waits, taken, Sem, Event, signal, released, Flags}

-- The events without the signals.
unfoldable pub releases : List Event → List Event
releases [] = []
releases (signal ∷ es) = releases es
releases (released ∷ es) = released ∷ releases es

-- Whether the semaphore is free, or another process releases it while the call waits.
unfoldable pub comes_free : ℕ → List Event → Bool
comes_free (suc left) es = true
comes_free zero [] = false
comes_free zero (signal ∷ es) = comes_free zero es
comes_free zero (released ∷ es) = true

-- The value behind the call.
abbrev pub left_over : ℕ → ℕ
left_over zero = 0
left_over (suc left) = left

abbrev pub expected : Flags → ℕ → List Event → Sem → Result
expected f n es s =
    if comes_free n es then done (taken f.undo (left_over n) s) else waits (record s { value = 0 })
