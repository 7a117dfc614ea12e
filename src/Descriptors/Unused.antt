-- ===== src/Descriptors/Unused.antt =====
-- 47-6-binary_sem_fifo.c: which descriptor the semaphore uses.
use tlpi_practice.Common.{
  ℕ, ◌≡◌, refl, Bool, true, false, Option, none, some, List, [], ◌∷◌, ◌==◌, if◌then◌else◌,
}
use tlpi_practice.Descriptors.Fifo.{
  BinSem, Call, read_one, write_one, Read, got, eintr, error, Done, done, init_avail, init_used,
  reserve_sem,
}

abbrev pub used : Call → Option ℕ
used (read_one fd) = fd
used (write_one fd) = fd

unfoldable pub AllUse : Option ℕ → List Call → Type 0
AllUse fd [] = Unit {0}
AllUse fd (c ∷ cs) = (used c ≡ fd) × AllUse fd cs

unfoldable pub Ends : Option ℕ → Option Done → Type 0
Ends fd none = Unit {0}
Ends fd (some d) = (d.sem.fifo ≡ fd) × AllUse fd d.calls

reserve_sem-again :
    (sem : BinSem) (o : Option Done)
    → Ends sem.fifo o
    → Ends sem.fifo
        (elim o [ none ↦ none | some d ↦ some (done sem d.ret (read_one sem.fifo ∷ d.calls)) ])
unfolding Ends AllUse
reserve_sem-again sem none h = tt
reserve_sem-again sem (some d) (same, all) = (refl, (refl, all))

if_Ends :
    (fd : Option ℕ) (b : Bool) (x y : Option Done)
    → Ends fd x
    → Ends fd y
    → Ends fd (if b then x else y)
if_Ends fd true x y p q = p
if_Ends fd false x y p q = q

pub reserve_sem-Ends :
    (stale : Bool) (rs : List Read) (sem : BinSem) → Ends sem.fifo (reserve_sem stale rs sem)
unfolding reserve_sem Ends AllUse
reserve_sem-Ends stale [] sem = tt
reserve_sem-Ends stale (got n ∷ rs) sem =
    if_Ends sem.fifo (n == 1) _ _ (refl, (refl, tt))
      (if_Ends sem.fifo stale _ _
        (reserve_sem-again sem (reserve_sem stale rs sem) (reserve_sem-Ends stale rs sem))
        (refl, (refl, tt)))
reserve_sem-Ends stale (eintr ∷ rs) sem =
    reserve_sem-again sem (reserve_sem stale rs sem) (reserve_sem-Ends stale rs sem)
reserve_sem-Ends stale (error ∷ rs) sem = (refl, (refl, tt))

-- A semaphore that has been made, whichever way, keeps descriptor 0, and so each read and write of
-- its calls is one of standard input, and none is of the FIFO.
pub made_used :
    (time : ℕ) (writes : Bool)
    → ((init_avail time true writes).sem.fifo ≡ some 0)
      × AllUse (some 0) (init_avail time true writes).calls
      × ((init_used time true).sem.fifo ≡ some 0)
unfolding init_avail init_used AllUse
made_used time writes = (refl, (refl, tt), refl)
