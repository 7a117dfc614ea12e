-- ===== src/Descriptors/Fifo.antt =====
-- 47-6-binary_sem_fifo.c: the semaphore that should be a FIFO.
use tlpi_practice.Common.{
  ℕ, ◌%◌, Bool, true, false, Option, none, some, List, [], ◌∷◌, ◌==◌, if◌then◌else◌,
}
use tlpi_practice.Common.Decimal.{decimal}
use tlpi_practice.Common.Disk.{Bytes}

-- `struct bin_sem`; a `fifo` of -1 is none.
pub record BinSem : Type 0 where
  pub fifo : Option ℕ
  pub file : Bytes

-- A call that reads or writes one byte, with its descriptor.
pub data Call : Type 0 where
  read_one write_one : Option ℕ → Call

-- What a `read` of one byte returns: how many bytes, or -1.
pub data Read : Type 0 where
  got : ℕ → Read
  eintr error : Read

pub record Done : Type 0 where
  pub sem : BinSem
  -- whether 0 is returned
  pub ret : Bool
  pub calls : List Call

abbrev pub done : BinSem → Bool → List Call → Done
done sem ret calls = record { sem = sem; ret = ret; calls = calls }

-- The name is the time, in the working directory. `mkfifo` returns 0 where it works.
abbrev pub made : ℕ → Bool → BinSem
made time works = record { fifo = if works then some 0 else none; file = decimal (time % 1000000) }

unfoldable pub init_avail : ℕ → Bool → Bool → Done
init_avail time works writes =
    let sem = made time works in
    if works then done sem writes (write_one sem.fifo ∷ []) else done sem false []

unfoldable pub init_used : ℕ → Bool → Done
init_used time works = done (made time works) works []

-- The loop of `reserveSem`; none where the reads that are given are used up. `errno` is what an
-- earlier call has left behind a read that returns no byte: `stale` is whether it is EINTR.
unfoldable pub reserve_sem : Bool → List Read → BinSem → Option Done
reserve_sem stale [] sem = none
reserve_sem stale (r ∷ rs) sem =
    let again : Option Done = elim (reserve_sem stale rs sem) [
      | none ↦ none
      | some d ↦ some (done sem d.ret (read_one sem.fifo ∷ d.calls))
    ] in
    let last : Option Done = some (done sem false (read_one sem.fifo ∷ [])) in
    elim r [
      | got n ↦
          if n == 1
          then some (done sem true (read_one sem.fifo ∷ []))
          else if stale
          then again
          else last
      | eintr ↦ again
      | error ↦ last
    ]

unfoldable pub release_sem : Bool → BinSem → Done
release_sem writes sem = done sem writes (write_one sem.fifo ∷ [])
