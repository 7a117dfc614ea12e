-- ===== src/Popen.antt =====
-- 44-2-my_popen_pclose.c: the list of streams that `popen` has opened.
mod Closes
mod Tests
use tlpi_practice.Common.{
  ℕ, Bool, true, false, Option, none, some, List, [], ◌∷◌, ◌++◌, ◌==◌, if◌then◌else◌, map,
}

pub record Node : Type 0 where
  pub file : ℕ
  pub pid : ℕ

-- The calls of the process and of its child.
pub data Call : Type 0 where
  fclose : ℕ → Call
  close_write_end close_read_end dup_write_end dup_read_end run_command : Call
  fdopen_read fdopen_write : Call
  waitpid : ℕ → Call

-- The argument `type`: `r`, `w`, or another.
pub data Mode : Type 0 where
  reads writes other : Mode

-- What `fork` returns.
pub data Fork : Type 0 where
  no_process in_child : Fork
  in_parent : ℕ → Fork

-- What `popen` returns, its calls and the list behind `p_header`; or its calls up to where it reads
-- the list that it has freed.
pub data Result : Type 0 where
  returns : Option ℕ → List Call → List Node → Result
  dangling : List Call → Result

-- The default case: `file` is the stream of `fdopen`, and `calls` are those before.
unfoldable pub remember : Mode → ℕ → ℕ → List Call → List Node → Result
remember mode file pid calls nodes =
    returns (some file)
      (calls ++ (elim mode [
        | writes ↦ close_read_end ∷ fdopen_write ∷ []
        | _ ↦ close_write_end ∷ fdopen_read ∷ []
      ]))
      (record { file = file; pid = pid } ∷ nodes)

-- The calls of the child up to `system`; it closes the streams that it has from its parent.
unfoldable pub child_calls : Mode → List Node → List Call
child_calls mode [] = elim mode [
  | writes ↦ close_write_end ∷ dup_read_end ∷ close_read_end ∷ run_command ∷ []
  | _ ↦ close_read_end ∷ dup_write_end ∷ close_write_end ∷ run_command ∷ []
]
child_calls mode (n ∷ ns) = fclose n.file ∷ child_calls mode ns

-- Behind `system` the child goes on with the case of its parent, where `child` is 0.
unfoldable pub after_child : Mode → ℕ → List Node → Result
unfolding remember child_calls
after_child mode file [] = remember mode file 0 (child_calls mode []) []
after_child mode file (n ∷ ns) = dangling (child_calls mode (n ∷ ns))

-- `pipes` is whether `pipe` works.
unfoldable pub popen : Mode → Bool → Fork → ℕ → List Node → Result
unfolding remember after_child
popen other pipes fork file nodes = returns none [] nodes
popen mode false fork file nodes = returns none [] nodes
popen mode true no_process file nodes = returns none [] nodes
popen mode true in_child file nodes = after_child mode file nodes
popen mode true (in_parent pid) file nodes = remember mode file pid [] nodes

-- The search of `pclose` from a node with the process `pid` on: the process that it waits for, and
-- the list behind that node then. The header has the process 0.
unfoldable pub close_from : ℕ → ℕ → List Node → Option (ℕ × List Node)
close_from pid stream [] = none
close_from pid stream (n ∷ ns) =
    let rest = close_from n.pid stream ns in
    if n.file == stream
    then some (pid, ns)
    else elim rest [ none ↦ none | some (waited, left) ↦ some (waited, n ∷ left) ]

-- The calls of `pclose`, and what it returns: -1 is none, and so is a `waitpid` that fails.
unfoldable pub pclose : (ℕ → Option ℕ) → ℕ → List Node → Option ℕ × (List Call × List Node)
unfolding close_from
pclose wait_status stream nodes = elim (close_from 0 stream nodes) [
  | none ↦ (none, ([], nodes))
  | some (waited, left) ↦ (wait_status waited, (fclose stream ∷ waitpid waited ∷ [], left))
]
