-- ===== src/Popen/Tests.antt =====
-- 44-2-my_popen_pclose.c with two streams, of the processes 71 and 72.
use tlpi_practice.Common.{◌≡◌, refl, true, none, some, [], ◌∷◌, arith}
use tlpi_practice.Popen.{
  Node, fclose, waitpid, close_from, pclose, popen, remember, reads, in_parent, in_child, returns,
  after_child, child_calls, close_write_end, fdopen_read, dangling, close_read_end, dup_write_end,
  run_command,
}
use tlpi_practice.Popen.Closes.{Without, last_pid, pclose-split}

abbrev first : Node
first = record { file = 3; pid = 71 }

abbrev second : Node
second = record { file = 4; pid = 72 }

opens :
    popen reads true (in_parent 72) 4 (first ∷ [])
    ≡ returns (some 4) (close_write_end ∷ fdopen_read ∷ []) (second ∷ first ∷ [])
unfolding popen remember
opens = refl

-- The child of a second `popen` reads the list that it has freed.
child_dangles :
    popen reads true in_child 4 (first ∷ [])
    ≡ dangling (fclose 3 ∷ close_read_end ∷ dup_write_end ∷ close_write_end ∷ run_command ∷ [])
unfolding popen after_child child_calls
child_dangles = refl

unknown : pclose some 9 (first ∷ []) ≡ (none, ([], first ∷ []))
unfolding pclose close_from
unknown = refl

-- The stream of process 71 is closed, and process 72 is waited for.
pclose-split_example :
    pclose some 3 (second ∷ first ∷ []) ≡ (some 72, (fclose 3 ∷ waitpid 72 ∷ [], second ∷ []))
unfolding Without last_pid
pclose-split_example = pclose-split some (second ∷ []) [] first ((λ e. omega arith), tt)
