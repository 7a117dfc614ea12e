-- ===== src/Popen/Closes.antt =====
-- 44-2-my_popen_pclose.c: what `pclose` takes from the list, and for which process it waits.
use tlpi_practice.Common.{
  ℕ, ◌≡◌, ◌≢◌, refl, true, false, Option, some, List, [], ◌∷◌, ◌++◌, ◌==◌, arith,
}
use tlpi_practice.Popen.{Node, fclose, waitpid, close_from, pclose}

unfoldable pub Without : ℕ → List Node → Type 0
Without stream [] = Unit {0}
Without stream (n ∷ ns) = (n.file ≢ stream) × Without stream ns

-- The process of the last node, or of the header.
unfoldable pub last_pid : ℕ → List Node → ℕ
last_pid pid [] = pid
last_pid pid (n ∷ ns) = last_pid n.pid ns

close_from-split :
    (before after : List Node) (n : Node) (pid stream : ℕ)
    → n.file ≡ stream
    → Without stream before
    → close_from pid stream (before ++ n ∷ after) ≡ some (last_pid pid before, before ++ after)
unfolding close_from Without last_pid
close_from-split [] after n pid stream e w =
    let found : (n.file == stream) ≡ true = ground arith in rw (close_from, found) refl
close_from-split (m ∷ before) after n pid stream e (ne, w) =
    let other : (m.file == stream) ≡ false = ground arith in
    let ih = close_from-split before after n m.pid stream e w in rw (close_from, other, ih) refl

-- `pclose` of a stream in the list closes it and takes its node out, wherever it stands, and leaves
-- the other nodes in order; but the process that it waits for, and whose status it returns, is the
-- one of the node before, or process number 0, which stands for any child of the group, where the
-- stream is the one opened last.
pub pclose-split :
    (wait_status : ℕ → Option ℕ) (before after : List Node) (n : Node)
    → Without n.file before
    → pclose wait_status n.file (before ++ n ∷ after) ≡ (
      wait_status (last_pid 0 before),
      (fclose n.file ∷ waitpid (last_pid 0 before) ∷ [], before ++ after),
    )
unfolding pclose
pclose-split wait_status before after n w =
    rw (pclose, close_from-split before after n 0 n.file refl w) refl
