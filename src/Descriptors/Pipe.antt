-- ===== src/Descriptors/Pipe.antt =====
-- 61-2-do_pipe_with_socketpair.c: a pipe of two sockets.
use tlpi_practice.Common.{ℕ, Bool, true, false, Option, none, some, List, [], ◌∷◌, if◌then◌else◌}

-- What `my_pipe` returns, with the descriptors that it has opened and those that it has closed, and
-- the two that it gives back, the first of which can only be read from.
pub record Result : Type 0 where
  pub ret : Bool
  pub opened : List ℕ
  pub closed : List ℕ
  pub pipefd : Option (ℕ × ℕ)

-- `pair` is what `socketpair` gives, and `shut` whether `shutdown` works.
unfoldable pub my_pipe : Option (ℕ × ℕ) → Bool → Result
my_pipe none shut = record { ret = false; opened = []; closed = []; pipefd = none }
my_pipe (some (a, b)) shut =
    if shut
    then record { ret = true; opened = a ∷ b ∷ []; closed = []; pipefd = some (a, b) }
    else record { ret = false; opened = a ∷ b ∷ []; closed = a ∷ b ∷ []; pipefd = none }
