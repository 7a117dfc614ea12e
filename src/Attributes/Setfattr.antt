-- ===== src/Attributes/Setfattr.antt =====
-- 16-1-my_setfattr.c: the options, and why no attribute is set.
use tlpi_practice.Common.{ℕ, Option, none, some, List, [], ◌∷◌, ◌+◌, ◌==◌, not, if◌then◌else◌}
use tlpi_practice.Common.Disk.{Bytes}

-- What getopt returns: -n or -v with its argument, or an option that is not known.
pub data Opt : Type 0 where
  name value : Bytes → Opt
  unknown : Opt

pub data Outcome : Type 0 where
  usage : Outcome
  -- `name` or `value` is read before it is set
  unset : Outcome

-- The loop: the case of -v goes on into the default.
unfoldable pub options : List Opt → Option Bytes → Option (Option Bytes)
options [] name_set = some name_set
options (name arg ∷ opts) name_set = options opts (some arg)
options (value arg ∷ opts) name_set = none
options (unknown ∷ opts) name_set = none

-- `main` with `argc` arguments, of which the options end before number `optind`. Where the loop has
-- come to its end, `value` has not been set, and strlen reads it.
unfoldable pub main : ℕ → List Opt → ℕ → Outcome
unfolding options
main argc opts optind = if not (argc == 6) then usage else elim (options opts none) [
  | none ↦ usage
  | some name_set ↦ if not (optind + 1 == argc) then usage else unset
]
