-- ===== src/Common/Bits.antt =====
-- Tests of single bits.
use tlpi_practice.Common.{ℕ, ◌/◌, ◌%◌, Bool, ◌==◌}

-- `flags & bit`, for a `bit` that is a power of two.
abbrev pub has_flag : ℕ → ℕ → Bool
has_flag flags bit = flags / bit % 2 == 1
