-- ===== src/Common/Decimal.antt =====
-- What `%d` prints for a number that is not negative.
use tlpi_practice.Common.{ℕ, zero, suc, ◌+◌, ◌/◌, ◌%◌, [], ◌∷◌, ltb, if◌then◌else◌}
use tlpi_practice.Common.Disk.{Bytes}

-- The digits of `n` before `acc`; a number has fewer digits than `fuel = n + 1`.
unfoldable pub decimal_onto : ℕ → ℕ → Bytes → Bytes
decimal_onto zero n acc = acc
decimal_onto (suc fuel) n acc =
    let digits = (b'0' + n % 10) ∷ acc in
    let rest = decimal_onto fuel (n / 10) digits in if ltb n 10 then digits else rest

unfoldable pub decimal : ℕ → Bytes
unfolding decimal_onto
decimal n = decimal_onto (suc n) n []
