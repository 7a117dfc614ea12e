-- ===== src/Vectors.antt =====
-- 5-7-my_readv_writev.c: scatter and gather over one `read` and one `write`. An entry of `iov` is
-- the bytes at its base, as many as its length says.
mod Gather
mod Spread
mod Scatter
mod Tests
use tlpi_practice.Common.{
  ℕ, zero, suc, ◌+◌, ◌-◌, ◌*◌, ◌/◌, ◌%◌, ◌^◌, ◌≤◌, ◌<◌, ◌≡◌, ◌≢◌, ◌↔◌, refl, sym, ap, ◌∙◌, Bool,
  true, false, not, ◌&&◌, ◌||◌, ◌⊎◌, inl, inr, Option, none, some, List, map, [], ◌∷◌, ◌++◌, arith,
  ltb, leb, ◌==◌, if◌then◌else◌, length, Bool-cases, Option-cases, length-append, replicate, ==_iff,
  get_elem?, set, get_or, take, drop,
}
use tlpi_practice.Common.Disk.{Bytes, overlay}

-- The loop that adds up `iov_len`.
pub total_space : List Bytes → ℕ
total_space [] = 0
total_space (v ∷ vs) = length v + total_space vs

-- The loop of `my_writev`, from entry `i` on: `memcpy (buffer + cnt, …)`.
pub gather : Bytes → ℕ → List Bytes → Bytes
gather buffer cnt [] = buffer
gather buffer cnt (v ∷ vs) = gather (overlay buffer cnt v) (cnt + length v) vs

-- `malloc` gives a buffer of the size asked for, and `write` does what the descriptor does.
unfoldable pub my_writev {ℓ} : {R : Type ℓ} → (ℕ → Bytes) → (Bytes → R) → List Bytes → R
unfolding total_space gather
my_writev malloc write iov = write (gather (malloc (total_space iov)) 0 iov)

-- `(total - ind) > iov[i].iov_len ? iov[i].iov_len : total - ind`
abbrev pub part_size : ℕ → ℕ → ℕ
part_size left len = if ltb len left then len else left

-- The loop of `my_readv`, from entry `i` on.
pub scatter : ℕ → Bytes → ℕ → List Bytes → List Bytes
scatter total buffer ind [] = []
scatter total buffer ind (v ∷ vs) =
    let size = part_size (total - ind) (length v) in
    let rest = scatter total buffer (ind + size) vs in
    if ltb ind total then overlay v 0 (take size (drop ind buffer)) ∷ rest else v ∷ vs

-- What `read` returns: -1, or the bytes read, at most as many as asked for.
pub data Read : Type 0 where
  error : Read
  bytes : Bytes → Read

-- `my_readv` returns what `read` returns, and the entries as it leaves them.
unfoldable pub my_readv : (ℕ → Bytes) → (ℕ → Read) → List Bytes → Option ℕ × List Bytes
unfolding total_space scatter
my_readv malloc read iov = elim (read (total_space iov)) [
  | error ↦ (none, iov)
  | bytes bs ↦
      if ltb 0 (length bs)
      then (some (length bs), scatter (length bs) (overlay (malloc (total_space iov)) 0 bs) 0 iov)
      else (some 0, iov)
]
