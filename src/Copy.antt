-- ===== src/Copy.antt =====
-- 4-2-cp.c: copies a file and leaves a hole wherever the source has zero bytes. `zero_cnt` and `curr`
-- are words of 32 bits, of which those from 2 ^ 31 on are the negative numbers.
mod Spec
mod Rounds
mod Correct
mod Fresh
mod Tests
use tlpi_practice.Common.{
  ℕ, ◌+◌, ◌-◌, ◌%◌, ◌^◌, Bool, ◌&&◌, Option, none, some, List, [], ◌∷◌, ◌++◌, ltb, ◌==◌,
  if◌then◌else◌, length,
}
use tlpi_practice.Common.Disk.{Bytes, Disk}

-- The exit codes -10001 to -10004.
pub data Failure : Type 0 where
  open_failure read_failure write_failure lseek_failure : Failure

-- `overrun` is the store `wbuf[write_index++]` behind the end of the array.
pub data Result {ℓ} (A : Type ℓ) : Type ℓ where
  ok : A → Result A
  exit : Failure → Result A
  overrun : Result A

infixl 5 ◌>>=◌
abbrev pub ◌>>=◌ {ℓ κ} : {A : Type ℓ} {B : Type κ} → Result A → (A → Result B) → Result B
ok a >>= f = f a
exit e >>= f = exit e
overrun >>= f = overrun

-- The result of a call that returns -1 when it fails.
abbrev pub or_exit {ℓ} : {A : Type ℓ} → Option A → Failure → Result A
or_exit none e = exit e
or_exit (some a) e = ok a

abbrev pub buf_size : ℕ
buf_size = 1024

-- `n > 0`
abbrev pub is_positive : ℕ → Bool
is_positive n = ltb 0 n && ltb n (2 ^ 31)

-- `curr == -1`, for the low bits of what lseek returns
abbrev pub is_minus_one : ℕ → Bool
is_minus_one offset = offset % 2 ^ 32 == 2 ^ 32 - 1

module _ (disk : Disk) where
  open disk use {State, look, write, skip}

  -- The locals that outlive a round: the bytes of `wbuf` below `write_index`, `zero_cnt`, and the
  -- descriptor `wfd`.
  pub record Copier : Type 0 where
    pub wbuf : Bytes
    pub zero_cnt : ℕ
    pub wfd : State

  -- `if (write_index > 0)`: write the buffer, and start it anew.
  pub flush : Copier → Result Copier
  flush c =
      if ltb 0 (length c.wbuf)
      then (do d ← or_exit (write c.wfd c.wbuf) write_failure; ok (record c { wbuf = []; wfd = d }))
      else ok c

  -- `if (zero_cnt > 0)`: seek past the zeros.
  pub skip_zeros : Copier → Result Copier
  skip_zeros c =
      if is_positive c.zero_cnt
      then (do
        d ← or_exit (skip c.wfd c.zero_cnt) lseek_failure
        (if is_minus_one (look d).offset
            then exit lseek_failure
            else ok (record c { zero_cnt = 0; wfd = d })))
      else ok c

  -- `wbuf[write_index++] = rbuf[i]`
  pub append_byte : Copier → ℕ → Result Copier
  append_byte c b =
      if ltb (length c.wbuf) buf_size then ok (record c { wbuf = c.wbuf ++ b ∷ [] }) else overrun

  pub copy_byte : Copier → ℕ → Result Copier
  copy_byte c b =
      if b == 0
      then (do c' ← flush c; ok (record c' { zero_cnt = (c'.zero_cnt + 1) % 2 ^ 32 }))
      else (do c' ← skip_zeros c; append_byte c' b)

  -- The `for` over what one `read` has put into `rbuf`.
  pub copy_chunk : Copier → Bytes → Result Copier
  copy_chunk c [] = ok c
  copy_chunk c (b ∷ bs) = do c' ← copy_byte c b; copy_chunk c' bs

  -- The `while`, over what the calls of `read` return: `none` is -1, `some []` is 0, and so is
  -- every call behind the end of the list.
  pub copy_loop : Copier → List (Option Bytes) → Result Copier
  copy_loop c [] = flush c
  copy_loop c (none ∷ rs) = exit read_failure
  copy_loop c (some [] ∷ rs) = flush c
  copy_loop c (some (b ∷ bs) ∷ rs) = do c' ← copy_chunk c (b ∷ bs); copy_loop c' rs

  -- `main`, with the results of the two calls of `open`.
  unfoldable pub copy : Option (List (Option Bytes)) → Option State → Result State
  unfolding flush skip_zeros append_byte copy_byte copy_chunk copy_loop
  copy src dest = do
    rs ← or_exit src open_failure
    d ← or_exit dest open_failure
    c ← copy_loop (record { wbuf = []; zero_cnt = 0; wfd = d }) rs
    ok c.wfd
