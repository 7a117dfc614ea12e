-- ===== src/Sendfile.antt =====
-- 61-3-do_sendfile_with_read_write.c: `my_sendfile` by one `read` and as many `write`s as it takes.
mod Prefix
mod Tests
use tlpi_practice.Common.{ℕ, Bool, true, false, Option, none, some, List, [], ◌∷◌, ◌++◌, take, drop}
use tlpi_practice.Common.Disk.{Bytes}

-- What a `write` returns: how many bytes it has taken, at most as many as it was given, or -1.
pub data Write : Type 0 where
  written : ℕ → Write
  eintr error : Write

-- What the function returns, -1 as none, with the bytes that `out_fd` has then; or that it has not
-- returned after the writes that are given.
pub data Result : Type 0 where
  returns : Option ℕ → Bytes → Result
  goes_on : Bytes → Result

-- `while (1)`, with the bytes that are out and those that are left.
unfoldable pub send : List Write → Bytes → Bytes → Result
send [] out left = goes_on out
send (written k ∷ ws) out left = send ws (out ++ take k left) (drop k left)
send (eintr ∷ ws) out left = send ws out left
send (error ∷ ws) out left = returns none out

-- `seeks` is whether both calls of `lseek` work, and `got` what `read` returns.
unfoldable pub my_sendfile : Bool → Option Bytes → List Write → Result
unfolding send
my_sendfile false got ws = returns none []
my_sendfile true none ws = returns none []
my_sendfile true (some buf) ws = send ws [] buf
