-- ===== src/Talk/Message.antt =====
-- The messages that both programs declare, and the calls that they make.
use tlpi_practice.Common.{ℕ, ◌+◌, ◌*◌, ◌/◌, ◌%◌, ◌^◌, ◌<◌, ◌≡◌, ◌∷◌, arith}
use tlpi_practice.Common.Disk.{Bytes}

abbrev pub login_msg : ℕ
login_msg = 1

abbrev pub logout_msg : ℕ
logout_msg = 2

abbrev pub text_msg : ℕ
text_msg = 3

abbrev pub max_text_len : ℕ
max_text_len = 512

-- `struct clientMsg`
pub record ClientMsg : Type 0 where
  pub mtype : ℕ
  pub pid : ℕ
  pub mtext : Bytes

-- `CLI_LEN`: the bytes from `pid` to the end of the structure.
abbrev pub cli_len : ℕ
cli_len = 4 + max_text_len

-- `*(int *)msg.mtext = n`, least byte first.
unfoldable pub put_int : ℕ → Bytes → Bytes
put_int n (_ ∷ _ ∷ _ ∷ _ ∷ rest) =
    n % 256 ∷ n / 256 % 256 ∷ n / 65536 % 256 ∷ n / 16777216 % 256 ∷ rest
put_int n bs = bs

-- `*(int *)msg.mtext`, as the bit pattern of the int.
unfoldable pub get_int : Bytes → ℕ
get_int (a ∷ b ∷ c ∷ d ∷ rest) = a + 256 * b + 65536 * c + 16777216 * d
get_int bs = 0

pub get_int-put_int :
    (n a b c d : ℕ) (rest : Bytes) → n < 2 ^ 32 → get_int (put_int n (a ∷ b ∷ c ∷ d ∷ rest)) ≡ n
unfolding get_int put_int
get_int-put_int n a b c d rest h = omega arith

-- The calls that the programs make, in the order in which they make them.
pub data Call : Type 0 where
  create_known_file : Call
  create_queue : ℕ → Call
  alarm : ℕ → Call
  msgsnd : ℕ → ClientMsg → ℕ → Call
  remove_queue : ℕ → Call
  unlink_known_file : Call
  write_id : ℕ → Call
  close_file : Call
  default_action : ℕ → Call
  raise : ℕ → Call
  unblock : ℕ → Call
  print_text : ℕ → Bytes → Call
  complain : ℕ → Call

-- What `msgsnd` and `msgrcv` return.
pub data Sent : Type 0 where
  delivered interrupted failed : Sent
