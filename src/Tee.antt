-- ===== src/Tee.antt =====
-- 4-1-tee.c: the files that are opened, and the loop that copies standard input to them. What the
-- options are, what `open` gives, what `read` returns and how many bytes a `write` takes are
-- arguments.
mod Opens
mod Copies
mod Tests
use tlpi_practice.Common.{
  ℕ, zero, suc, ◌+◌, Bool, true, false, Option, none, some, List, [], ◌∷◌, ◌++◌, length, take, ◌==◌,
  if◌then◌else◌,
}
use tlpi_practice.Common.Disk.{Bytes, overlay}
use tlpi_practice.Common.Threads.{put}

-- The files by number, and their bytes.
abbrev pub Store : Type 0
Store = ℕ → Bytes

-- A descriptor: its file, whether it has O_APPEND, and its offset.
pub record Fd : Type 0 where
  pub file : ℕ
  pub append : Bool
  pub offset : ℕ

pub record System : Type 0 where
  -- the file of a path, or none where `open` fails
  pub file_of : Bytes → Option ℕ
  -- how many bytes of a round a file takes
  pub taken : ℕ → ℕ → ℕ

pub data Message : Type 0 where
  open_error unknown_option too_many_files read_error : Message

-- `fds` up to `cur`, and the files.
pub record Tee : Type 0 where
  pub fds : List Fd
  pub store : Store

pub data Result (A : Type 0) : Type 0 where
  ok : A → Result A
  exits : Message → Store → Result A

infixl 5 ◌>>=◌
abbrev pub ◌>>=◌ : {A B : Type 0} → Result A → (A → Result B) → Result B
(ok a) >>= f = f a
(exits m s) >>= f = exits m s

-- `fds[cur++] = Open(...)`, with O_APPEND or with O_TRUNC.
unfoldable pub open_file : System → Bool → Bytes → Tee → Result Tee
open_file sys append path t =
    if length t.fds == 10 then exits too_many_files t.store else elim (sys.file_of path) [
      | none ↦ exits open_error t.store
      | some f ↦ ok (record {
        fds = t.fds ++ record { file = f; append = append; offset = 0 } ∷ [];
        store = if append then t.store else put t.store f [];
      })
    ]

-- The loop of `getopt`: the arguments of `-a`, and none for an option that is not known.
unfoldable pub open_options : System → List (Option Bytes) → Tee → Result Tee
unfolding open_file
open_options sys [] t = ok t
open_options sys (none ∷ opts) t = exits unknown_option t.store
open_options sys (some optarg ∷ opts) t = open_file sys true optarg t >>= open_options sys opts

-- The loop over the other arguments.
unfoldable pub open_arguments : System → List Bytes → Tee → Result Tee
unfolding open_file
open_arguments sys [] t = ok t
open_arguments sys (arg ∷ args) t = open_file sys false arg t >>= open_arguments sys args

unfoldable pub write : System → ℕ → Fd → Bytes → Store → Fd × Store
write sys round fd buf s =
    let got = take (sys.taken round fd.file) buf in
    if fd.append then (fd, put s fd.file (s fd.file ++ got)) else (
      record fd { offset = fd.offset + length got },
      put s fd.file (overlay (s fd.file) fd.offset got),
    )

-- `for (i = 0; i < cur; i++)`; what `write` returns is not looked at.
unfoldable pub write_all : System → ℕ → List Fd → Bytes → Store → List Fd × Store
unfolding write
write_all sys round [] buf s = ([], s)
write_all sys round (fd ∷ fds) buf s =
    let one = write sys round fd buf s in
    let rest = write_all sys round fds buf one.1 in (one.0 ∷ rest.0, rest.1)

-- `while ((read_num = read(...)) > 0)`, over what is read; a read of no bytes ends it, as does the
-- end of the list.
unfoldable pub copy : System → ℕ → List Bytes → Tee → Tee
unfolding write_all
copy sys round [] t = t
copy sys round ([] ∷ reads) t = t
copy sys round ((b ∷ bs) ∷ reads) t =
    let w = write_all sys round t.fds (b ∷ bs) t.store in
    copy sys (suc round) reads (record { fds = w.0; store = w.1 })

-- `main`; `broken` is whether the last `read` fails.
unfoldable pub main :
    System → List (Option Bytes) → List Bytes → List Bytes → Bool → Store → Result Store
unfolding open_options open_arguments copy
main sys opts args reads broken s = do
  t ← open_options sys opts (record { fds = []; store = s })
  t' ← open_arguments sys args t
  (if broken
      then exits read_error (copy sys 0 reads t').store
      else ok ((copy sys 0 reads t').store))
