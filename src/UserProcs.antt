-- ===== src/UserProcs.antt =====
-- 12-1-show_user_procs.c: the names of a user's processes, out of the texts below /proc. The bytes
-- that an array holds before it is written are arguments; `undefined` stands for a write behind an
-- array or the use of text that is not there.
mod Lines
mod Status
mod Shown
mod Tests
use tlpi_practice.Common.{
  ℕ, Bool, true, false, ◌&&◌, ◌||◌, Option, none, some, List, [], ◌∷◌, ◌++◌, ◌==◌, ltb, length,
  drop, if◌then◌else◌,
}
use tlpi_practice.Acl.{id_of}
use tlpi_practice.Common.CString.{cstring, strcmp, is_zero}
use tlpi_practice.Common.Disk.{Bytes, overlay}
use tlpi_practice.Common.Text.{text}
use tlpi_practice.Environ.{is_prefix}
use tlpi_practice.Errors.{snprintf}
use tlpi_practice.Numbers.Long.{strtol}

-- `sizeof(buffer)`, `sizeof(line)` and `sizeof(filename)`
abbrev pub size : ℕ
size = 1024

abbrev pub name_size : ℕ
name_size = 100

-- The text from the first place on where `needle` begins.
unfoldable pub strstr : Bytes → Bytes → Option Bytes
unfolding is_prefix
strstr needle [] = if is_prefix needle [] then some [] else none
strstr needle (b ∷ s) =
    let further = strstr needle s in if is_prefix needle (b ∷ s) then some (b ∷ s) else further

-- `line` has the bytes before index `j`.
pub record State : Type 0 where
  pub line : Bytes
  pub name : Option Bytes
  pub over : Bool
  pub out : Bytes

pub data Scan : Type 0 where
  goes : State → Scan
  breaks : State → Scan
  undefined : Scan

-- `line[j] = c`, and j is one more.
unfoldable pub put : ℕ → State → Scan
put c st =
    if ltb (length st.line) size
    then goes (record { line = st.line ++ c ∷ []; name = st.name; over = st.over; out = st.out })
    else undefined

-- `strcpy(name, s + 6)` where the line has "Name:".
unfoldable pub take_name : Option Bytes → State → Scan
take_name none st = goes st
take_name (some s) st =
    if ltb 5 (length s) && ltb (length (drop 6 s)) name_size
    then goes (record { line = st.line; name = some (drop 6 s); over = st.over; out = st.out })
    else undefined

-- What follows behind the test for "Uid:", with `j = 0` and the byte of the new line.
unfoldable pub next_line : State → Scan
next_line st = goes (record { line = 10 ∷ []; name = st.name; over = st.over; out = st.out })

unfoldable pub print_name : Option Bytes → State → Scan
unfolding next_line
print_name none st = undefined
print_name (some name) st =
    next_line
      (record { line = st.line; name = some name; over = true; out = st.out ++ (name ++ 10 ∷ []) })

-- `this_uid` and `uid` are of 32 bits.
unfoldable pub take_uid : ℕ → Option Bytes → State → Scan
unfolding next_line print_name id_of
take_uid uid none st = next_line st
take_uid uid (some s) st =
    let this_uid = id_of ((strtol (drop 5 s) 10).res) in
    if ltb 4 (length s)
    then (if this_uid == uid
        then print_name st.name st
        else breaks (record { line = st.line; name = st.name; over = true; out = st.out }))
    else undefined

unfoldable pub then_scan : Scan → (State → Scan) → Scan
then_scan (goes st) k = k st
then_scan (breaks st) k = breaks st
then_scan undefined k = undefined

-- A byte that is the end of a line.
unfoldable pub end_line : ℕ → State → Scan
unfolding strstr take_name take_uid then_scan
end_line uid st =
    let str = cstring st.line in
    if ltb (length st.line) size
    then then_scan (take_name (strstr (text "Name:") str) st)
        (take_uid uid (strstr (text "Uid:") str))
    else undefined

-- The loop over the bytes of the buffer.
unfoldable pub scan : ℕ → Bytes → State → Scan
unfolding put end_line then_scan
scan uid [] st = goes st
scan uid (b ∷ buffer) st =
    then_scan (if b == 10 then end_line uid st else put b st) (scan uid buffer)

-- What `read` gives of a file: parts, and behind them no bytes or an error.
pub record File : Type 0 where
  pub parts : List Bytes
  pub ends : Bool

pub data Ended : Type 0 where
  at : State → Ended
  read_fails : State → Ended
  stray : Ended

-- `if (over) break; line[j] = '\0';`, with the rest of the loop as an argument.
unfoldable pub behind_scan : Scan → (State → Ended) → Ended
behind_scan undefined k = stray
behind_scan (goes st) k =
    if st.over then at st else if ltb (length st.line) size then k st else stray
behind_scan (breaks st) k = at st

-- The loop over the reads. All of the buffer is searched, whatever the last read has given.
unfoldable pub read_loop : ℕ → Bool → List Bytes → Bytes → State → Ended
unfolding scan behind_scan overlay
read_loop uid ends [] buffer st = if ends then at st else read_fails st
read_loop uid ends ([] ∷ parts) buffer st = at st
read_loop uid ends ((b ∷ bs) ∷ parts) buffer st =
    let buffer' = overlay buffer 0 (b ∷ bs) in
    behind_scan (scan uid buffer' st) (read_loop uid ends parts buffer')

pub data Run : Type 0 where
  returns : Bytes → Run
  err_exit : Bytes → Run
  usage_error : Run
  fatal : Run
  bad : Run

-- The answers of the system: what `buffer` holds before it is filled, the files, and whether `close`
-- succeeds.
pub record System : Type 0 where
  pub stale : Bytes → Bytes
  pub opens : Bytes → Option File
  pub closes : Bytes → Bool
  pub readdir_fails : Bool

abbrev pub fresh : Bytes → State
fresh out = record { line = []; name = none; over = false; out = out }

-- `snprintf(filename, sizeof(filename), "/proc/%s/status", d_name)`
abbrev pub filename : Bytes → Bytes
filename d_name = snprintf size (text "/proc/" ++ (d_name ++ text "/status"))

abbrev pub is_dot : Bytes → Bool
is_dot d_name = is_zero (strcmp d_name (text ".")) || is_zero (strcmp d_name (text ".."))

-- The end of a round, with the further rounds as an argument.
unfoldable pub close_file : Bool → Ended → (Bytes → Run) → Run
close_file closes stray k = bad
close_file closes (read_fails st) k = err_exit st.out
close_file closes (at st) k = if closes then k st.out else err_exit st.out

unfoldable pub visit : System → ℕ → Bytes → Option File → (Bytes → Run) → Bytes → Run
unfolding read_loop close_file
visit sys uid d_name none k out = k out
visit sys uid d_name (some f) k out =
    close_file (sys.closes (filename d_name))
      (read_loop uid f.ends f.parts (sys.stale (filename d_name)) (fresh out)) k

-- The loop over the entries of the directory.
unfoldable pub show : System → ℕ → List Bytes → Bytes → Run
unfolding visit
show sys uid [] out = if sys.readdir_fails then err_exit out else returns out
show sys uid (d_name ∷ names) out =
    if is_dot d_name
    then show sys uid names out
    else visit sys uid d_name (sys.opens (filename d_name)) (show sys uid names) out

-- `main`, whose arguments behind the program's name are `args`: `getpwnam` gives the uid, and
-- `opendir` the names.
unfoldable pub main : System → (Bytes → Option ℕ) → Option (List Bytes) → List Bytes → Run
unfolding show
main sys getpwnam opendir (username ∷ []) =
    if is_zero (strcmp username (text "--help")) then usage_error else elim (getpwnam username) [
      | none ↦ fatal
      | some uid ↦ elim opendir [ none ↦ err_exit [] | some names ↦ show sys uid names [] ]
    ]
main sys getpwnam opendir args = usage_error
