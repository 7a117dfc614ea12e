-- ===== src/Monitor.antt =====
-- 19-1-file_monitor.c: the watches on a tree of files, and the events that are printed. The answers
-- of the system, in the order of the calls, are arguments; a call of malloc or strdup that fails is
-- left out.
mod Events
mod Reads
mod Tests
use tlpi_practice.Common.{
  ℕ, zero, suc, ◌+◌, ◌-◌, ◌*◌, ◌^◌, Bool, true, false, Option, none, some, List, [], ◌∷◌, ◌++◌, ltb,
  length, replicate, drop, if◌then◌else◌,
}
use tlpi_practice.Common.Bits.{has_flag}
use tlpi_practice.Common.CString.{cstring}
use tlpi_practice.Common.Decimal.{decimal}
use tlpi_practice.Common.Disk.{Bytes}
use tlpi_practice.Common.Text.{text}

pub record Node : Type 0 where
  pub wd : ℕ
  pub fpath : Bytes

-- `inotify_adder`, on the list behind `header`: `none` where inotify_add_watch fails.
unfoldable pub inotify_adder : Bytes → Option ℕ → List Node → Option (List Node)
inotify_adder fpath none header = none
inotify_adder fpath (some wd) header = some (record { wd = wd; fpath = fpath } ∷ header)

-- `nftw` calls it for each file of the tree.
unfoldable pub nftw : List (Bytes × Option ℕ) → List Node → Option (List Node)
unfolding inotify_adder
nftw [] header = some header
nftw ((fpath, wd) ∷ files) header = elim (inotify_adder fpath wd header) [
  | none ↦ none
  | some header' ↦ nftw files header'
]

-- `struct inotify_event`, with the bytes from its `name` on.
pub record Event : Type 0 where
  pub wd : ℕ
  pub mask : ℕ
  pub cookie : ℕ
  pub len : ℕ
  pub name : Bytes

abbrev pub header_size : ℕ
header_size = 16

-- Four bytes from index `i` on, the lowest first.
unfoldable pub word_at : Bytes → ℕ → ℕ
word_at bs i = elim (drop i bs) [ a ∷ b ∷ c ∷ d ∷ _ ↦ a + 256 * (b + 256 * (c + 256 * d)) | _ ↦ 0 ]

-- `(struct inotify_event *)p`
unfoldable pub event_at : Bytes → Event
unfolding word_at
event_at p = record {
  wd = word_at p 0;
  mask = word_at p 4;
  cookie = word_at p 8;
  len = word_at p 12;
  name = drop header_size p;
}

-- `%nd` of a 32-bit word, as an int.
unfoldable pub padded_int : ℕ → ℕ → Bytes
padded_int n w =
    let digits = if ltb w (2 ^ 31) then decimal w else b'-' ∷ decimal (2 ^ 32 - w) in
    replicate (n - length digits) b' ' ++ digits

-- `if (i->mask & flag) printf(word)`, one behind the other.
unfoldable pub flag_words : ℕ → List (ℕ × Bytes) → Bytes
flag_words mask [] = []
flag_words mask ((flag, word) ∷ more) =
    (if has_flag mask flag then word else []) ++ flag_words mask more

unfoldable pub flags : List (ℕ × Bytes)
flags =
    (0x1, text "IN_ACCESS ")
    ∷ (0x4, text "IN_ATTRIB ")
    ∷ (0x10, text "IN_CLOSE_NOWRITE ")
    ∷ (0x8, text "IN_CLOSE_WRITE ")
    ∷ (0x100, text "IN_CREATE ")
    ∷ (0x200, text "IN_DELETE ")
    ∷ (0x400, text "IN_DELETE_SELF ")
    ∷ (0x8000, text "IN_IGNORED ")
    ∷ (0x40000000, text "IN_ISDIR ")
    ∷ (0x2, text "IN_MODIFY ")
    ∷ (0x800, text "IN_MOVE_SELF ")
    ∷ (0x40, text "IN_MOVED_FROM ")
    ∷ (0x80, text "IN_MOVED_TO ")
    ∷ (0x20, text "IN_OPEN ")
    ∷ (0x4000, text "IN_Q_OVERFLOW ")
    ∷ (0x2000, text "IN_UNMOUNT ")
    ∷ []

-- What `displayInotifyEvent` prints.
unfoldable pub display_inotify_event : Event → Bytes
unfolding padded_int flag_words flags
display_inotify_event i =
    text "    wd ="
    ++ (padded_int 2 i.wd
        ++ (text "; "
            ++ ((if ltb 0 i.cookie
                  then text "cookie =" ++ (padded_int 4 i.cookie ++ text "; ")
                  else [])
                ++ (text "mask = "
                    ++ (flag_words i.mask flags
                        ++ (10
                            ∷ (if ltb 0 i.len
                                then text "        name = " ++ (cstring i.name ++ 10 ∷ [])
                                else [])))))))

-- `for (p = buffer; p < buffer + read_num;)`, `none` where the fuel is used up.
unfoldable pub show_events : ℕ → Bytes → ℕ → ℕ → Option Bytes
unfolding event_at display_inotify_event
show_events zero buffer read_num p = none
show_events (suc fuel) buffer read_num p =
    let event = event_at (drop p buffer) in
    let rest = show_events fuel buffer read_num (p + (header_size + event.len)) in
    if ltb p read_num
    then elim rest [ none ↦ none | some out ↦ some (display_inotify_event event ++ out) ]
    else some []

-- One `read`: the buffer behind it, and how many bytes it returns.
pub data Read : Type 0 where
  got : Bytes → ℕ → Read
  fails : Read

pub data Run : Type 0 where
  -- what has been printed when the program waits for the next event
  waits : Bytes → Run
  exits : Bytes → Run
  stuck : Run

-- `while (1)`. An event has 16 bytes at least, so that one round for each byte is enough.
unfoldable pub watch : List Read → Bytes → Run
unfolding show_events
watch [] out = waits out
watch (fails ∷ reads) out = exits out
watch (got buffer read_num ∷ reads) out = elim (show_events (suc read_num) buffer read_num 0) [
  | none ↦ stuck
  | some bs ↦ watch reads (out ++ bs)
]

-- `main` behind the check of its argument.
unfoldable pub main : List (Bytes × Option ℕ) → List Read → Run
unfolding nftw watch
main files reads = elim (nftw files []) [ none ↦ exits [] | some header ↦ watch reads [] ]
