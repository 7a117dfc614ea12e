-- ===== src/UserProcs/Lines.antt =====
-- 12-1-show_user_procs.c: what becomes of a whole line, and of lines that name nothing.
use tlpi_practice.Common.{
  ℕ, suc, ◌+◌, ◌<◌, ◌≡◌, refl, ap, Bool, false, Option, none, List, [], ◌∷◌, ◌++◌, ◌==◌, lt→ltb,
  length, arith,
}
use mathlib.Core.List.{append_assoc, append-nil}
use tlpi_practice.Common.CString.{cstring}
use tlpi_practice.Common.Disk.{Bytes}
use tlpi_practice.Common.Text.{text}
use tlpi_practice.UserProcs.{
  State, goes, put, take_name, next_line, take_uid, then_scan, end_line, scan, strstr, size,
}

abbrev pub state : Bytes → Option Bytes → Bool → Bytes → State
state line name over out = record { line = line; name = name; over = over; out = out }

unfoldable pub Plain : Bytes → Type 0
Plain [] = Unit {0}
Plain (b ∷ bs) = ((b == 10) ≡ false) × Plain bs

unfoldable pub lines : List Bytes → Bytes → Bytes
lines [] rest = rest
lines (l ∷ ls) rest = l ++ 10 ∷ lines ls rest

-- A line that is read whole and has neither of the two words.
unfoldable pub Quiet : Bytes → Type 0
Quiet l =
    Plain l
    × (cstring (10 ∷ l) ≡ 10 ∷ l)
    × (length l < 1023)
    × (strstr (text "Name:") (10 ∷ l) ≡ none)
    × (strstr (text "Uid:") (10 ∷ l) ≡ none)

unfoldable pub AllQuiet : List Bytes → Type 0
unfolding Quiet
AllQuiet [] = Unit {0}
AllQuiet (l ∷ ls) = Quiet l × AllQuiet ls

length-snoc : (l : Bytes) (b : ℕ) → length (l ++ b ∷ []) ≡ suc (length l)
length-snoc [] b = refl
length-snoc (a ∷ l) b = ap suc (length-snoc l b)

put_lem :
    (b : ℕ) (line : Bytes) (name : Option Bytes) (over : Bool) (out : Bytes)
    → length line < size
    → put b (state line name over out) ≡ goes (state (line ++ b ∷ []) name over out)
unfolding put
put_lem b line name over out h = rw (lt→ltb (length line) size h)

pub scan-line :
    (uid : ℕ) (l rest line : Bytes) (name : Option Bytes) (over : Bool) (out : Bytes)
    → Plain l
    → length line + length l < size
    → scan uid (l ++ 10 ∷ rest) (state line name over out)
      ≡ then_scan (end_line uid (state (line ++ l) name over out)) (scan uid rest)
unfolding scan then_scan Plain
scan-line uid [] rest line name over out p h = rw (append-nil line)
scan-line uid (b ∷ l) rest line name over out (e, p) h =
    let longer : length (line ++ b ∷ []) + length l < size =
      rw (length-snoc line b) (omega arith) in
    rw (
      e,
      put_lem b line name over out (omega arith),
      scan-line uid l rest (line ++ b ∷ []) name over out p longer,
      append_assoc line (b ∷ []) l,
    )

pub scan-last :
    (uid : ℕ) (l line : Bytes) (name : Option Bytes) (over : Bool) (out : Bytes)
    → Plain l
    → length line + length l < size
    → scan uid l (state line name over out) ≡ goes (state (line ++ l) name over out)
unfolding scan then_scan Plain
scan-last uid [] line name over out p h = rw (append-nil line)
scan-last uid (b ∷ l) line name over out (e, p) h =
    let longer : length (line ++ b ∷ []) + length l < size =
      rw (length-snoc line b) (omega arith) in
    rw (
      e,
      put_lem b line name over out (omega arith),
      scan-last uid l (line ++ b ∷ []) name over out p longer,
      append_assoc line (b ∷ []) l,
    )

pub end_line_lem :
    (uid : ℕ) (line : Bytes) (name : Option Bytes) (over : Bool) (out : Bytes)
    → cstring line ≡ line
    → length line < size
    → end_line uid (state line name over out)
      ≡ then_scan
          (take_name (strstr (text "Name:") line) (state line name over out))
          (take_uid uid (strstr (text "Uid:") line))
unfolding end_line
end_line_lem uid line name over out c h = rw (c, lt→ltb (length line) size h)

end_line-Quiet :
    (uid : ℕ) (l : Bytes) (name : Option Bytes) (over : Bool) (out : Bytes)
    → Quiet l
    → end_line uid (state (10 ∷ l) name over out) ≡ goes (state (10 ∷ []) name over out)
unfolding then_scan take_name take_uid next_line Quiet
end_line-Quiet uid l name over out (p, c, h, n, u) =
    rw (end_line_lem uid (10 ∷ l) name over out c (omega arith), n, u)

pub scan-quiet :
    (uid : ℕ) (ls : List Bytes) (rest : Bytes) (name : Option Bytes) (over : Bool) (out : Bytes)
    → AllQuiet ls
    → scan uid (lines ls rest) (state (10 ∷ []) name over out)
      ≡ scan uid rest (state (10 ∷ []) name over out)
unfolding lines AllQuiet Quiet then_scan
scan-quiet uid [] rest name over out h = refl
scan-quiet uid (l ∷ ls) rest name over out ((p, c, h, n, u), qs) = rw (
  scan-line uid l (lines ls rest) (10 ∷ []) name over out p (omega arith),
  end_line-Quiet uid l name over out (p, c, h, n, u),
  scan-quiet uid ls rest name over out qs,
)
