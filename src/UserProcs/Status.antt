-- ===== src/UserProcs/Status.antt =====
-- 12-1-show_user_procs.c: which names are printed, for texts of the form that the kernel gives.
use tlpi_practice.Common.{
  ℕ, ◌<◌, ◌≡◌, Bool, true, false, Bool-cases, none, some, inl, inr, List, [], ◌∷◌, ◌++◌, ◌==◌,
  lt→ltb, length, arith, if◌then◌else◌,
}
use tlpi_practice.Acl.{id_of}
use tlpi_practice.Common.CString.{cstring}
use tlpi_practice.Common.Disk.{Bytes}
use tlpi_practice.Common.Text.{text}
use tlpi_practice.Environ.{is_prefix}
use tlpi_practice.Numbers.Long.{strtol}
use tlpi_practice.UserProcs.{
  goes, breaks, take_name, next_line, print_name, take_uid, then_scan, end_line, scan, strstr, size,
  name_size, fresh,
}
use tlpi_practice.UserProcs.Lines.{
  state, Plain, lines, end_line_lem, AllQuiet, scan-line, scan-last, scan-quiet,
}

-- What the buffer has after the first read: the name in the first line, a line with the uid, and
-- other lines around it. `last` has no end of line, and what was in the buffer before is part of it.
pub record Process : Type 0 where
  pub name : Bytes
  pub above : List Bytes
  pub uid : Bytes
  pub below : List Bytes
  pub last : Bytes

abbrev pub first_line : Bytes → Bytes
first_line name = text "Name:\t" ++ name

abbrev pub uid_line : Bytes → Bytes
uid_line uid = text "Uid:\t" ++ uid

abbrev pub status : Process → Bytes
status p = first_line p.name ++ 10 ∷ lines p.above (uid_line p.uid ++ 10 ∷ lines p.below p.last)

unfoldable pub FirstLine : Bytes → Type 0
FirstLine name =
    Plain (first_line name)
    × (cstring (first_line name) ≡ first_line name)
    × (length name < 100)
    × (strstr (text "Uid:") (first_line name) ≡ none)

unfoldable pub UidLine : Bytes → Type 0
UidLine uid =
    Plain (uid_line uid)
    × (cstring (10 ∷ uid_line uid) ≡ 10 ∷ uid_line uid)
    × (length uid < 1000)
    × (strstr (text "Name:") (10 ∷ uid_line uid) ≡ none)

unfoldable pub LastLine : Bytes → Type 0
LastLine last = Plain last × (length last < 1023)

unfoldable pub Good : Process → Type 0
unfolding FirstLine AllQuiet UidLine LastLine
Good p = FirstLine p.name × AllQuiet p.above × UidLine p.uid × AllQuiet p.below × LastLine p.last

-- Whether the first number of the line is the uid that is asked for.
abbrev pub is_of : ℕ → Process → Bool
is_of uid p = id_of ((strtol p.uid 10).res) == uid

abbrev pub shown : ℕ → Process → Bytes
shown uid p = if is_of uid p then p.name ++ 10 ∷ [] else []

take_name_lem :
    (name out : Bytes)
    → length name < 100
    → take_name (strstr (text "Name:") (first_line name)) (state (first_line name) none false out)
      ≡ goes (state (first_line name) (some name) false out)
unfolding take_name text strstr is_prefix
take_name_lem name out h =
    rw (lt→ltb 5 (length (first_line name)) (omega arith), lt→ltb (length name) name_size h)

end_line-first :
    (uid : ℕ) (name out : Bytes)
    → FirstLine name
    → end_line uid (state (first_line name) none false out)
      ≡ goes (state (10 ∷ []) (some name) false out)
unfolding then_scan take_uid next_line FirstLine text
end_line-first uid name out (p, c, h, u) =
    let short : length (first_line name) < size = omega arith in
    rw (end_line_lem uid (first_line name) none false out c short, take_name_lem name out h, u)

take_uid_lem :
    (u : ℕ) (uid name out : Bytes)
    → take_uid u
        (strstr (text "Uid:") (10 ∷ uid_line uid))
        (state (10 ∷ uid_line uid) (some name) false out)
      ≡ (if id_of ((strtol uid 10).res) == u
          then goes (state (10 ∷ []) (some name) true (out ++ (name ++ 10 ∷ [])))
          else breaks (state (10 ∷ uid_line uid) (some name) true out))
unfolding take_uid next_line print_name text strstr is_prefix
take_uid_lem u uid name out = rw (lt→ltb 4 (length (uid_line uid)) (omega arith))

end_line-uid :
    (u : ℕ) (uid name out : Bytes)
    → UidLine uid
    → end_line u (state (10 ∷ uid_line uid) (some name) false out) ≡ (
        if id_of ((strtol uid 10).res) == u
        then goes (state (10 ∷ []) (some name) true (out ++ (name ++ 10 ∷ [])))
        else breaks (state (10 ∷ uid_line uid) (some name) true out))
unfolding then_scan take_name UidLine text
end_line-uid u uid name out (p, c, h, n) =
    let short : length (10 ∷ uid_line uid) < size = omega arith in
    rw (
      end_line_lem u (10 ∷ uid_line uid) (some name) false out c short,
      n,
      take_uid_lem u uid name out,
    )

pub scan-status :
    (uid : ℕ) (p : Process) (out : Bytes)
    → Good p
    → scan uid (status p) (fresh out) ≡ (
        if is_of uid p
        then goes (state (10 ∷ p.last) (some p.name) true (out ++ (p.name ++ 10 ∷ [])))
        else breaks (state (10 ∷ uid_line p.uid) (some p.name) true out))
unfolding Good FirstLine UidLine LastLine then_scan text
scan-status uid p out ((f, fc, fl, fu), above, (u, uc, ul, un), below, (l, ll)) =
    let rest : Bytes = lines p.below p.last in
    rw
      (
        scan-line uid (first_line p.name) (lines p.above (uid_line p.uid ++ 10 ∷ rest)) [] none
            false out f (omega arith),
        end_line-first uid p.name out (f, fc, fl, fu),
        scan-quiet uid p.above (uid_line p.uid ++ 10 ∷ rest) (some p.name) false out above,
        scan-line uid (uid_line p.uid) rest (10 ∷ []) (some p.name) false out u (omega arith),
        end_line-uid uid p.uid p.name out (u, uc, ul, un),
      )
      (elim (Bool-cases (is_of uid p)) [
        | inl e ↦
            let out' : Bytes = out ++ (p.name ++ 10 ∷ []) in
            rw (
              e,
              scan-quiet uid p.below p.last (some p.name) true out' below,
              scan-last uid p.last (10 ∷ []) (some p.name) true out' l (omega arith),
            )
        | inr e ↦ rw e
      ])
