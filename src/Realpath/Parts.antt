-- ===== src/Realpath/Parts.antt =====
-- 18-3-my_realpath.c: which parts of a path are looked at.
use tlpi_practice.Common.{
  ℕ, zero, suc, ◌+◌, ◌≡◌, ◌≢◌, ◌<◌, ◌≤◌, refl, sym, ap, ◌∙◌, true, false, Option, some, List, [],
  ◌∷◌, ◌++◌, length, drop, ◌==◌, map, arith, length-append,
}
use mathlib.Core.Bool.{false≢true}
use mathlib.Core.List.{append_assoc, append-nil}
use tlpi_practice.Common.CString.{cstring}
use tlpi_practice.Common.Disk.{Bytes}
use tlpi_practice.Common.Slices.{drop-append, drop-all}
use tlpi_practice.Getcwd.PathText.{join}
use tlpi_practice.Realpath.{
  Status, plain, returns, without_slash, begins_with_slash, step, walk, realpath,
}

-- A name without slash and NUL, of a byte at least.
unfoldable pub Clean : Bytes → Type 0
Clean [] = Unit {0}
Clean (b ∷ bs) = (b ≢ 0) × (b ≢ b'/') × Clean bs

unfoldable pub AllNames : List Bytes → Type 0
AllNames [] = Unit {0}
AllNames ([] ∷ ns) = ⊥
AllNames ((b ∷ bs) ∷ ns) = Clean (b ∷ bs) × AllNames ns

-- The rest of a path behind a name.
unfoldable zeroed : List Bytes → Bytes
zeroed [] = []
zeroed (n ∷ ns) = 0 ∷ (n ++ zeroed ns)

zeroed_name :
    (n rest : Bytes) → Clean n → map without_slash (n ++ rest) ≡ n ++ map without_slash rest
unfolding Clean
zeroed_name [] rest h = refl
zeroed_name (b ∷ bs) rest (not_nul, no_slash, h) =
    let test : (b == b'/') ≡ false = ground arith in rw (test, zeroed_name bs rest h) refl

zeroed-join : (ns : List Bytes) → AllNames ns → map without_slash (join ns) ≡ zeroed ns
unfolding AllNames join zeroed
zeroed-join [] h = refl
zeroed-join ([] ∷ ns) h = absurd h
zeroed-join ((b ∷ bs) ∷ ns) (clean, h) =
    ap (λ t. 0 ∷ t)
      (zeroed_name (b ∷ bs) (join ns) clean ∙ ap (λ t. (b ∷ bs) ++ t) (zeroed-join ns h))

cstring-Clean : (n : Bytes) (ns : List Bytes) → Clean n → cstring (n ++ zeroed ns) ≡ n
unfolding cstring Clean zeroed
cstring-Clean [] [] h = refl
cstring-Clean [] (m ∷ ms) h = refl
cstring-Clean (b ∷ bs) ns (not_nul, no_slash, h) =
    let test : (b == 0) ≡ false = ground arith in rw (test, cstring-Clean bs ns h) refl

abbrev behind_one : List Bytes → Bytes
behind_one [] = []
behind_one (n ∷ ns) = n ++ zeroed ns

next_part : (n : Bytes) (ns : List Bytes) → drop (length n + 1) (n ++ zeroed ns) ≡ behind_one ns
unfolding zeroed
next_part n [] =
    let size : length (n ++ []) ≤ length n + 1 = omega (arith, length-append n []) in
    drop-all (n ++ []) (length n + 1) size
next_part n (m ∷ ms) =
    let size : length n + 1 ≡ length (n ++ 0 ∷ []) = omega (arith, length-append n (0 ∷ [])) in
    ap (drop (length n + 1)) (sym (append_assoc n (0 ∷ []) (m ++ zeroed ms)))
    ∙ drop-append (n ++ 0 ∷ []) (m ++ zeroed ms) (length n + 1) size

-- Every part is there and is no link.
abbrev pub AllPlain : (Bytes → Status) → Bytes → List Bytes → Type 0
AllPlain status at [] = Unit {0}
AllPlain status at (n ∷ ns) =
    (status (at ++ b'/' ∷ n) ≡ plain) × AllPlain status (at ++ b'/' ∷ n) ns

-- One round of the walk.
walk_one :
    (status : Bytes → Status) (fuel b : ℕ) (bs : Bytes) (ns : List Bytes) (at : Bytes)
    → Clean (b ∷ bs)
    → status (at ++ b'/' ∷ b ∷ bs) ≡ plain
    → walk status (suc fuel) ((b ∷ bs) ++ zeroed ns) at
      ≡ walk status fuel (behind_one ns) (at ++ b'/' ∷ b ∷ bs)
unfolding walk step
walk_one status fuel b bs ns at clean here =
    rw (walk, cstring-Clean (b ∷ bs) ns clean, here, next_part (b ∷ bs) ns) refl

walk-join :
    (status : Bytes → Status) (fuel : ℕ) (n : Bytes) (ns : List Bytes) (at : Bytes)
    → AllNames (n ∷ ns)
    → AllPlain status at (n ∷ ns)
    → length ns + 1 < fuel
    → walk status fuel (n ++ zeroed ns) at ≡ returns (at ++ join (n ∷ ns))
unfolding walk step AllNames join zeroed cstring
walk-join status zero n ns at names found enough = absurd (omega (arith, enough))
walk-join status (suc fuel) [] ns at names found enough = absurd names
walk-join status (suc zero) n ns at names found enough = absurd (omega (arith, enough))
walk-join status (suc (suc fuel)) (b ∷ bs) [] at (clean, names) (here, found) enough =
    walk_one status (suc fuel) b bs [] at clean here
    ∙ ap (λ t. returns (at ++ b'/' ∷ t)) (sym (append-nil (b ∷ bs)))
walk-join status (suc (suc fuel)) (b ∷ bs) (m ∷ ms) at (clean, names) (here, found) enough =
    walk_one status (suc fuel) b bs (m ∷ ms) at clean here
    ∙ (walk-join status (suc fuel) m ms (at ++ b'/' ∷ b ∷ bs) names found (omega (arith, enough))
        ∙ ap returns (append_assoc at (b'/' ∷ b ∷ bs) (join (m ∷ ms))))

length-join_ge : (ns : List Bytes) → length ns ≤ length (join ns)
unfolding join
length-join_ge [] = omega arith
length-join_ge (n ∷ ns) = omega (arith, length-append n (join ns), length-join_ge ns)

-- The path of a directory below the working directory is resolved to the path of this one with its
-- parts behind it, where each of them is there and none is a link: the parts "." and ".." are kept
-- as they are.
pub realpath-join :
    (status : Bytes → Status) (cwd n : Bytes) (ns : List Bytes)
    → AllNames (n ∷ ns)
    → AllPlain status cwd (n ∷ ns)
    → realpath status (some cwd) (n ++ join ns) ≡ returns (cwd ++ join (n ∷ ns))
unfolding realpath AllNames Clean
realpath-join status cwd [] ns names found = absurd names
realpath-join status cwd (b ∷ bs) ns ((not_nul, no_slash, clean), names) found =
    let relative : (b == b'/') ≡ false = ground arith in
    let zeros : map without_slash ((b ∷ bs) ++ join ns) ≡ (b ∷ bs) ++ zeroed ns =
      zeroed_name (b ∷ bs) (join ns) (not_nul, no_slash, clean)
      ∙ ap (λ t. (b ∷ bs) ++ t) (zeroed-join ns names) in
    let enough : length ns + 1 < suc (length ((b ∷ bs) ++ join ns)) =
      omega (arith, length-append (b ∷ bs) (join ns), length-join_ge ns) in
    rw (realpath, relative)
      (ap (λ p. walk status (suc (length ((b ∷ bs) ++ join ns))) p cwd) zeros
        ∙ walk-join status (suc (length ((b ∷ bs) ++ join ns))) (b ∷ bs) ns cwd
            ((not_nul, no_slash, clean), names) found enough)

absolute_walk :
    (status : Bytes → Status) (fuel b : ℕ) (bs : Bytes)
    → (b == b'/') ≡ true
    → walk status (suc fuel) (map without_slash (b ∷ bs)) [] ≡ returns []
unfolding walk cstring
absolute_walk status fuel b bs h = rw h refl

-- A path that begins with a slash is resolved to the empty path, whatever it is.
pub realpath_absolute :
    (status : Bytes → Status) (cwd : Option Bytes) (path : Bytes)
    → begins_with_slash path ≡ true
    → realpath status cwd path ≡ returns []
unfolding realpath
realpath_absolute status cwd [] h = absurd (false≢true h)
realpath_absolute status cwd (b ∷ bs) h =
    rw (realpath, h) (absolute_walk status (length (b ∷ bs)) b bs h)
