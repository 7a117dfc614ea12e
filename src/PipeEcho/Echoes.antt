-- ===== src/PipeEcho/Echoes.antt =====
-- 44-1-pipe_echo.c: what is printed.
use tlpi_practice.Common.{
  ℕ, zero, suc, ◌≡◌, ◌≢◌, refl, sym, ap, ◌∙◌, false, none, some, List, [], ◌∷◌, ◌++◌, ◌==◌, map,
  replicate, arith,
}
use mathlib.Core.List.{append_assoc, append-nil}
use tlpi_practice.Common.CString.{cstring}
use tlpi_practice.Common.Disk.{Bytes}
use tlpi_practice.Getcwd.PathText.{NulFree, AllNulFree}
use tlpi_practice.PipeEcho.{toupper, raise, round, rounds}

toupper_not_nul : (c : ℕ) → c ≢ 0 → toupper c ≢ 0
toupper_not_nul c h = ground arith

ne_test : {a b : ℕ} → a ≢ b → (a == b) ≡ false
ne_test ne = ground arith

toupper_twice : (c : ℕ) → toupper (toupper c) ≡ toupper c
toupper_twice c = ground arith

unfoldable pub concat : List Bytes → Bytes
concat [] = []
concat (b ∷ bs) = b ++ concat bs

cstring-raise : (line : Bytes) → NulFree line → cstring (raise (line ++ 0 ∷ [])) ≡ map toupper line
unfolding cstring raise NulFree
cstring-raise [] h = refl
cstring-raise (c ∷ cs) (not_nul, h) =
    let test : (c == 0) ≡ false = ground arith in
    let kept = toupper_not_nul c not_nul in
    let test' : (toupper c == 0) ≡ false = ne_test kept in rw (test, test', cstring-raise cs h) refl

NulFree-upper : (line : Bytes) → NulFree line → NulFree (map toupper line)
unfolding NulFree
NulFree-upper [] h = tt
NulFree-upper (c ∷ cs) (not_nul, h) = (toupper_not_nul c not_nul, NulFree-upper cs h)

upper_twice : (line : Bytes) → map toupper (map toupper line) ≡ map toupper line
upper_twice [] = refl
upper_twice (c ∷ cs) = rw (toupper_twice c, upper_twice cs) refl

abbrev upper : List Bytes → List Bytes
upper lines = map (map toupper) lines

-- The last line in upper case, or what was in the buffer.
unfoldable last_of : List Bytes → Bytes → Bytes
last_of [] buf = buf
last_of (l ∷ ls) buf = last_of ls (map toupper l)

lines_printed :
    (lines : List Bytes) (buf out : Bytes)
    → AllNulFree lines
    → rounds (map some lines) buf out ≡ (last_of lines buf, out ++ concat (upper lines))
unfolding rounds round AllNulFree concat last_of
lines_printed [] buf out h = ap (λ o. (buf, o)) (sym (append-nil out))
lines_printed (l ∷ ls) buf out (free, h) =
    ap (λ b. rounds (map some ls) b (out ++ b)) (cstring-raise l free)
    ∙ (lines_printed ls (map toupper l) (out ++ map toupper l) h
        ∙ ap (λ o. (last_of ls (map toupper l), o))
            (append_assoc out (map toupper l) (concat (upper ls))))

-- The lines that are typed are printed in upper case, each once and in their order.
pub rounds-upper :
    (lines : List Bytes)
    → AllNulFree lines
    → (rounds (map some lines) [] []).1 ≡ concat (upper lines)
rounds-upper lines h = ap (λ r. r.1) (lines_printed lines [] [] h)

ends_printed :
    (n : ℕ) (line out : Bytes)
    → NulFree line
    → (rounds (replicate n none) (map toupper line) out).1
      ≡ out ++ concat (replicate n (map toupper line))
unfolding rounds round concat
ends_printed zero line out h = sym (append-nil out)
ends_printed (suc n) line out h =
    let again : cstring (raise (map toupper line ++ 0 ∷ [])) ≡ map toupper line =
      cstring-raise (map toupper line) (NulFree-upper line h) ∙ upper_twice line in
    ap (λ b. (rounds (replicate n none) b (out ++ b)).1) again
    ∙ (ends_printed n line (out ++ map toupper line) h
        ∙ append_assoc out (map toupper line) (concat (replicate n (map toupper line))))

-- Behind the end of the input the last line is printed again in each round, and the program does not
-- end.
pub rounds_end :
    (n : ℕ) (line : Bytes)
    → NulFree line
    → (rounds (some line ∷ replicate n none) [] []).1
      ≡ map toupper line ++ concat (replicate n (map toupper line))
unfolding rounds round
rounds_end n line h =
    ap (λ b. (rounds (replicate n none) b ([] ++ b)).1) (cstring-raise line h)
    ∙ ends_printed n line (map toupper line) h
