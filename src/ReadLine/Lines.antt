-- ===== src/ReadLine/Lines.antt =====
-- 59-1-readLine.c: a line that lies inside the buffer of its descriptor.
use mathlib.Core.List.{append-nil, append_assoc}
use tlpi_practice.Common.{
  ℕ, zero, suc, ◌+◌, ◌<◌, ◌≡◌, refl, sym, ap, ◌∙◌, subst, true, false, some, List, [], ◌∷◌, ◌++◌,
  length, length-append, get_elem?, ltb, ◌==◌, arith, Bool-cases, inl, inr,
}
use mathlib.Core.Option.{some-injective}
use tlpi_practice.Common.Disk.{Bytes}
use tlpi_practice.ReadLine.{Buffer, Read, returns, copy_line, find, put_back, finish_old, read_line}

unfoldable pub NoNewline : Bytes → Type 0
NoNewline [] = Unit {0}
NoNewline (b ∷ bs) = ((b == b'\n') ≡ false) × NoNewline bs

get_elem?-append :
    (front rest : Bytes) (x n : ℕ) → n ≡ length front → get_elem? (front ++ x ∷ rest) n ≡ some x
get_elem?-append [] rest x zero h = refl
get_elem?-append [] rest x (suc n) h = absurd (omega arith)
get_elem?-append (f ∷ front) rest x zero h = absurd (omega arith)
get_elem?-append (f ∷ front) rest x (suc n) h = get_elem?-append front rest x n (omega arith)

-- The rest of a line, whose newline is not the last byte of the buffer.
copy_line-line :
    (xs front rest : Bytes) (k i : ℕ) (b : Buffer) (out : Bytes) (rs : List Read)
    → b.buf ≡ front ++ (xs ++ b'\n' ∷ rest)
    → length front ≡ b.cur + i
    → b.cur + i + length xs + 1 < b.size
    → NoNewline xs
    → length xs < k
    → copy_line k i b out rs ≡ returns (some (i + length xs)) (out ++ xs) (some b) rs
unfolding copy_line NoNewline
copy_line-line xs front rest zero i b out rs e at room no_nl enough = absurd (omega arith)
copy_line-line [] front rest (suc k) i b out rs e at room no_nl enough =
    let here : get_elem? b.buf (b.cur + i) ≡ some b'\n' =
      rw e (get_elem?-append front rest b'\n' (b.cur + i) (sym at)) in
    let inside : ltb (b.cur + i + 1) b.size ≡ true = ground arith in
    let all : i + 0 ≡ i = omega arith in rw (copy_line, here, inside, all, append-nil out) refl
copy_line-line (x ∷ xs) front rest (suc k) i b out rs e at room (other, no_nl) enough =
    let here : get_elem? b.buf (b.cur + i) ≡ some x =
      rw e (get_elem?-append front (xs ++ b'\n' ∷ rest) x (b.cur + i) (sym at)) in
    let inside : ltb (b.cur + i + 1) b.size ≡ true = ground arith in
    let next : b.buf ≡ (front ++ x ∷ []) ++ (xs ++ b'\n' ∷ rest) =
      e ∙ sym (append_assoc front (x ∷ []) (xs ++ b'\n' ∷ rest)) in
    let ih =
      copy_line-line xs (front ++ x ∷ []) rest k (suc i) b (out ++ x ∷ []) rs next
        (omega (arith, length-append front (x ∷ []))) (omega arith) no_nl (omega arith) in
    let count : suc i + length xs ≡ i + suc (length xs) = omega arith in
    rw (copy_line, here, inside, other)
      (subst
        (λ c.
          copy_line k (suc i) b (out ++ x ∷ []) rs ≡ returns (some c) (out ++ x ∷ xs) (some b) rs)
        count
        (subst
          (λ o.
            copy_line k (suc i) b (out ++ x ∷ []) rs
            ≡ returns (some (suc i + length xs)) o (some b) rs)
          (append_assoc out (x ∷ []) xs) ih))

put_back-find :
    (fd : ℕ) (nodes : List Buffer) (b : Buffer)
    → find fd nodes ≡ some b
    → put_back fd (some b) nodes ≡ nodes
unfolding find put_back
put_back-find fd [] b e = refl
put_back-find fd (n ∷ ns) b e = elim (Bool-cases (n.fd == fd)) [
  | inl same ↦
      let h : some n ≡ some b = rw (find, same) at e in
      rw (put_back, same) (ap (λ v. v ∷ ns) (sym (some-injective _ _ h)))
  | inr other ↦
      let h : find fd ns ≡ some b = rw (find, other) at e in
      rw (put_back, other, put_back-find fd ns b h) refl
]

-- A line that lies inside the buffer of its descriptor, with a byte behind its newline, and that is
-- shorter than the caller's buffer, is copied without its newline, and its length is returned; but
-- nothing is changed, and so the next call returns the same line again.
pub read_line-line :
    (malloc : Bytes) (fd n : ℕ) (nodes : List Buffer) (rs : List Read) (b : Buffer)
    (front xs rest : Bytes)
    → find fd nodes ≡ some b
    → b.buf ≡ front ++ (xs ++ b'\n' ∷ rest)
    → length front ≡ b.cur
    → b.cur + length xs + 1 < b.size
    → NoNewline xs
    → length xs < n
    → read_line malloc fd n nodes rs ≡ returns (some (length xs)) xs nodes rs
unfolding read_line finish_old
read_line-line malloc fd n nodes rs b front xs rest found e at room no_nl enough =
    let at' : length front ≡ b.cur + 0 = omega (arith, at) in
    let copied = copy_line-line xs front rest n 0 b [] rs e at' (omega arith) no_nl enough in
    let count : 0 + length xs ≡ length xs = omega arith in
    rw (read_line, found, copied, count, put_back-find fd nodes b found) refl
