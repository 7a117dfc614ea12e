-- ===== src/Vectors/Gather.antt =====
-- `my_writev` writes the entries one behind the other, in one call.
use tlpi_practice.Common.{
  ℕ, ◌+◌, ◌≡◌, refl, ap, ◌∙◌, List, [], ◌∷◌, ◌++◌, arith, length, length-append, length-drop, drop,
}
use mathlib.Core.List.{append_assoc, flatten}
use tlpi_practice.Common.Disk.{Bytes}
use tlpi_practice.Common.Slices.{overlay-append_left}
use tlpi_practice.Vectors.{total_space, gather, my_writev}

pub total_space-flatten : (iov : List Bytes) → total_space iov ≡ length (flatten iov)
unfolding total_space flatten
total_space-flatten [] = refl
total_space-flatten (v ∷ vs) = omega (arith, total_space-flatten vs, length-append v (flatten vs))

nil_of_length : (bs : Bytes) → length bs ≡ 0 → bs ≡ []
nil_of_length [] h = refl
nil_of_length (b ∷ bs) h = absurd (omega arith)

-- `pre` is what has been copied, `old` what `malloc` left in the rest of the buffer.
gather-flatten :
    (iov : List Bytes) (pre old : Bytes) (cnt : ℕ)
    → cnt ≡ length pre
    → length old ≡ total_space iov
    → gather (pre ++ old) cnt iov ≡ pre ++ flatten iov
unfolding gather flatten total_space
gather-flatten [] pre old cnt h e = rw (nil_of_length old e)
gather-flatten (v ∷ vs) pre old cnt h e = rw (overlay-append_left pre old v cnt h) (
    rw (← append_assoc pre v (drop (length v) old)) (
      gather-flatten vs (pre ++ v) (drop (length v) old) (cnt + length v)
        (omega (arith, length-append pre v)) (omega (arith, length-drop (length v) old)))
    ∙ append_assoc pre v (flatten vs))

-- `my_writev` is one `write` of the entries one behind the other, whatever `malloc` left in its buffer.
pub my_writev-flatten {ℓ} :
    {R : Type ℓ} (malloc : ℕ → Bytes) (write : Bytes → R) (iov : List Bytes)
    → ((n : ℕ) → length (malloc n) ≡ n)
    → my_writev malloc write iov ≡ write (flatten iov)
unfolding my_writev
my_writev-flatten malloc write iov sized =
    ap write (gather-flatten iov [] (malloc (total_space iov)) 0 refl (sized (total_space iov)))
