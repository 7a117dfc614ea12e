-- ===== src/Vectors/Scatter.antt =====
-- `my_readv` fills the entries in order with what `read` returned.
use tlpi_practice.Common.{
  ℕ, zero, suc, ◌+◌, ◌-◌, ◌≤◌, ◌≡◌, refl, true, inl, inr, Option, some, List, map, [], ◌∷◌, ◌++◌,
  arith, ltb, length, Bool-cases, length-append, length-drop, take, drop,
}
use mathlib.Core.List.{flatten}
use tlpi_practice.Common.Disk.{Bytes, overlay}
use tlpi_practice.Common.Slices
use tlpi_practice.Common.Slices.{overlay-append_left, overlay-zero}
use tlpi_practice.Vectors.{total_space, scatter, part_size, Read, bytes, my_readv}
use tlpi_practice.Vectors.Spread.{scatter-flatten}

-- The entries keep their lengths.
length-overlay_zero : (v bs : Bytes) → length bs ≤ length v → length (overlay v 0 bs) ≡ length v
length-overlay_zero v bs h =
    rw (overlay-zero v bs)
      (omega (arith, length-append bs (drop (length bs) v), length-drop (length bs) v))

length-take_ge : (n : ℕ) (bs : Bytes) → length (take n bs) ≤ n
length-take_ge zero bs = omega arith
length-take_ge (suc n) [] = omega arith
length-take_ge (suc n) (b ∷ bs) = omega (arith, length-take_ge n bs)

part_size-le : (left len : ℕ) → part_size left len ≤ len
part_size-le left len = ground arith

scatter_shape :
    (iov : List Bytes) (buffer : Bytes) (total ind : ℕ)
    → map length (scatter total buffer ind iov) ≡ map length iov
unfolding scatter
scatter_shape [] buffer total ind = refl
scatter_shape (v ∷ vs) buffer total ind = elim (Bool-cases (ltb ind total)) [
  | inl more ↦
      let size = part_size (total - ind) (length v) in
      let fits : length (take size (drop ind buffer)) ≤ length v =
        omega
          (arith, length-take_ge size (drop ind buffer), part_size-le (total - ind) (length v)) in
      rw (
        more,
        length-overlay_zero v (take size (drop ind buffer)) fits,
        scatter_shape vs buffer total (ind + size),
      )
  | inr done ↦ rw done
]

-- What `my_readv` returns and leaves in the entries when `read` has returned `bs`: the entries, one
-- behind the other, begin with `bs`, are unchanged behind it, and keep their lengths.
pub record Filled (iov : List Bytes) (bs : Bytes) (r : Option ℕ × List Bytes) : Type 0 where
  pub result : r.0 ≡ some (length bs)
  pub content : flatten r.1 ≡ bs ++ drop (length bs) (flatten iov)
  pub shape : map length r.1 ≡ map length iov

-- If `read` returns at most as many bytes as all entries hold, `my_readv` returns their number, puts
-- them into the entries in order, and leaves the rest of the entries and all lengths unchanged.
pub my_readv-Filled :
    (malloc : ℕ → Bytes) (read : ℕ → Read) (iov : List Bytes) (bs : Bytes)
    → ((n : ℕ) → length (malloc n) ≡ n)
    → read (total_space iov) ≡ bytes bs
    → length bs ≤ total_space iov
    → Filled iov bs (my_readv malloc read iov)
unfolding my_readv
my_readv-Filled malloc read iov [] sized got fits =
    rw (got, my_readv) (record { result = refl; content = refl; shape = refl })
my_readv-Filled malloc read iov (b ∷ bs) sized got fits =
    let junk = drop (length (b ∷ bs)) (malloc (total_space iov)) in
    let more : ltb 0 (length (b ∷ bs)) ≡ true = ground arith in
    rw (got, my_readv, more, overlay-zero (malloc (total_space iov)) (b ∷ bs))
      (record {
        result = refl;
        content = scatter-flatten iov [] (b ∷ bs) junk (length (b ∷ bs)) 0 refl (omega arith) fits;
        shape = scatter_shape iov ((b ∷ bs) ++ junk) (length (b ∷ bs)) 0;
      })
