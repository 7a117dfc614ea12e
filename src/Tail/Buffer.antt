-- ===== src/Tail/Buffer.antt =====
-- Lines of text, and the buffers of 13-5-my_tail.c.
use tlpi_practice.Common.{
  ℕ, zero, suc, ◌+◌, ◌%◌, ◌≤◌, ◌<◌, ◌≡◌, ◌≢◌, refl, ap, true, false, Option, some, List, [], ◌∷◌,
  ◌++◌, arith, ltb, ◌==◌, if◌then◌else◌, length, length-append, length-drop, get_elem?, drop,
}
use native.Mathlib.Nat.{div-add-mod}
use tlpi_practice.Common.Disk.{Bytes}
use tlpi_practice.Common.Slices.{overlay-append_left}
use tlpi_practice.Tail.{Line, ok, store}

-- The lines of a text, `pending` being what has been read of the first; a last line needs no newline.
unfoldable pub text_lines : Bytes → Bytes → List Bytes
text_lines [] [] = []
text_lines (p ∷ pending) [] = (p ∷ pending) ∷ []
text_lines pending (b ∷ bs) =
    if b == b'\n' then pending ∷ text_lines [] bs else text_lines (pending ++ b ∷ []) bs

-- `realloc` succeeds, and keeps what is in the buffer.
pub record IsRealloc (realloc : Bytes → ℕ → Option Bytes) : Type 0 where
  pub rest : Bytes → ℕ → Bytes
  pub grows : (b : Bytes) (n : ℕ) → length b ≤ n → realloc b n ≡ some (b ++ rest b n)
  pub sized : (b : Bytes) (n : ℕ) → length b ≤ n → length (b ++ rest b n) ≡ n

-- Two numbers less than `n` apart have different remainders.
pub mod_ne : (k c n : ℕ) → k < c → c < k + n → k % n ≢ c % n
mod_ne k c n h h' e = grind (arith, div-add-mod k n, div-add-mod c n)

-- The size of a buffer does not change when a byte is stored in it.
pub stored_size :
    (l : Line) (pending old : Bytes) (b : ℕ)
    → l.buf ≡ pending ++ old
    → 0 < length old
    → length l.buf ≡ l.size
    → length (pending ++ b ∷ drop 1 old) ≡ l.size
stored_size l pending old b e h size = omega (
  arith,
  ap length e,
  length-append pending old,
  length-append pending (b ∷ drop 1 old),
  length-drop 1 old,
)

pub lt_of_get_elem? {ℓ} :
    {A : Type ℓ} (xs : List A) (k : ℕ) (t : A) → get_elem? xs k ≡ some t → k < length xs
lt_of_get_elem? [] k t h = cc
lt_of_get_elem? (x ∷ xs) zero t h = omega arith
lt_of_get_elem? (x ∷ xs) (suc k) t h = omega (arith, lt_of_get_elem? xs k t h)

pub ne_of_mod : {a b : ℕ} → a ≢ b → (a == b) ≡ false
ne_of_mod {a} {b} h = ground arith

pub some_lines_iff : (n : ℕ) → 0 < n → (n == 0) ≡ false
some_lines_iff n h = ground arith

-- A buffer that begins with `pending` and has more room.
pub store-ok :
    (l : Line) (pending old : Bytes) (b : ℕ)
    → l.buf ≡ pending ++ old
    → 0 < length old
    → store l (length pending) b ≡ ok (record l { buf = pending ++ b ∷ drop 1 old })
unfolding store
store-ok l pending old b e h =
    let room : ltb (length pending) (length (pending ++ old)) ≡ true =
      ground (arith, length-append pending old) in
    rw (e, room, overlay-append_left pending old (b ∷ []) (length pending) refl)
