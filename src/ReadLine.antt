-- ===== src/ReadLine.antt =====
-- 59-1-readLine.c: `readLine`, with a buffer for each descriptor that it has read from.
mod Lines
mod Tests
use tlpi_practice.Common.{
  ℕ, zero, suc, ◌+◌, Bool, true, false, Option, none, some, List, [], ◌∷◌, ◌++◌, length, get_elem?,
  ltb, ◌==◌, if◌then◌else◌,
}
use tlpi_practice.Common.Disk.{Bytes, overlay}

-- A node of the list; `buf` has the bytes that it was allocated with.
pub record Buffer : Type 0 where
  pub fd : ℕ
  pub cur : ℕ
  pub size : ℕ
  pub buf : Bytes

-- What `read` returns: -1 with EINTR or another error, or bytes, which are none at the end.
pub data Read : Type 0 where
  eintr error : Read
  bytes : Bytes → Read

-- How the loop or the function ends: with a count, what is in the caller's buffer and the buffers,
-- where a freed node is none in the loop; or by a read of memory that is freed, or of memory behind
-- the buffer; or with a list that has become a circle.
pub data Result {ℓ} (A : Type ℓ) : Type ℓ where
  returns : Option ℕ → Bytes → A → List Read → Result A
  use_after_free : Result A
  overrun : Result A
  circle : Result A

-- The loop that fills the buffer of a new node, of which `malloc` gives the bytes.
unfoldable pub fill : ℕ → Bytes → List Read → Option Buffer × List Read
fill fd malloc [] = (none, [])
fill fd malloc (eintr ∷ rs) = fill fd malloc rs
fill fd malloc (error ∷ rs) = (none, rs)
fill fd malloc (bytes [] ∷ rs) = (none, rs)
fill fd malloc (bytes (b ∷ bs) ∷ rs) =
    let node : Buffer = record {
      fd = fd;
      cur = 0;
      size = length (b ∷ bs);
      buf = overlay malloc 0 (b ∷ bs);
    } in
    (some node, rs)

-- The call of `read` in the loop, which frees the node where it returns nothing.
unfoldable pub refill : Buffer → List Read → Option Buffer × List Read
refill b [] = (none, [])
refill b (bytes (c ∷ cs) ∷ rs) =
    (some (record b { cur = 0; size = length (c ∷ cs); buf = overlay b.buf 0 (c ∷ cs) }), rs)
refill b (_ ∷ rs) = (none, rs)

-- The `for`, with `k` rounds to go, from round `i` on; `out` is what has been copied.
unfoldable pub copy_line : ℕ → ℕ → Buffer → Bytes → List Read → Result (Option Buffer)
unfolding refill
copy_line zero i b out rs = returns (some i) out (some b) rs
copy_line (suc k) i b out rs = elim (get_elem? b.buf (b.cur + i)) [
  | none ↦ overrun
  | some ch ↦
      if ltb (b.cur + i + 1) b.size
      then (if ch == b'\n'
          then returns (some i) out (some b) rs
          else copy_line k (suc i) b (out ++ ch ∷ []) rs)
      else elim (refill b rs).0 [
        | some b' ↦
            if ch == b'\n'
            then returns (some i) out (some b') (refill b rs).1
            else copy_line k (suc i) b' (out ++ ch ∷ []) (refill b rs).1
        | none ↦
            if ch == b'\n'
            then returns (some i) out none (refill b rs).1
            else if k == 0
            then returns (some (suc i)) (out ++ ch ∷ []) none (refill b rs).1
            else use_after_free
      ]
]

unfoldable pub find : ℕ → List Buffer → Option Buffer
find fd [] = none
find fd (b ∷ bs) = if b.fd == fd then some b else find fd bs

-- The node of the descriptor as the loop leaves it, or without it.
unfoldable pub put_back : ℕ → Option Buffer → List Buffer → List Buffer
put_back fd new [] = []
put_back fd new (b ∷ bs) =
    let rest = put_back fd new bs in
    if b.fd == fd then elim new [ none ↦ bs | some b' ↦ b' ∷ bs ] else b ∷ rest

-- The end of a call for a descriptor that is in the list.
unfoldable pub finish_old : ℕ → List Buffer → Result (Option Buffer) → Result (List Buffer)
unfolding put_back
finish_old fd nodes (returns n out new rs) = returns n out (put_back fd new nodes) rs
finish_old fd nodes use_after_free = use_after_free
finish_old fd nodes overrun = overrun
finish_old fd nodes circle = circle

-- And for a new one, which stands first; `pre` is the last node then, whose `next` is set where the
-- new node is freed.
unfoldable pub finish_new : List Buffer → Result (Option Buffer) → Result (List Buffer)
finish_new nodes (returns n out (some b) rs) = returns n out (b ∷ nodes) rs
finish_new [] (returns n out none rs) = returns n out [] rs
finish_new (_ ∷ _) (returns n out none rs) = circle
finish_new nodes use_after_free = use_after_free
finish_new nodes overrun = overrun
finish_new nodes circle = circle

unfoldable pub read_line : Bytes → ℕ → ℕ → List Buffer → List Read → Result (List Buffer)
unfolding fill copy_line find finish_old finish_new
read_line malloc fd n nodes rs = elim (find fd nodes) [
  | some b ↦ finish_old fd nodes (copy_line n 0 b [] rs)
  | none ↦ elim (fill fd malloc rs).0 [
    | none ↦ returns none [] nodes (fill fd malloc rs).1
    | some b ↦ finish_new nodes (copy_line n 0 b [] (fill fd malloc rs).1)
  ]
]
