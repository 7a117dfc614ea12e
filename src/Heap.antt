-- ===== src/Heap.antt =====
-- 7-2-my_malloc_free.c: an allocator with boundary tags. The memory is one of words of 32 bits at the
-- addresses of bytes, all of them multiples of 4.
mod Blocks
mod Words
mod Requests
mod Tests
use tlpi_practice.Common.{
  ℕ, zero, suc, ◌+◌, ◌-◌, ◌*◌, ◌/◌, ◌%◌, ◌^◌, Bool, true, false, ◌&&◌, not, Option, none, some, ltb,
  leb, ◌==◌, if◌then◌else◌,
}
use tlpi_practice.Common.Threads.{put}

abbrev pub chunk_size : ℕ
chunk_size = 4096

abbrev pub wsize : ℕ
wsize = 4

abbrev pub dsize : ℕ
dsize = 8

abbrev pub Memory : Type 0
Memory = ℕ → ℕ

-- `(size) | (alloc)`, for an `alloc` of 0 or 1.
unfoldable pub pack : ℕ → Bool → ℕ
pack size false = size
pack size true = if size % 2 == 0 then size + 1 else size

-- `& ~0x7` and `& 0x1`
abbrev pub get_size : Memory → ℕ → ℕ
get_size m p = m p - m p % 8

abbrev pub get_alloc : Memory → ℕ → Bool
get_alloc m p = m p % 2 == 1

unfoldable pub put_word : ℕ → ℕ → Memory → Memory
put_word p val m = put m p (val % 2 ^ 32)

-- Below address 4, where there is no block, the subtraction stops at 0.
abbrev pub hdrp : ℕ → ℕ
hdrp p = p - wsize

abbrev pub ftrp : Memory → ℕ → ℕ
ftrp m p = p + get_size m (hdrp p) - dsize

abbrev pub next_blkp : Memory → ℕ → ℕ
next_blkp m p = p + get_size m (hdrp p)

abbrev pub prev_blkp : Memory → ℕ → ℕ
prev_blkp m p = p - get_size m (p - dsize)

-- `PUT (HDRP (p), PACK (size, alloc))` and then the same at FTRP (p), which reads that header.
unfoldable pub put_block : ℕ → ℕ → Bool → Memory → Memory
unfolding put_word pack
put_block p size alloc m =
    let m' = put_word (hdrp p) (pack size alloc) m in put_word (ftrp m' p) (pack size alloc) m'

-- `free_list` is 0 for NULL; `brk` is the end of the data segment, and `limit` how far it can go.
pub record State : Type 0 where
  pub mem : Memory
  pub free_list : ℕ
  pub list_end : ℕ
  pub brk : ℕ
  pub limit : ℕ

pub data Result {ℓ} (A : Type ℓ) : Type ℓ where
  ok : A → Result A
  err_exit : Result A
  -- a walk over the blocks that does not come to an end within its fuel
  runs_on : Result A
  -- a write behind the last page of the data segment
  faults : Result A

infixl 5 ◌>>=◌
abbrev pub ◌>>=◌ {ℓ κ} : {A : Type ℓ} {B : Type κ} → Result A → (A → Result B) → Result B
ok a >>= k = k a
err_exit >>= k = err_exit
runs_on >>= k = runs_on
faults >>= k = faults

unfoldable pub sbrk : ℕ → State → Result (ℕ × State)
sbrk increment s =
    if leb (s.brk + increment) s.limit
    then ok (s.brk, record s { brk = s.brk + increment })
    else err_exit

-- `mm_init` behind its call of `Sbrk`.
unfoldable pub init_words : ℕ × State → State
unfolding put_block put_word pack
init_words (former, s) =
    let first = former + wsize in
    let end = first + chunk_size in
    let head = first + wsize in
    let m1 = put_word head (pack dsize true) (put_word first (pack dsize true) s.mem) in
    let m2 = put_block (next_blkp m1 head) (chunk_size - 16) true m1 in
    record s { mem = put_word (hdrp end) (pack 0 true) m2; free_list = head; list_end = end }

-- The header at the end of the list stands behind the break. Where that is the end of a page, there is
-- no memory.
abbrev pub behind_pages : State → Bool
behind_pages s = (s.brk % 4096 == 0) && leb s.brk (hdrp s.list_end)

abbrev pub mapped {ℓ} : {A : Type ℓ} → State → A → Result A
mapped s a = if behind_pages s then faults else ok a

unfoldable pub mm_init : State → Result State
unfolding sbrk init_words
mm_init s = do r ← sbrk chunk_size s; mapped (init_words r) (init_words r)

-- `new_chunk` behind its call of `Sbrk`: a block of its own, or one with the free block before it.
unfoldable pub chunk_words : ℕ × State → ℕ × State
unfolding put_block put_word pack
chunk_words (former, s) =
    let before = prev_blkp s.mem s.list_end in
    let grown = chunk_size + get_size s.mem (hdrp before) in
    let m1 =
      if get_alloc s.mem (hdrp s.list_end)
      then put_block s.list_end chunk_size false s.mem
      else put_block before grown false s.mem in
    let end =
      if get_alloc s.mem (hdrp s.list_end) then next_blkp m1 s.list_end else next_blkp m1 before in
    let m2 = put_word (hdrp end) (pack 0 true) m1 in
    (prev_blkp m2 end, record s { mem = m2; list_end = end })

unfoldable pub new_chunk : State → Result (ℕ × State)
unfolding sbrk chunk_words
new_chunk s = do r ← sbrk chunk_size s; mapped (chunk_words r).1 (chunk_words r)

-- The loop of `first_fit` from `p` on, with its test as it stands; none is the end of the list.
unfoldable pub search : ℕ → ℕ → ℕ → State → Result (Option ℕ)
search zero size p s = runs_on
search (suc fuel) size p s =
    let rest = search fuel size (next_blkp s.mem p) s in
    if p == s.list_end
    then ok none
    else if get_alloc s.mem (hdrp p) && leb size (get_size s.mem (hdrp p))
    then ok (some p)
    else rest

unfoldable pub first_fit : ℕ → ℕ → State → Result (ℕ × State)
unfolding search new_chunk
first_fit fuel size s = do
  found ← search fuel size (next_blkp s.mem s.free_list) s
  elim found [ some p ↦ ok (p, s) | none ↦ new_chunk s ]

-- The size of the block for a request; only the small ones are rounded up.
abbrev pub real_size : ℕ → ℕ
real_size size = if leb size dsize then dsize + (size + (dsize - 1)) / dsize * dsize else dsize

-- `my_malloc` behind `first_fit`: a block that is too large is cut in two.
unfoldable pub place : ℕ → ℕ × State → ℕ × State
unfolding put_block put_word pack
place size (blk, s) =
    let blk_size = get_size s.mem (hdrp blk) in
    let m1 = put_block blk size true s.mem in
    if ltb size blk_size
    then (blk, record s { mem = put_block (next_blkp m1 blk) (blk_size - size) false m1 })
    else (blk, s)

-- `my_malloc` behind `mm_init`; the address that is returned is 0 for NULL.
unfoldable pub allocate : ℕ → ℕ → State → Result (ℕ × State)
unfolding first_fit place
allocate fuel zero s = ok (0, s)
allocate fuel (suc n) s = do
  r ← first_fit fuel (real_size (suc n)) s
  ok (place (real_size (suc n)) r)

unfoldable pub my_malloc : ℕ → ℕ → State → Result (ℕ × State)
unfolding mm_init allocate
my_malloc fuel size s = do
  s1 ← (if s.free_list == 0 then mm_init s else ok s)
  allocate fuel size s1

unfoldable pub my_free : ℕ → State → State
unfolding put_block put_word pack
my_free ptr s =
    let before = prev_blkp s.mem ptr in
    let behind = next_blkp s.mem ptr in
    let used = get_alloc s.mem (hdrp ptr) in
    let blk = if used then ptr else before in
    let size1 =
      if used then get_size s.mem ptr else get_size s.mem ptr + get_size s.mem (hdrp before) in
    let size2 = if used then size1 else size1 + get_size s.mem (hdrp behind) in
    record s { mem = put_block blk size2 false s.mem }
