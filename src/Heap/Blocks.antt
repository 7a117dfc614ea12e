-- ===== src/Heap/Blocks.antt =====
-- 7-2-my_malloc_free.c: the boundary tags of a block.
use tlpi_practice.Common.{ℕ, ◌+◌, ◌-◌, ◌%◌, ◌≤◌, ◌<◌, ◌≡◌, ap, ◌∙◌, Bool, true, false, ◌==◌, arith}
use tlpi_practice.Common.Threads.{put, put_self, put_other}
use tlpi_practice.Heap.{
  Memory, pack, get_size, get_alloc, put_word, hdrp, ftrp, next_blkp, prev_blkp, put_block,
}

pub pack-size :
    (size : ℕ) (alloc : Bool) → size % 8 ≡ 0 → pack size alloc - pack size alloc % 8 ≡ size
unfolding pack
pack-size size false h = omega arith
pack-size size true h =
    let even : (size % 2 == 0) ≡ true = ground arith in rw (pack, even) (omega arith)

pub pack-alloc : (size : ℕ) (alloc : Bool) → size % 8 ≡ 0 → (pack size alloc % 2 == 1) ≡ alloc
unfolding pack
pack-alloc size false h = ground arith
pack-alloc size true h =
    let even : (size % 2 == 0) ≡ true = ground arith in rw (pack, even) (ground arith)

pack-word :
    (size : ℕ) (alloc : Bool)
    → size % 8 ≡ 0
    → size < 4294967296
    → pack size alloc % 4294967296 ≡ pack size alloc
unfolding pack
pack-word size false h small = omega arith
pack-word size true h small =
    let even : (size % 2 == 0) ≡ true = ground arith in rw (pack, even) (omega arith)

put_word-small : (p w : ℕ) (m : Memory) → w % 4294967296 ≡ w → put_word p w m ≡ put m p w
unfolding put_word
put_word-small p w m e = ap (put m p) e

-- Both tags, where the second is put after the size that the first one holds.
pub put_block-put :
    (p size : ℕ) (alloc : Bool) (m : Memory)
    → size % 8 ≡ 0
    → size < 4294967296
    → put_block p size alloc m
      ≡ put (put m (p - 4) (pack size alloc)) (p + size - 8) (pack size alloc)
unfolding put_block
put_block-put p size alloc m whole small =
    let w = pack size alloc in
    let word : w % 4294967296 ≡ w = pack-word size alloc whole small in
    let m1 : Memory = put m (p - 4) w in
    let size1 : get_size m1 (hdrp p) ≡ size =
      rw (put_self m (p - 4) w) (pack-size size alloc whole) in
    let foot : ftrp m1 p ≡ p + size - 8 = ap (λ n. p + n - 8) size1 in
    ap (λ k. put_word (ftrp k p) w k) (put_word-small (p - 4) w m word)
    ∙ (ap (λ a. put_word a w m1) foot ∙ put_word-small (p + size - 8) w m1 word)

-- A block whose tags have been written has its size and its mark in the header, the next block begins
-- behind it, and from there the block before is found again; for a size that is a positive multiple
-- of 8 and fits a word.
pub put_block-tags :
    (p size : ℕ) (alloc : Bool) (m : Memory)
    → 4 ≤ p
    → 8 ≤ size
    → size % 8 ≡ 0
    → size < 4294967296
    → (get_size (put_block p size alloc m) (hdrp p) ≡ size)
      × (get_alloc (put_block p size alloc m) (hdrp p) ≡ alloc)
      × (next_blkp (put_block p size alloc m) p ≡ p + size)
      × (prev_blkp (put_block p size alloc m) (p + size) ≡ p)
put_block-tags p size alloc m high large whole small =
    let m1 : Memory = put m (p - 4) (pack size alloc) in
    let m2 : Memory = put m1 (p + size - 8) (pack size alloc) in
    let run : put_block p size alloc m ≡ m2 = put_block-put p size alloc m whole small in
    let at_head : m2 (p - 4) ≡ pack size alloc =
      put_other m1 (p + size - 8) (pack size alloc) (p - 4) (λ e. omega arith)
      ∙ put_self m (p - 4) (pack size alloc) in
    let at_foot : m2 (p + size - 8) ≡ pack size alloc =
      put_self m1 (p + size - 8) (pack size alloc) in
    let head : m2 (p - 4) - m2 (p - 4) % 8 ≡ size = rw at_head (pack-size size alloc whole) in
    let foot : m2 (p + size - 8) - m2 (p + size - 8) % 8 ≡ size =
      rw at_foot (pack-size size alloc whole) in
    let mark : (m2 (p - 4) % 2 == 1) ≡ alloc = rw at_head (pack-alloc size alloc whole) in
    rw run (head, mark, ap (λ n. p + n) head, omega (arith, foot))
