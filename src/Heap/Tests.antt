-- ===== src/Heap/Tests.antt =====
-- 7-2-my_malloc_free.c on one block in use and on one that is free.
use tlpi_practice.Common.{◌≡◌, refl, true, false, Bool, none, some, arith}
use tlpi_practice.Heap.{
  State, ok, faults, search, my_malloc, mm_init, sbrk, init_words, put_block, put_word, pack,
  get_size, get_alloc, hdrp, next_blkp, prev_blkp,
}
use tlpi_practice.Heap.Blocks.{put_block-tags}
use tlpi_practice.Heap.Words.{fresh}
use tlpi_practice.Heap.Requests.{Second, my_malloc-Second}

-- A block of 16 bytes at 8, another one at 24, and the end at 40.
abbrev heap : Bool → State
heap used = record {
  mem = put_block 24 16 false (put_block 8 16 used (λ a. 0));
  free_list = 8;
  list_end = 40;
  brk = 64;
  limit = 64;
}

finds_used : search 3 16 8 (heap true) ≡ ok (some 8)
unfolding search put_block put_word pack
finds_used = refl

passes_free : search 3 16 8 (heap false) ≡ ok none
unfolding search put_block put_word pack
passes_free = refl

put_block-tags_example :
    (get_size (put_block 24 16 true (λ a. 0)) (hdrp 24) ≡ 16)
    × (get_alloc (put_block 24 16 true (λ a. 0)) (hdrp 24) ≡ true)
    × (next_blkp (put_block 24 16 true (λ a. 0)) 24 ≡ 40)
    × (prev_blkp (put_block 24 16 true (λ a. 0)) 40 ≡ 24)
put_block-tags_example =
    put_block-tags 24 16 true (λ a. 0) (omega arith) (omega arith) refl (omega arith)

-- Two requests of 100 and of 5 bytes: the block of the first has 8 bytes, and the second does not end.
my_malloc-Second_example :
    (s : State) × (my_malloc 9 100 (fresh (λ a. 0) 4104 9000) ≡ ok (4120, s))
    × (get_size s.mem (hdrp 4120) ≡ 8)
    × (get_alloc s.mem (hdrp 4120) ≡ true)
    × Second 4120 5 s false
my_malloc-Second_example =
    my_malloc-Second (λ a. 0) 4104 9000 99 4 8 (omega arith) (λ e. omega arith) refl

-- At a break that ends a page, the header of the end of the list cannot be written.
page_end : my_malloc 9 100 (fresh (λ a. 0) 4096 9000) ≡ faults
unfolding my_malloc mm_init sbrk init_words put_block put_word pack
page_end = refl
