-- ===== src/Heap/Words.antt =====
-- 7-2-my_malloc_free.c: the words of the heap that the first request makes.
use tlpi_practice.Common.{
  ℕ, ◌+◌, ◌-◌, ◌%◌, ◌≤◌, ◌<◌, ◌≡◌, ◌≢◌, refl, ap, ◌∙◌, Bool, true, false, leb, ltb, ◌==◌, arith,
}
use tlpi_practice.Common.Threads.{put, put_self, put_other}
use tlpi_practice.Heap.{
  Memory, State, ok, pack, get_size, get_alloc, hdrp, next_blkp, put_word, put_block, sbrk,
  init_words, mm_init, place,
}
use tlpi_practice.Heap.Blocks.{put_block-put, pack-size}

-- A process that has not used the heap, with the break at `b`.
abbrev pub fresh : Memory → ℕ → ℕ → State
fresh m b limit = record { mem = m; free_list = 0; list_end = 0; brk = b; limit = limit }

-- The words that `mm_init` writes.
abbrev first_words : Memory → ℕ → Memory
first_words m b = put (put m (b + 4) 9) (b + 8) 9

abbrev pub words : Memory → ℕ → Memory
words m b = put (put (put (first_words m b) (b + 12) 4081) (b + 4088) 4081) (b + 4096) 1

abbrev pub heap : Memory → ℕ → ℕ → State
heap m b limit = record {
  mem = words m b;
  free_list = b + 8;
  list_end = b + 4100;
  brk = b + 4096;
  limit = limit;
}

-- The two tags of a block, by their addresses.
put_block_at :
    (p size : ℕ) (alloc : Bool) (m : Memory) (head foot : ℕ)
    → p ≡ head + 4
    → p + size ≡ foot + 8
    → size % 8 ≡ 0
    → size < 4294967296
    → put_block p size alloc m ≡ put (put m head (pack size alloc)) foot (pack size alloc)
put_block_at p size alloc m head foot h f whole small =
    let at_head : p - 4 ≡ head = omega arith in
    let at_foot : p + size - 8 ≡ foot = omega arith in
    put_block-put p size alloc m whole small ∙ λ i.
    put (put m (at_head i) (pack size alloc)) (at_foot i) (pack size alloc)

pub size_at :
    (m : Memory) (p head w size : ℕ)
    → p ≡ head + 4
    → m head ≡ w
    → w - w % 8 ≡ size
    → get_size m (hdrp p) ≡ size
size_at m p head w size h e s = let at_head : p - 4 ≡ head = omega arith in rw (at_head, e) s

pub alloc_at :
    (m : Memory) (p head w : ℕ) (b : Bool)
    → p ≡ head + 4
    → m head ≡ w
    → (w % 2 == 1) ≡ b
    → get_alloc m (hdrp p) ≡ b
alloc_at m p head w b h e s = let at_head : p - 4 ≡ head = omega arith in rw (at_head, e) s

pub next_blkp_at :
    (m : Memory) (p head w size q : ℕ)
    → p ≡ head + 4
    → m head ≡ w
    → w - w % 8 ≡ size
    → p + size ≡ q
    → next_blkp m p ≡ q
next_blkp_at m p head w size q h e s to = ap (λ n. p + n) (size_at m p head w size h e s) ∙ to

pub first_word : (m : Memory) (b : ℕ) → first_words m b (b + 4) ≡ 9
first_word m b =
    put_other (put m (b + 4) 9) (b + 8) 9 (b + 4) (λ e. omega arith) ∙ put_self m (b + 4) 9

ne_of : {a : ℕ} → a ≢ 0 → (a == 0) ≡ false
ne_of ne = ground arith

pub mm_init-heap :
    (m : Memory) (b limit : ℕ)
    → b + 4096 ≤ limit
    → b % 4096 ≢ 0
    → mm_init (fresh m b limit) ≡ ok (heap m b limit)
unfolding mm_init sbrk init_words put_word pack
mm_init-heap m b limit room inside =
    let fits : leb (b + 4096) limit ≡ true = ground arith in
    let e8 : b + 4 + 4 ≡ b + 8 = omega arith in
    let e4100 : b + 4 + 4096 ≡ b + 4100 = omega arith in
    let e4096 : b + 4100 - 4 ≡ b + 4096 = omega arith in
    let next : next_blkp (first_words m b) (b + 8) ≡ b + 16 =
      next_blkp_at (first_words m b) (b + 8) (b + 4) 9 8 (b + 16) (omega arith) (first_word m b)
        refl (omega arith) in
    let block : put_block (b + 16) 4080 true (first_words m b)
        ≡ put (put (first_words m b) (b + 12) 4081) (b + 4088) 4081 =
      put_block_at (b + 16) 4080 true (first_words m b) (b + 12) (b + 4088) (omega arith)
        (omega arith) refl (omega arith) in
    let within : ((b + 4096) % 4096 == 0) ≡ false = ne_of (λ e. inside (omega arith)) in
    rw (fits, e8, e4100, e4096, next, block, within) refl

pub block_word : (m : Memory) (b : ℕ) → words m b (b + 12) ≡ 4081
block_word m b = ground arith

-- The words behind the first request, for a block of `r` bytes.
abbrev cut : ℕ → Memory → ℕ → Memory
cut r m b = put (put (words m b) (b + 12) (pack r true)) (b + 8 + r) (pack r true)

abbrev pub after : ℕ → Memory → ℕ → Memory
after r m b = put (put (cut r m b) (b + 12 + r) (4080 - r)) (b + 4088) (4080 - r)

abbrev pub used_heap : ℕ → Memory → ℕ → ℕ → State
used_heap r m b limit = record (heap m b limit) { mem = after r m b }

cut_word : (r : ℕ) (m : Memory) (b : ℕ) → 8 ≤ r → cut r m b (b + 12) ≡ pack r true
cut_word r m b large = ground arith

pub after_word :
    (r : ℕ) (m : Memory) (b : ℕ) → 8 ≤ r → r < 4072 → after r m b (b + 12) ≡ pack r true
after_word r m b large small = ground arith

pub after_first : (r : ℕ) (m : Memory) (b : ℕ) → 8 ≤ r → r < 4072 → after r m b (b + 4) ≡ 9
after_first r m b large small = ground (arith, first_word m b)

after_rest : (r : ℕ) (m : Memory) (b : ℕ) → r < 4072 → after r m b (b + 12 + r) ≡ 4080 - r
after_rest r m b small = ground arith

-- The word before the break is never written.
pub after_last :
    (r : ℕ) (m : Memory) (b : ℕ) → r < 4072 → m (b + 4092) ≡ 0 → after r m b (b + 4092) ≡ 0
after_last r m b small e = ground arith

abbrev block_of : Memory → ℕ → ℕ → Memory → ℕ × State
block_of m b limit k = (b + 16, record (heap m b limit) { mem = k })

pub place-used :
    (r : ℕ) (m : Memory) (b limit : ℕ)
    → 8 ≤ r
    → r < 4072
    → r % 8 ≡ 0
    → place r (b + 16, heap m b limit) ≡ (b + 16, used_heap r m b limit)
unfolding place
place-used r m b limit large small whole =
    let all : get_size (words m b) (hdrp (b + 16)) ≡ 4080 =
      size_at (words m b) (b + 16) (b + 12) 4081 4080 (omega arith) (block_word m b) refl in
    let more : ltb r 4080 ≡ true = ground arith in
    let mine : put_block (b + 16) r true (words m b) ≡ cut r m b =
      put_block_at (b + 16) r true (words m b) (b + 12) (b + 8 + r) (omega arith) (omega arith)
        whole (omega arith) in
    let next : next_blkp (cut r m b) (b + 16) ≡ b + 16 + r =
      next_blkp_at (cut r m b) (b + 16) (b + 12) (pack r true) r (b + 16 + r) (omega arith)
        (cut_word r m b large) (pack-size r true whole) refl in
    let next' : next_blkp (put_block (b + 16) r true (words m b)) (b + 16) ≡ b + 16 + r =
      ap (λ k. next_blkp k (b + 16)) mine ∙ next in
    let rest : put_block (b + 16 + r) (4080 - r) false (cut r m b) ≡ after r m b =
      unfold pack in
      put_block_at (b + 16 + r) (4080 - r) false (cut r m b) (b + 12 + r) (b + 4088) (omega arith)
        (omega arith) (omega arith) (omega arith) in
    rw (all, more)
      (ap
          (λ q.
            block_of m b limit
              (put_block q (4080 - r) false (put_block (b + 16) r true (words m b))))
          next'
        ∙ (ap (λ k. block_of m b limit (put_block (b + 16 + r) (4080 - r) false k)) mine
            ∙ ap (block_of m b limit) rest))
