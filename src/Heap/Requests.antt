-- ===== src/Heap/Requests.antt =====
-- 7-2-my_malloc_free.c: what the first two requests get.
use tlpi_practice.Common.{
  ℕ, zero, suc, ◌+◌, ◌%◌, ◌≤◌, ◌<◌, ◌≡◌, ◌≢◌, refl, sym, ◌∙◌, Bool, true, false, leb, ltb, ◌==◌,
  arith, Bool-cases, ◌⊎◌, inl, inr,
}
use tlpi_practice.Heap.{
  Memory, State, ok, runs_on, pack, get_size, get_alloc, hdrp, next_blkp, search, first_fit,
  real_size, place, allocate, my_malloc,
}
use tlpi_practice.Heap.Blocks.{pack-size, pack-alloc}
use tlpi_practice.Heap.Words.{
  fresh, words, heap, size_at, alloc_at, next_blkp_at, first_word, mm_init-heap, block_word, after,
  used_heap, after_word, after_first, after_last, place-used,
}

real_size-cases : (n : ℕ) → (real_size (suc n) ≡ 8) ⊎ (real_size (suc n) ≡ 16)
real_size-cases n = elim (Bool-cases (leb (suc n) 8)) [
  | inl small ↦ let le : suc n ≤ 8 = ground arith in rw small (inr (omega arith))
  | inr large ↦ rw large (inl refl)
]

-- The first request.
first_request :
    (r fuel : ℕ) (m : Memory) (b limit : ℕ)
    → 8 ≤ r
    → r < 4072
    → (first_fit (suc fuel) r (heap m b limit) ≡ ok (b + 16, heap m b limit))
unfolding first_fit search
first_request r fuel m b limit large small =
    let head : next_blkp (words m b) (b + 8) ≡ b + 16 =
      next_blkp_at (words m b) (b + 8) (b + 4) 9 8 (b + 16) (omega arith)
        (ground (arith, first_word m b)) refl (omega arith) in
    let on : (b + 16 == b + 4100) ≡ false = ground arith in
    let used : get_alloc (words m b) (hdrp (b + 16)) ≡ true =
      alloc_at (words m b) (b + 16) (b + 12) 4081 true (omega arith) (block_word m b) refl in
    let all : get_size (words m b) (hdrp (b + 16)) ≡ 4080 =
      size_at (words m b) (b + 16) (b + 12) 4081 4080 (omega arith) (block_word m b) refl in
    let fits : leb r 4080 ≡ true = ground arith in rw (head, on, used, all, fits) refl

-- A request that the first block is large enough for.
same_block :
    (r k fuel : ℕ) (m : Memory) (b limit : ℕ)
    → 8 ≤ r
    → r < 4072
    → r % 8 ≡ 0
    → leb k r ≡ true
    → first_fit (suc fuel) k (used_heap r m b limit) ≡ ok (b + 16, used_heap r m b limit)
unfolding first_fit search
same_block r k fuel m b limit large small whole fits =
    let head : next_blkp (after r m b) (b + 8) ≡ b + 16 =
      next_blkp_at (after r m b) (b + 8) (b + 4) 9 8 (b + 16) (omega arith)
        (after_first r m b large small) refl (omega arith) in
    let on : (b + 16 == b + 4100) ≡ false = ground arith in
    let used : get_alloc (after r m b) (hdrp (b + 16)) ≡ true =
      alloc_at (after r m b) (b + 16) (b + 12) (pack r true) true (omega arith)
        (after_word r m b large small) (pack-alloc r true whole) in
    let mine : get_size (after r m b) (hdrp (b + 16)) ≡ r =
      size_at (after r m b) (b + 16) (b + 12) (pack r true) r (omega arith)
        (after_word r m b large small) (pack-size r true whole) in
    rw (head, on, used, mine, fits) refl

-- At the word before the break the walk stands still.
stands :
    (fuel k : ℕ) (m : Memory) (b limit : ℕ)
    → m (b + 4092) ≡ 0
    → search fuel k (b + 4096) (used_heap 8 m b limit) ≡ runs_on
unfolding search
stands zero k m b limit e = refl
stands (suc fuel) k m b limit e =
    let zero_word = after_last 8 m b (omega arith) e in
    let on : (b + 4096 == b + 4100) ≡ false = ground arith in
    let unused : get_alloc (after 8 m b) (hdrp (b + 4096)) ≡ false =
      alloc_at (after 8 m b) (b + 4096) (b + 4092) 0 false (omega arith) zero_word refl in
    let next : next_blkp (after 8 m b) (b + 4096) ≡ b + 4096 =
      next_blkp_at (after 8 m b) (b + 4096) (b + 4092) 0 0 (b + 4096) (omega arith) zero_word refl
        (omega arith) in
    rw (search, on, unused, next) (stands fuel k m b limit e)

-- A request that is larger than the first block, which is then one of 8 bytes.
no_block :
    (k fuel : ℕ) (m : Memory) (b limit : ℕ)
    → m (b + 4092) ≡ 0
    → leb k 8 ≡ false
    → first_fit fuel k (used_heap 8 m b limit) ≡ runs_on
unfolding first_fit search
no_block k zero m b limit e larger = refl
no_block k (suc zero) m b limit e larger =
    let head : next_blkp (after 8 m b) (b + 8) ≡ b + 16 =
      next_blkp_at (after 8 m b) (b + 8) (b + 4) 9 8 (b + 16) (omega arith)
        (after_first 8 m b (omega arith) (omega arith)) refl (omega arith) in
    let on : (b + 16 == b + 4100) ≡ false = ground arith in
    let mine : get_size (after 8 m b) (hdrp (b + 16)) ≡ 8 =
      size_at (after 8 m b) (b + 16) (b + 12) 9 8 (omega arith)
        (unfold pack in after_word 8 m b (omega arith) (omega arith)) refl in
    let used : get_alloc (after 8 m b) (hdrp (b + 16)) ≡ true =
      alloc_at (after 8 m b) (b + 16) (b + 12) 9 true (omega arith)
        (unfold pack in after_word 8 m b (omega arith) (omega arith)) refl in
    rw (head, on, used, mine, larger) refl
no_block k (suc (suc fuel)) m b limit e larger =
    let head : next_blkp (after 8 m b) (b + 8) ≡ b + 16 =
      next_blkp_at (after 8 m b) (b + 8) (b + 4) 9 8 (b + 16) (omega arith)
        (after_first 8 m b (omega arith) (omega arith)) refl (omega arith) in
    let on : (b + 16 == b + 4100) ≡ false = ground arith in
    let word : after 8 m b (b + 12) ≡ 9 =
      unfold pack in after_word 8 m b (omega arith) (omega arith) in
    let mine : get_size (after 8 m b) (hdrp (b + 16)) ≡ 8 =
      size_at (after 8 m b) (b + 16) (b + 12) 9 8 (omega arith) word refl in
    let used : get_alloc (after 8 m b) (hdrp (b + 16)) ≡ true =
      alloc_at (after 8 m b) (b + 16) (b + 12) 9 true (omega arith) word refl in
    let e24 : b + 16 + 8 ≡ b + 24 = omega arith in
    let rest : after 8 m b (b + 20) ≡ 4072 = ground arith in
    let on' : (b + 24 == b + 4100) ≡ false = ground arith in
    let free : get_alloc (after 8 m b) (hdrp (b + 24)) ≡ false =
      alloc_at (after 8 m b) (b + 24) (b + 20) 4072 false (omega arith) rest refl in
    let last : next_blkp (after 8 m b) (b + 24) ≡ b + 4096 =
      next_blkp_at (after 8 m b) (b + 24) (b + 20) 4072 4072 (b + 4096) (omega arith) rest refl
        (omega arith) in
    rw (head, on, used, mine, larger, e24, on', free, last, stands fuel k m b limit e) refl

-- What a request of `k` bytes ends with: the address of the request before, or no end of the walk.
unfoldable pub Second : ℕ → ℕ → State → Bool → Type 0
Second address k s true = (fuel : ℕ) → (t : State) × (my_malloc (suc fuel) k s ≡ ok (address, t))
Second address k s false = (fuel : ℕ) → my_malloc fuel k s ≡ runs_on

set_up : (m : Memory) (b limit : ℕ) (r : ℕ) → ((used_heap r m b limit).free_list == 0) ≡ false
set_up m b limit r = ground arith

first_address :
    (r : ℕ) (n fuel : ℕ) (m : Memory) (b limit : ℕ)
    → b + 4096 ≤ limit
    → b % 4096 ≢ 0
    → real_size (suc n) ≡ r
    → 8 ≤ r
    → r < 4072
    → r % 8 ≡ 0
    → my_malloc (suc fuel) (suc n) (fresh m b limit) ≡ ok (b + 16, used_heap r m b limit)
unfolding my_malloc allocate
first_address r n fuel m b limit room inside real large small whole =
    rw
      (
        mm_init-heap m b limit room inside,
        real,
        first_request r fuel m b limit large small,
        place-used r m b limit large small whole,
      )
      refl

place_address : (r blk : ℕ) (s : State) → (t : State) × (place r (blk, s) ≡ (blk, t))
unfolding place
place_address r blk s = elim (Bool-cases (ltb r (get_size s.mem (hdrp blk)))) [
  | inl more ↦ rw more (_, refl)
  | inr all ↦ rw all (_, refl)
]

Second-same :
    (r k : ℕ) (m : Memory) (b limit : ℕ)
    → 8 ≤ r
    → r < 4072
    → r % 8 ≡ 0
    → leb (real_size (suc k)) r ≡ true
    → Second (b + 16) (suc k) (used_heap r m b limit) true
unfolding Second my_malloc allocate
Second-same r k m b limit large small whole fits fuel =
    let (t, e) = place_address (real_size (suc k)) (b + 16) (used_heap r m b limit) in
    (
      t,
      rw
          (
            set_up m b limit r,
            same_block r (real_size (suc k)) fuel m b limit large small whole fits,
            e,
          )
          refl,
    )

Second-stands :
    (k : ℕ) (m : Memory) (b limit : ℕ)
    → m (b + 4092) ≡ 0
    → leb (real_size (suc k)) 8 ≡ false
    → Second (b + 16) (suc k) (used_heap 8 m b limit) false
unfolding Second my_malloc allocate
Second-stands k m b limit zero_word larger fuel =
    rw (set_up m b limit 8, no_block (real_size (suc k)) fuel m b limit zero_word larger) refl

used_block :
    (r : ℕ) (m : Memory) (b : ℕ)
    → 8 ≤ r
    → r < 4072
    → r % 8 ≡ 0
    → (get_size (after r m b) (hdrp (b + 16)) ≡ r)
      × (get_alloc (after r m b) (hdrp (b + 16)) ≡ true)
used_block r m b large small whole =
    let word = after_word r m b large small in
    (
      size_at (after r m b) (b + 16) (b + 12) (pack r true) r (omega arith) word
          (pack-size r true whole),
      alloc_at (after r m b) (b + 16) (b + 12) (pack r true) true (omega arith) word
          (pack-alloc r true whole),
    )

-- In a process that has not used the heap, with room for one chunk, whose break is inside of a page,
-- and where the last word of that chunk holds 0, the first request gets the address 16 behind the break, and its block is marked as in use,
-- with the size that is asked for behind the rounding. The second request gets that same block again,
-- though it is in use, where it is large enough; where it is not, `first_fit` does not end: the word
-- before the break is never written, and the walk stands still there.
pub my_malloc-Second :
    (m : Memory) (b limit n k fuel : ℕ)
    → b + 4096 ≤ limit
    → b % 4096 ≢ 0
    → m (b + 4092) ≡ 0
    → (s : State) × (my_malloc (suc fuel) (suc n) (fresh m b limit) ≡ ok (b + 16, s))
      × (get_size s.mem (hdrp (b + 16)) ≡ real_size (suc n))
      × (get_alloc s.mem (hdrp (b + 16)) ≡ true)
      × Second (b + 16) (suc k) s (leb (real_size (suc k)) (real_size (suc n)))
my_malloc-Second m b limit n k fuel room inside zero_word = elim (real_size-cases n) [
  | inl eight ↦
      let (size, used) = used_block 8 m b (omega arith) (omega arith) refl in
      (
        used_heap 8 m b limit,
        first_address 8 n fuel m b limit room inside eight (omega arith) (omega arith) refl,
        size ∙ sym eight,
        used,
        rw eight (elim (Bool-cases (leb (real_size (suc k)) 8)) [
          | inl fits ↦ rw fits (Second-same 8 k m b limit (omega arith) (omega arith) refl fits)
          | inr larger ↦ rw larger (Second-stands k m b limit zero_word larger)
        ]),
      )
  | inr sixteen ↦
      let (size, used) = used_block 16 m b (omega arith) (omega arith) refl in
      let fits : leb (real_size (suc k)) 16 ≡ true = elim (real_size-cases k) [
        | inl e ↦ rw e refl
        | inr e ↦ rw e refl
      ] in
      (
        used_heap 16 m b limit,
        first_address 16 n fuel m b limit room inside sixteen (omega arith) (omega arith) refl,
        size ∙ sym sixteen,
        used,
        rw (sixteen, fits) (Second-same 16 k m b limit (omega arith) (omega arith) refl fits),
      )
]
