-- ===== src/Mem/FrameAlloc/Refine.antt =====
-- The frame allocator seen through its mapping is the block allocator of the heap.
use fzkernel.Base.{
  ℕ, zero, suc, ◌+◌, ◌-◌, ◌<◌, ◌≡◌, refl, sym, ap, ◌∙◌, inl, inr, arith, Option, none, some, max,
  ltb, ltb→lt, lt→ltb, leb, ◌^◌, ◌==◌, Bool-cases, u8,
}
use fzkernel.Base.Outcome.{Outcome, done, panic, hang, ◌>>=◌}
use fzkernel.Mem.Log2.{log2, next_power_of_two}
use fzkernel.Mem.Buddy
use fzkernel.Mem.Buddy.{BuddyAllocator, update}
use fzkernel.Mem.FrameAlloc.{
  BuddyFrameAllocator, level_size, buddy, free_blk, pop_blk_with_level, free_buddy, split_loop,
  split_blk, allocation_level, give, alloc_loop, alloc, set_head,
}
use fzkernel.Mem.FrameAlloc.View.{
  as_heap, through, through_pair, IsBounded, buddy-bound, update-mapping,
}

module _ (width : ℕ) where
  buddy-same :
      (s : BuddyFrameAllocator) (block level : ℕ)
      → buddy s block level ≡ Buddy.buddy (as_heap width s) block level
  unfolding buddy level_size Buddy.buddy Buddy.level_size
  buddy-same s block level = refl

  -- The state after a block is put on a list.
  abbrev freed : BuddyFrameAllocator → ℕ → ℕ → BuddyFrameAllocator
  freed s block level =
      set_head (record s { memory = update s.memory (s.mapping block) (s.free_lists level) }) level
        block

  abbrev heap_freed : BuddyAllocator → ℕ → ℕ → BuddyAllocator
  heap_freed s block level = record s {
    free_lists = update s.free_lists level block;
    next_blk = update s.next_blk block (s.free_lists level);
  }

  freed-heap_freed :
      (s : BuddyFrameAllocator) (block level : ℕ)
      → IsBounded width s
      → block < 2 ^ width
      → as_heap width (freed s block level) ≡ heap_freed (as_heap width s) block level
  freed-heap_freed s block level q hb =
      ap
        (λ (f : ℕ → ℕ). record (as_heap width s) {
          free_lists = update s.free_lists level block;
          next_blk = f;
        })
        (update-mapping width s.mapping s.memory block (s.free_lists level) q.injective hb)

  -- Steps that agree with those of the heap, in a state that is bounded and has the level.
  abbrev Agrees :
      ℕ
      → (BuddyFrameAllocator → Outcome BuddyFrameAllocator)
      → (BuddyAllocator → Outcome BuddyAllocator)
      → Type 0
  Agrees level k k' =
      (s : BuddyFrameAllocator)
      → IsBounded width s
      → level < s.levels
      → through width (k s) ≡ k' (as_heap width s)

  freed-IsBounded :
      (s : BuddyFrameAllocator) (block level : ℕ)
      → IsBounded width s
      → IsBounded width (freed s block level)
  freed-IsBounded s block level q = record {
    injective = q.injective;
    positive = q.positive;
    small = q.small;
    width_small = q.width_small;
  }

  split_step :
      (s : BuddyFrameAllocator) (level : ℕ) (o : Outcome (Option ℕ))
      (k : BuddyFrameAllocator → Outcome BuddyFrameAllocator)
      (k' : BuddyAllocator → Outcome BuddyAllocator)
      → IsBounded width s
      → ((b : ℕ) → o ≡ done (some b) → b < 2 ^ width)
      → Agrees level k k'
      → through width (o >>= λ found. free_buddy s level found >>= k)
        ≡ (o >>= λ found. Buddy.free_buddy (as_heap width s) level found >>= k')
  unfolding free_buddy free_blk Buddy.free_buddy Buddy.free_blk
  split_step s level (done none) k k' q bound agree = refl
  split_step s level (done (some b)) k k' q bound agree = elim (Bool-cases (ltb level s.levels)) [
    | inl inside ↦ rw inside (
        agree (freed s b level) (freed-IsBounded s b level q) (ltb→lt level s.levels inside)
        ∙ ap k' (freed-heap_freed s b level q (bound b refl)))
    | inr outside ↦ rw outside
  ]
  split_step s level panic k k' q bound agree = refl
  split_step s level hang k k' q bound agree = refl

  split_loop-same :
      (level : ℕ) (s : BuddyFrameAllocator) (block new_level : ℕ)
      → IsBounded width s
      → block < 2 ^ width
      → level < s.levels
      → through width (split_loop s block level new_level)
        ≡ Buddy.split_loop (as_heap width s) block level new_level
  unfolding split_loop Buddy.split_loop
  split_loop-same zero s block new_level q hb hl = refl
  split_loop-same (suc level) s block new_level q hb hl =
      elim (Bool-cases (ltb new_level (suc level))) [
        | inl more ↦
            let rest : Agrees level (λ s'. split_loop s' block level new_level)
                (λ s'. Buddy.split_loop s' block level new_level) =
              λ s' q' hl'. split_loop-same level s' block new_level q' hb hl' in
            rw (more, sym (buddy-same s block level))
              (split_step s level (buddy s block level) (λ s'. split_loop s' block level new_level)
                (λ s'. Buddy.split_loop s' block level new_level) q
                (λ b e. buddy-bound width s block level b q hb (omega (arith, hl)) e) rest)
        | inr stop ↦ rw stop
      ]

  split_blk-same :
      (s : BuddyFrameAllocator) (block level new_level : ℕ)
      → IsBounded width s
      → block < 2 ^ width
      → level < s.levels
      → through width (split_blk s block level new_level)
        ≡ Buddy.split_blk (as_heap width s) block level new_level
  unfolding split_blk Buddy.split_blk
  split_blk-same s block level new_level q hb hl = elim (Bool-cases (leb new_level level)) [
    | inl fine ↦ rw fine (split_loop-same level s block new_level q hb hl)
    | inr wrong ↦ rw wrong
  ]

  with_block :
      (block : ℕ) (o : Outcome BuddyFrameAllocator)
      → through_pair width (o >>= λ s. done (block, s)) ≡ (through width o >>= λ s. done (block, s))
  with_block block (done s) = refl
  with_block block panic = refl
  with_block block hang = refl

  give-same :
      (s : BuddyFrameAllocator) (block level level_req : ℕ)
      → IsBounded width s
      → block < 2 ^ width
      → level < s.levels
      → through_pair width (give s block level level_req)
        ≡ Buddy.give (as_heap width s) block level level_req
  unfolding give Buddy.give
  give-same s block level level_req q hb hl = elim (Bool-cases (ltb level_req level)) [
    | inl above ↦ rw above (
        with_block block (split_blk s block level level_req)
        ∙ ap (λ o. o >>= λ s'. done (block, s')) (split_blk-same s block level level_req q hb hl))
    | inr exact ↦ rw exact
  ]

  allocation_level-same :
      (s : BuddyFrameAllocator) (size : ℕ)
      → 0 < s.min_blk_size
      → allocation_level s size ≡ Buddy.allocation_level (as_heap width s) size 1
  unfolding allocation_level Buddy.allocation_level next_power_of_two log2
  allocation_level-same s size h =
      let same : max (max size 1) s.min_blk_size ≡ max size s.min_blk_size = omega arith in
      elim (Bool-cases (ltb size s.max_blk_size)) [
        | inl fits ↦ rw (fits, same)
        | inr large ↦ rw large
      ]

  -- The state after a block is taken off a list.
  set_head-IsBounded :
      (s : BuddyFrameAllocator) (level block : ℕ)
      → IsBounded width s
      → IsBounded width (set_head s level block)
  set_head-IsBounded s level block q = record {
    injective = q.injective;
    positive = q.positive;
    small = q.small;
    width_small = q.width_small;
  }

  alloc_loop-same :
      (fuel : ℕ) (s : BuddyFrameAllocator) (level_req level : ℕ)
      → IsBounded width s
      → ((l : ℕ) → l < s.levels → s.free_lists l < 2 ^ width)
      → through_pair width (alloc_loop fuel s level_req level)
        ≡ Buddy.allocate_loop fuel (as_heap width s) level_req level
  unfolding alloc_loop pop_blk_with_level Buddy.allocate_loop Buddy.pop_blk_with_level
  alloc_loop-same zero s level_req level q heads = refl
  alloc_loop-same (suc fuel) s level_req level q heads = elim (Bool-cases (ltb level s.levels)) [
    | inr over ↦ rw over
    | inl inside ↦
        let hl : level < s.levels = ltb→lt level s.levels inside in
        let block : ℕ = s.free_lists level in
        elim (Bool-cases (s.free_lists level == 0)) [
          | inl empty ↦
              rw (inside, empty) (alloc_loop-same fuel s level_req (u8 (level + 1)) q heads)
          | inr found ↦ elim (Bool-cases (level == s.levels - 1)) [
            | inl last ↦
                rw (inside, found, last)
                  (give-same (set_head s level 0) block level level_req
                    (set_head-IsBounded s level 0 q) (heads level hl) hl)
            | inr inner ↦
                let next : ℕ = s.memory (s.mapping block) in
                rw (inside, found, inner, lt→ltb block (2 ^ width) (heads level hl))
                  (give-same (set_head s level next) block level level_req
                    (set_head-IsBounded s level next q) (heads level hl) hl)
          ]
        ]
  ]

  -- Where the blocks and their buddies lie below a power of two (at most 2 ^ 63), as the heads of the
  -- free lists do, no two addresses below it have the same virtual address, and the least block has
  -- more than one byte: `alloc` gives the block that `allocate` of the heap gives for the same size
  -- and no alignment, on the same free lists with the links read through the mapping, and leaves what
  -- that leaves; and it panics, or ends with the null pointer, where that does.
  pub alloc-allocate :
      (s : BuddyFrameAllocator) (size : ℕ)
      → IsBounded width s
      → ((l : ℕ) → l < s.levels → s.free_lists l < 2 ^ width)
      → 0 < s.min_blk_size
      → through_pair width (alloc s size) ≡ Buddy.allocate (as_heap width s) size 1
  unfolding alloc Buddy.allocate
  alloc-allocate s size q heads h =
      rw (sym (allocation_level-same s size h)) (by_level (allocation_level s size))
    where
      by_level :
          (o : Outcome ℕ)
          → through_pair width (o >>= λ level_req. alloc_loop (suc s.levels) s level_req level_req)
            ≡ (o >>= λ level_req.
                Buddy.allocate_loop (suc s.levels) (as_heap width s) level_req level_req)
      by_level (done level) = alloc_loop-same (suc s.levels) s level level q heads
      by_level panic = refl
      by_level hang = refl
