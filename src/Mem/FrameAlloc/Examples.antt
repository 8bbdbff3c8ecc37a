-- ===== src/Mem/FrameAlloc/Examples.antt =====
-- A pool of four blocks on which `remove_blk` does not return, and the pool of a memory map.
use fzkernel.Base.{
  ℕ, ◌^◌, ◌<◌, ◌≡◌, refl, inl, inr, Bool-cases, arith, some, [], ◌∷◌, ◌==◌, if◌then◌else◌,
}
use fzkernel.Base.Outcome.{done, hang}
use fzkernel.Mem.E820.{AddressRangeDescriptor, E820MemoryMap, ram, default, length, base_addr}
use fzkernel.Mem.FrameAlloc.{
  BuddyFrameAllocator, remove_blk, from_base_unchecked, buddy, level_size,
}
use fzkernel.Mem.Log2.{log2}
use fzkernel.Mem.Buddy
use fzkernel.Mem.FrameAlloc.{alloc}
use fzkernel.Mem.FrameAlloc.Refine.{alloc-allocate}
use fzkernel.Mem.FrameAlloc.View.{as_heap, through_pair, IsBounded, convert, convert-IsInjective}
use fzkernel.Mem.FrameAlloc.Hang.{remove_blk-hang}
use fzkernel.Mem.FrameAlloc.Pool.{IsLargest, largest_loop, largest_loop-IsLargest, segment_base}

-- The list of level 0 has one block, at 4096.
abbrev one_block : BuddyFrameAllocator
one_block = record {
  base_addr = 0;
  max_blk_size = 16384;
  min_blk_size = 4096;
  log2_min_blk_size = 13;
  mapping = λ a. a;
  levels = 3;
  free_lists = λ level. if level == 0 then 4096 else 0;
  memory = λ a. 0;
}

remove_blk-hang_example : remove_blk 1000 one_block 8192 0 ≡ hang
remove_blk-hang_example =
    remove_blk-hang 1000 one_block 8192 0 (omega arith) (λ e. absurd (omega (arith, e)))
      (λ e. absurd (omega (arith, e)))

abbrev segment : ℕ → ℕ → AddressRangeDescriptor
segment base size = record {
  base_addr_low = base;
  base_addr_high = 0;
  length_low = size;
  length_high = 0;
  addr_type = ram;
  extended_attributes = 0;
}

abbrev small_map : E820MemoryMap
small_map = record {
  map_len = 2;
  entries = segment 0 654336 ∷ segment 1048576 1072562176 ∷ [];
  cursor = 0;
}

-- With the kernel at 0x800000 in the second segment, the pool starts at 0xC00000.
pool_start : segment_base 8388608 8192 (segment 1048576 1072562176) ≡ 12582912
unfolding segment_base length base_addr
pool_start = refl

largest_loop-IsLargest_example : IsLargest small_map default (largest_loop 3 small_map default)
largest_loop-IsLargest_example =
    largest_loop-IsLargest 3 small_map default refl (omega arith) (omega arith) (omega arith)

-- The buddy of a block at the start of that pool lies below the pool.
below_the_pool :
    buddy (from_base_unchecked 18 (λ a. 0) (λ a. a) 12582912 536870912) 12582912 10
    ≡ done (some 8388608)
unfolding buddy level_size from_base_unchecked log2
below_the_pool = refl

-- The blocks behind the offset of physical memory.
abbrev offset_blocks : BuddyFrameAllocator
offset_blocks = record one_block { mapping = convert 18446690747395604480 }

offset_blocks-IsBounded : IsBounded 47 offset_blocks
offset_blocks-IsBounded = record {
  injective = convert-IsInjective 18446690747395604480;
  positive = omega arith;
  small = omega arith;
  width_small = omega arith;
}

offset_blocks_heads : (l : ℕ) → l < 3 → offset_blocks.free_lists l < 2 ^ 47
offset_blocks_heads l h = elim (Bool-cases (l == 0)) [
  | inl here ↦ rw here (omega arith)
  | inr away ↦ rw away (omega arith)
]

alloc-allocate_example :
    through_pair 47 (alloc offset_blocks 5000) ≡ Buddy.allocate (as_heap 47 offset_blocks) 5000 1
alloc-allocate_example =
    alloc-allocate 47 offset_blocks 5000 offset_blocks-IsBounded offset_blocks_heads (omega arith)
