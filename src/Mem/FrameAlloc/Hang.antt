-- ===== src/Mem/FrameAlloc/Hang.antt =====
-- The walk of `remove_blk` along a list whose head is another block.
use fzkernel.Base.{ℕ, zero, suc, ◌<◌, ◌≡◌, ◌≢◌, refl, lt→ltb, ne→==}
use fzkernel.Base.Outcome.{hang}
use fzkernel.Mem.FrameAlloc.{
  BuddyFrameAllocator, Place, list_head, link_at, remove_loop, remove_blk,
}

remove_loop-hang :
    (fuel : ℕ) (s : BuddyFrameAllocator) (block ptr : ℕ) (place : Place)
    → ptr ≢ 0
    → ptr ≢ block
    → remove_loop fuel s block ptr place ≡ hang
unfolding remove_loop
remove_loop-hang zero s block ptr place some_block other = refl
remove_loop-hang (suc fuel) s block ptr place some_block other =
    rw (ne→== ptr 0 some_block, ne→== ptr block other)
      (remove_loop-hang fuel s block ptr (link_at (s.mapping ptr)) some_block other)

-- Where the list of a level is not empty and another block is at its head, `remove_blk` never
-- returns: no fuel is enough for its loop.
pub remove_blk-hang :
    (fuel : ℕ) (s : BuddyFrameAllocator) (block level : ℕ)
    → level < s.levels
    → s.free_lists level ≢ 0
    → s.free_lists level ≢ block
    → remove_blk fuel s block level ≡ hang
unfolding remove_blk
remove_blk-hang fuel s block level in_range some_block other =
    rw (lt→ltb level s.levels in_range)
      (remove_loop-hang fuel s block (s.free_lists level) (list_head level) some_block other)
