-- ===== src/Mem/FrameAlloc.antt =====
-- The physical frame allocator: `BuddyFrameAllocator` of
-- src/x86/paging/page_alloc/frame_alloc.rs, and the pool that is opened on the memory map.
--
-- The links of the free blocks are read and written through `mapping`, from physical to virtual
-- addresses; `memory` holds the link at each virtual address. The null pointer is 0.
pub mod Hang
pub mod Pool
pub mod View
pub mod Refine
mod Examples
use fzkernel.Base.{
  ℕ, zero, suc, ◌+◌, ◌-◌, ◌%◌, Bool, true, false, ◌&&◌, Option, none, some, List, [], ◌∷◌, max, min,
  bit_or, bit_xor, ltb, leb, ◌==◌, if◌then◌else◌, u8, u64, u64_mod, ◌<<<◌, ◌>>>◌,
}
use fzkernel.Base.Outcome.{Outcome, done, panic, hang, ◌>>=◌, ◌>>◌, assert}
use fzkernel.Mem.Log2.{log2, next_power_of_two}
use fzkernel.Mem.Buddy.{update}

pub record BuddyFrameAllocator : Type 0 where
  pub base_addr : ℕ
  pub max_blk_size : ℕ
  pub min_blk_size : ℕ
  pub log2_min_blk_size : ℕ
  pub mapping : ℕ → ℕ
  -- the const parameter `N`
  pub levels : ℕ
  pub free_lists : ℕ → ℕ
  pub memory : ℕ → ℕ

pub record FrameAllocation : Type 0 where
  pub start : ℕ
  pub length : ℕ

pub data FrameAllocationError : Type 0 where
  no_available_frame : FrameAllocationError

pub data FrameResult : Type 0 where
  ok : FrameAllocation → FrameResult
  err : FrameAllocationError → FrameResult

abbrev pub check_level : BuddyFrameAllocator → ℕ → Outcome (Unit {0})
check_level s level = assert (ltb level s.levels)

abbrev pub set_head : BuddyFrameAllocator → ℕ → ℕ → BuddyFrameAllocator
set_head s level block = record s { free_lists = update s.free_lists level block }

pub level_size : BuddyFrameAllocator → ℕ → ℕ
level_size s level = u64 (s.min_blk_size <<< level)

pub buddy : BuddyFrameAllocator → ℕ → ℕ → Outcome (Option ℕ)
buddy s block level = do
  assert (leb s.base_addr block)
  assert (leb block (s.base_addr + s.max_blk_size))
  if level_size s level == s.max_blk_size
      then done none
      else done (some (bit_xor block (1 <<< (u8 (u8 (level + 255) + u8 s.log2_min_blk_size) % 64))))

pub free_blk : BuddyFrameAllocator → ℕ → ℕ → Outcome BuddyFrameAllocator
free_blk s block level = do
  check_level s level
  let linked = record s { memory = update s.memory (s.mapping block) (s.free_lists level) }
  done (set_head linked level block)

pub pop_blk_with_level : BuddyFrameAllocator → ℕ → Outcome (Option ℕ × BuddyFrameAllocator)
pop_blk_with_level s level = do
  check_level s level
  let head = s.free_lists level
  if head == 0
      then done (none, s)
      else if level == s.levels - 1
      then done (some head, set_head s level 0)
      else done (some head, set_head s level (s.memory (s.mapping head)))

-- `*curr_blk = …`: the head of the list, or the link at a virtual address.
pub data Place : Type 0 where
  list_head : ℕ → Place
  link_at : ℕ → Place

abbrev pub store : BuddyFrameAllocator → Place → ℕ → BuddyFrameAllocator
store s (list_head level) v = set_head s level v
store s (link_at addr) v = record s { memory = update s.memory addr v }

-- `while !curr_blk_ptr.is_null()`: `curr_blk_ptr` is read once, before the loop. The link of the
-- block that is found is read at its physical address.
pub remove_loop : ℕ → BuddyFrameAllocator → ℕ → ℕ → Place → Outcome (Bool × BuddyFrameAllocator)
remove_loop zero s block curr_blk_ptr curr_blk = hang
remove_loop (suc fuel) s block curr_blk_ptr curr_blk =
    let rest = remove_loop fuel s block curr_blk_ptr (link_at (s.mapping curr_blk_ptr)) in
    if curr_blk_ptr == 0
    then done (false, s)
    else if curr_blk_ptr == block
    then done (true, store s curr_blk (s.memory block))
    else rest

pub remove_blk : ℕ → BuddyFrameAllocator → ℕ → ℕ → Outcome (Bool × BuddyFrameAllocator)
unfolding remove_loop
remove_blk fuel s block level = do
  check_level s level
  remove_loop fuel s block (s.free_lists level) (list_head level)

pub free_buddy : BuddyFrameAllocator → ℕ → Option ℕ → Outcome BuddyFrameAllocator
free_buddy s level none = panic
free_buddy s level (some b) = free_blk s b level

-- `while level > new_level`
pub split_loop : BuddyFrameAllocator → ℕ → ℕ → ℕ → Outcome BuddyFrameAllocator
split_loop s block zero new_level = done s
split_loop s block (suc level) new_level =
    if ltb new_level (suc level)
    then (do
      found ← buddy s block level
      s' ← free_buddy s level found
      split_loop s' block level new_level)
    else done s

pub split_blk : BuddyFrameAllocator → ℕ → ℕ → ℕ → Outcome BuddyFrameAllocator
split_blk s block level new_level = do
  assert (leb new_level level)
  split_loop s block level new_level

pub allocation_level : BuddyFrameAllocator → ℕ → Outcome ℕ
allocation_level s size = do
  assert (ltb size s.max_blk_size)
  let rounded = next_power_of_two (max size s.min_blk_size)
  done (u8 (u64 (log2 rounded + u64_mod - s.log2_min_blk_size)))

pub give : BuddyFrameAllocator → ℕ → ℕ → ℕ → Outcome (ℕ × BuddyFrameAllocator)
give s blk level level_req =
    if ltb level_req level
    then (do split ← split_blk s blk level level_req; done (blk, split))
    else done (blk, s)

pub alloc_loop : ℕ → BuddyFrameAllocator → ℕ → ℕ → Outcome (ℕ × BuddyFrameAllocator)
alloc_loop zero s level_req level = hang
alloc_loop (suc fuel) s level_req level =
    if ltb level s.levels
    then (do
      popped ← pop_blk_with_level s level
      elim popped.0 [
        | some blk ↦ give popped.1 blk level level_req
        | none ↦ alloc_loop fuel popped.1 level_req (u8 (level + 1))
      ])
    else done (0, s)

pub alloc : BuddyFrameAllocator → ℕ → Outcome (ℕ × BuddyFrameAllocator)
alloc s size = do
  level_req ← allocation_level s size
  alloc_loop (suc s.levels) s level_req level_req

-- `FrameAllocator::allocate`
pub allocate : BuddyFrameAllocator → ℕ → Outcome (FrameResult × BuddyFrameAllocator)
allocate s size = do
  r ← alloc s size
  if r.0 == 0
      then done (err no_available_frame, r.1)
      else done (ok (record { start = r.0; length = size }), r.1)

pub take_buddy : ℕ → BuddyFrameAllocator → Option ℕ → ℕ → Outcome (Bool × BuddyFrameAllocator)
take_buddy fuel s none level = done (false, s)
take_buddy fuel s (some b) level = remove_blk fuel s b level

abbrev pub get_or_self : Option ℕ → ℕ → ℕ
get_or_self none block = block
get_or_self (some b) block = b

pub dealloc_loop : ℕ → ℕ → BuddyFrameAllocator → ℕ → ℕ → Outcome BuddyFrameAllocator
dealloc_loop fuel zero s full_block level = done s
dealloc_loop fuel (suc left) s full_block level = do
  found ← buddy s full_block (u8 level)
  taken ← take_buddy fuel s found (u8 level)
  if taken.0
      then dealloc_loop fuel left taken.1 (min (get_or_self found full_block) full_block)
          (level + 1)
      else free_blk taken.1 full_block (u8 level)

pub dealloc : ℕ → BuddyFrameAllocator → ℕ → ℕ → Outcome BuddyFrameAllocator
dealloc fuel s block size = do
  alloc_level ← allocation_level s size
  dealloc_loop fuel (s.levels - alloc_level) s block alloc_level

pub from_base_unchecked : ℕ → (ℕ → ℕ) → (ℕ → ℕ) → ℕ → ℕ → BuddyFrameAllocator
from_base_unchecked n memory mapping base_addr max_blk_size =
    let min_blk_size = max_blk_size >>> (n - 1) in
    record {
      base_addr = base_addr;
      max_blk_size = max_blk_size;
      min_blk_size = min_blk_size;
      log2_min_blk_size = log2 min_blk_size;
      mapping = mapping;
      levels = n;
      free_lists = update (λ _. 0) (n - 1) base_addr;
      memory = memory;
    }

pub new : ℕ → (ℕ → ℕ) → (ℕ → ℕ) → ℕ → ℕ → Outcome BuddyFrameAllocator
unfolding from_base_unchecked
new n memory mapping base_addr max_blk_size = do
  assert (max_blk_size >>> (n - 1) == 4096)
  done (from_base_unchecked n memory mapping base_addr max_blk_size)
