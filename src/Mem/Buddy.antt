-- ===== src/Mem/Buddy.antt =====
-- The buddy allocator of src/mem/bmalloc/heap.rs.
--
-- A free block holds the link to the next free block of its size in its own first bytes. So the
-- state has the record `BuddyAllocator` with the heads of its lists, and the memory: the link
-- that is stored at each address, `next_blk`. The null pointer is 0.
pub mod Cover
pub mod Chain
pub mod Block
pub mod Valid
pub mod Lists
pub mod Remove
pub mod Level
pub mod Split
pub mod Allocate
pub mod Deallocate
pub mod Start
pub mod RoundTrip
pub mod Trace
mod Examples
use fzkernel.Base.{
  ℕ, zero, suc, ◌+◌, ◌-◌, ◌%◌, Bool, true, false, Option, none, some, max, min, bit_and, bit_xor,
  ltb, leb, ◌==◌, if◌then◌else◌, u8, u64, u64_mod, ◌<<<◌, ◌>>>◌,
}
use fzkernel.Base.Outcome.{Outcome, done, panic, hang, ◌>>=◌, ◌>>◌, assert}
use fzkernel.Mem.Log2.{log2, next_power_of_two}

pub record BuddyAllocator : Type 0 where
  pub base_addr : ℕ
  pub max_blk_size : ℕ
  pub min_blk_size : ℕ
  pub log2_min_blk_size : ℕ
  -- the const parameter `N`
  pub levels : ℕ
  -- the heads of the lists
  pub free_lists : ℕ → ℕ
  -- the memory: the `next_blk` of the header at an address
  pub next_blk : ℕ → ℕ

-- A pointer to a link: the head of a list, or the `next_blk` of a block. (`&mut` in `remove_blk`)
pub data Place : Type 0 where
  list_head : ℕ → Place
  link_of : ℕ → Place

abbrev pub update : (ℕ → ℕ) → ℕ → ℕ → ℕ → ℕ
update f k v j = if k == j then v else f j

abbrev pub load : BuddyAllocator → Place → ℕ
load s (list_head level) = s.free_lists level
load s (link_of block) = s.next_blk block

abbrev pub store : BuddyAllocator → Place → ℕ → BuddyAllocator
store s (list_head level) v = record s { free_lists = update s.free_lists level v }
store s (link_of block) v = record s { next_blk = update s.next_blk block v }

-- An index into the array `free_lists` panics out of range.
abbrev pub check_level : BuddyAllocator → ℕ → Outcome (Unit {0})
check_level s level = assert (ltb level s.levels)

unfoldable pub level_size : BuddyAllocator → ℕ → ℕ
level_size s level = u64 (s.min_blk_size <<< level)

-- The level is a `u8`, so `level - 1` wraps in a release build; the shift takes its amount modulo 64.
unfoldable pub buddy : BuddyAllocator → ℕ → ℕ → Outcome (Option ℕ)
unfolding level_size
buddy s block level = do
  assert (leb s.base_addr block)
  assert (leb block (s.base_addr + s.max_blk_size))
  if level_size s level == s.max_blk_size
      then done none
      else done (some (bit_xor block (1 <<< (u8 (u8 (level + 255) + u8 s.log2_min_blk_size) % 64))))

unfoldable pub free_blk : BuddyAllocator → ℕ → ℕ → Outcome BuddyAllocator
free_blk s block level = do
  check_level s level
  let linked = store s (link_of block) (s.free_lists level)
  done (store linked (list_head level) block)

-- The header of the block that is the whole heap may never have been written, so its link is not
-- read.
unfoldable pub pop_blk_with_level : BuddyAllocator → ℕ → Outcome (Option ℕ × BuddyAllocator)
pop_blk_with_level s level = do
  check_level s level
  let head = s.free_lists level
  if head == 0
      then done (none, s)
      else if level == s.levels - 1
      then done (some head, store s (list_head level) 0)
      else done (some head, store s (list_head level) (s.next_blk head))

-- `while !(*curr_blk).is_null()`
pub remove_loop : ℕ → BuddyAllocator → ℕ → Place → Outcome (Bool × BuddyAllocator)
remove_loop zero s block curr_blk = hang
remove_loop (suc fuel) s block curr_blk =
    let rest = remove_loop fuel s block (link_of (load s curr_blk)) in
    if load s curr_blk == 0
    then done (false, s)
    else if load s curr_blk == block
    then done (true, store s curr_blk (s.next_blk block))
    else rest

pub remove_blk : ℕ → BuddyAllocator → ℕ → ℕ → Outcome (Bool × BuddyAllocator)
remove_blk fuel s block level = do check_level s level; remove_loop fuel s block (list_head level)

-- `buddy(…).unwrap()`, and the buddy is marked as free.
unfoldable pub free_buddy : BuddyAllocator → ℕ → Option ℕ → Outcome BuddyAllocator
unfolding free_blk
free_buddy s level none = panic
free_buddy s level (some b) = free_blk s b level

-- `while level > new_level`
unfoldable pub split_loop : BuddyAllocator → ℕ → ℕ → ℕ → Outcome BuddyAllocator
split_loop s block zero new_level = done s
split_loop s block (suc level) new_level =
    if ltb new_level (suc level)
    then (do
      found ← buddy s block level
      s' ← free_buddy s level found
      split_loop s' block level new_level)
    else done s

unfoldable pub split_blk : BuddyAllocator → ℕ → ℕ → ℕ → Outcome BuddyAllocator
split_blk s block level new_level = do
  assert (leb new_level level)
  split_loop s block level new_level

abbrev pub min_heap_align : ℕ
min_heap_align = 8192

unfoldable pub allocation_level : BuddyAllocator → ℕ → ℕ → Outcome ℕ
unfolding log2 next_power_of_two
allocation_level s size align = do
  assert (ltb size s.max_blk_size)
  assert (next_power_of_two align == align)
  assert (ltb align min_heap_align)
  let rounded = next_power_of_two (max (max size align) s.min_blk_size)
  done (u8 (u64 (log2 rounded + u64_mod - s.log2_min_blk_size)))

-- A block found at `level` is split down to the level that was asked for.
unfoldable pub give : BuddyAllocator → ℕ → ℕ → ℕ → Outcome (ℕ × BuddyAllocator)
give s blk level level_req =
    if ltb level_req level
    then (do split ← split_blk s blk level level_req; done (blk, split))
    else done (blk, s)

-- The `while` of `allocate`: from `level` up, the first list that has a block.
unfoldable pub allocate_loop : ℕ → BuddyAllocator → ℕ → ℕ → Outcome (ℕ × BuddyAllocator)
allocate_loop zero s level_req level = hang
allocate_loop (suc fuel) s level_req level =
    if ltb level s.levels
    then (do
      popped ← pop_blk_with_level s level
      elim popped.0 [
        | some blk ↦ give popped.1 blk level level_req
        | none ↦ allocate_loop fuel popped.1 level_req (u8 (level + 1))
      ])
    else done (0, s)

-- The null pointer, 0, is returned where no block is left.
unfoldable pub allocate : BuddyAllocator → ℕ → ℕ → Outcome (ℕ × BuddyAllocator)
allocate s size align = do
  level_req ← allocation_level s size align
  allocate_loop (suc s.levels) s level_req level_req

-- `if let Some(buddy) = self.buddy(…)`: whether the buddy was free, and is now off its list.
pub take_buddy : ℕ → BuddyAllocator → Option ℕ → ℕ → Outcome (Bool × BuddyAllocator)
take_buddy fuel s none level = done (false, s)
take_buddy fuel s (some b) level = remove_blk fuel s b level

abbrev pub get_or_self : Option ℕ → ℕ → ℕ
get_or_self none block = block
get_or_self (some b) block = b

-- `for level in alloc_level..self.free_lists.len()`, with the levels that are left.
pub deallocate_loop : ℕ → ℕ → BuddyAllocator → ℕ → ℕ → Outcome BuddyAllocator
deallocate_loop fuel zero s full_block level = done s
deallocate_loop fuel (suc left) s full_block level = do
  found ← buddy s full_block (u8 level)
  taken ← take_buddy fuel s found (u8 level)
  if taken.0
      then deallocate_loop fuel left taken.1 (min (get_or_self found full_block) full_block)
          (level + 1)
      else free_blk taken.1 full_block (u8 level)

-- `fuel` bounds the walk along one list.
pub deallocate : ℕ → BuddyAllocator → ℕ → ℕ → ℕ → Outcome BuddyAllocator
deallocate fuel s block size align = do
  alloc_level ← allocation_level s size align
  deallocate_loop fuel (s.levels - alloc_level) s block alloc_level

-- A pointer to the next block is a word.
abbrev pub header_size : ℕ
header_size = 8

-- `memory` is what the heap holds before.
pub from_base_unchecked : ℕ → (ℕ → ℕ) → ℕ → ℕ → BuddyAllocator
unfolding log2
from_base_unchecked n memory base_addr max_blk_size =
    let min_blk_size = max_blk_size >>> (n - 1) in
    record {
      base_addr = base_addr;
      max_blk_size = max_blk_size;
      min_blk_size = min_blk_size;
      log2_min_blk_size = log2 min_blk_size;
      levels = n;
      free_lists = update (λ _. 0) (n - 1) base_addr;
      next_blk = memory;
    }

pub new : ℕ → (ℕ → ℕ) → ℕ → ℕ → Outcome BuddyAllocator
unfolding from_base_unchecked
new n memory base_addr max_blk_size = do
  assert (leb header_size (max_blk_size >>> (n - 1)))
  assert (bit_and max_blk_size (min_heap_align - 1) == 0)
  done (from_base_unchecked n memory base_addr max_blk_size)

-- The smallest size is computed before the size of the heap is rounded down.
pub resize : BuddyAllocator → ℕ → ℕ → Outcome BuddyAllocator
unfolding log2
resize s base_addr max_blk_size = do
  let min_blk_size = max_blk_size >>> (s.levels - 1)
  assert (leb header_size min_blk_size)
  let rounded = bit_and max_blk_size (u64_mod - min_heap_align)
  assert (bit_and rounded (min_heap_align - 1) == 0)
  done (record s {
    base_addr = base_addr;
    max_blk_size = rounded;
    min_blk_size = min_blk_size;
    log2_min_blk_size = log2 min_blk_size;
    free_lists = update (λ _. 0) (s.levels - 1) base_addr;
  })
