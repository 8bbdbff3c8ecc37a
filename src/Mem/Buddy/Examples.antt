-- ===== src/Mem/Buddy/Examples.antt =====
-- Runs of the buddy allocator on a heap of 16 KiB with blocks from 4 KiB up, and the theorems at
-- inputs that meet their hypotheses.
use fzkernel.Base.{ℕ, suc, ◌+◌, ◌<◌, ◌≡◌, refl, ap, sym, ◌∙◌, ◌⊎◌, inl, inr, List, [], ◌∷◌, arith}
use fzkernel.Base.Outcome.{Outcome, done, done-injective}
use fzkernel.Mem.Log2.{log2, next_power_of_two}
use fzkernel.Mem.Buddy.{
  BuddyAllocator, allocate, allocate_loop, allocation_level, deallocate, deallocate_loop,
  take_buddy, remove_blk, remove_loop, new, from_base_unchecked, pop_blk_with_level, give,
  split_blk, split_loop, buddy, level_size, free_buddy, free_blk,
}
use fzkernel.Mem.Buddy.Valid.{IsValid}
use fzkernel.Mem.Buddy.Start.{heap_free, fresh-IsValid}
use fzkernel.Mem.Buddy.Allocate.{Gives, IsExhausted, Serves, allocate-Serves}
use fzkernel.Mem.Buddy.Deallocate.{total_length, total_length-IsEnough}
use fzkernel.Mem.Buddy.RoundTrip.{Undoes, deallocate-allocate}
use fzkernel.Mem.Buddy.Trace.{Grant, Reach, start, allocated, Conserves, Reach-Conserves}

abbrev base : ℕ
base = 65536

abbrev blank : ℕ → ℕ
blank a = 0

abbrev state_of : Outcome (ℕ × BuddyAllocator) → BuddyAllocator → BuddyAllocator
state_of (done (b, s)) d = s
state_of _ d = d

heap_opens : new 3 blank base 16384 ≡ done (from_base_unchecked 3 blank base 16384)
unfolding new from_base_unchecked log2
heap_opens = refl

abbrev opened : BuddyAllocator
opened = from_base_unchecked 3 blank base 16384

abbrev first : BuddyAllocator
first = state_of (allocate opened 100 8) opened

first_call : allocate opened 100 8 ≡ done (base, first)
unfolding allocate allocate_loop allocation_level log2 next_power_of_two pop_blk_with_level give
    split_blk split_loop buddy level_size free_buddy free_blk from_base_unchecked
first_call = refl

-- The halves that were cut off are free: 4 KiB behind the block, and 8 KiB behind these.
first_lists : (first.free_lists 0 ≡ base + 4096) × (first.free_lists 1 ≡ base + 8192)
unfolding allocate allocate_loop allocation_level log2 next_power_of_two pop_blk_with_level give
    split_blk split_loop buddy level_size free_buddy free_blk from_base_unchecked
first_lists = (refl, refl)

abbrev page : Grant
page = record { block = base; size = 100; align = 8; level = 0 }

small : 100 < opened.max_blk_size
unfolding from_base_unchecked
small = omega arith

power : next_power_of_two 8 ≡ 8
unfolding next_power_of_two
power = refl

page_level : allocation_level opened 100 8 ≡ done 0
unfolding allocation_level log2 next_power_of_two from_base_unchecked
page_level = refl

held_once : Reach blank base 12 2 first (page ∷ [])
held_once =
    allocated page (start heap_opens) small power (omega arith) page_level first_call (omega arith)

Reach-Conserves_example : Conserves base 12 2 first (page ∷ [])
Reach-Conserves_example =
    Reach-Conserves 4 (omega arith) (omega arith) (omega arith) (omega arith) (omega arith)
      held_once

abbrev heads : Outcome BuddyAllocator → List ℕ
heads (done s) = s.free_lists 0 ∷ s.free_lists 1 ∷ s.free_lists 2 ∷ []
heads _ = []

-- The block is given back, and merges with both halves to the whole heap.
page_returns : heads (deallocate 4 first base 100 8) ≡ 0 ∷ 0 ∷ base ∷ []
unfolding allocate allocate_loop allocation_level log2 next_power_of_two pop_blk_with_level give
    split_blk split_loop buddy level_size free_buddy free_blk from_base_unchecked deallocate
    deallocate_loop take_buddy remove_blk remove_loop
page_returns = refl

opened-IsValid : IsValid base 12 2 opened (heap_free 2 base)
opened-IsValid =
    fresh-IsValid blank base 12 2 4 (omega arith) (omega arith) (omega arith) (omega arith)

allocate-Serves_example : Serves base 12 2 opened (heap_free 2 base) 100 8 (allocate opened 100 8)
allocate-Serves_example = allocate-Serves opened-IsValid 100 8 small power (omega arith)

served : Serves base 12 2 opened (heap_free 2 base) 100 8 (allocate opened 100 8)
served = allocate-Serves opened-IsValid 100 8 small power (omega arith)

given : Gives base 12 2 (heap_free 2 base) served.fits.level (allocate opened 100 8)
given = pick served.answer
  where
    pick :
        Gives base 12 2 (heap_free 2 base) served.fits.level (allocate opened 100 8)
          ⊎ IsExhausted 2 opened (heap_free 2 base) served.fits.level (allocate opened 100 8)
        → Gives base 12 2 (heap_free 2 base) served.fits.level (allocate opened 100 8)
    pick (inl g) = g
    pick (inr x) =
        let null : base ≡ 0 = ap (λ p. p.0) (done-injective (sym first_call ∙ x.returns)) in
        absurd (omega arith)

deallocate-allocate_example :
    Undoes base 12 2
      (heap_free 2 base)
      100
      8
      (given.block, given.state)
      (suc (total_length 3 given.lists))
deallocate-allocate_example =
    deallocate-allocate opened-IsValid 100 8 (suc (total_length 3 given.lists)) served.fits given
      (total_length-IsEnough (suc (total_length 3 given.lists)) 2 given.lists (omega arith))
