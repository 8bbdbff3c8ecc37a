-- ===== src/Mem/Buddy/RoundTrip.antt =====
-- An allocation that is given back at once.
use fzkernel.Base.{ℕ, ◌≡◌, ◌∙◌, List, arith}
use fzkernel.Base.Outcome.{done}
use fzkernel.Mem.Buddy.{BuddyAllocator, allocate, deallocate, allocation_level}
use fzkernel.Mem.Buddy.Valid.{IsValid, is_free}
use fzkernel.Mem.Buddy.Level.{Fits, allocation_level-same}
use fzkernel.Mem.Buddy.Allocate.{Gives}
use fzkernel.Mem.Buddy.Deallocate.{Frees, IsEnough, deallocate-Frees}

-- The block comes back, and just the addresses are free that were free before.
pub record Undoes (base m top : ℕ) (free : ℕ → List ℕ) (size align : ℕ) (g : ℕ × BuddyAllocator)
    (fuel : ℕ) : Type 0 where
  pub state : BuddyAllocator
  pub lists : ℕ → List ℕ
  pub returns : deallocate fuel g.1 g.0 size align ≡ done state
  pub valid : IsValid base m top state lists
  pub same : (a : ℕ) → is_free m top lists a ≡ is_free m top free a

-- In a valid state, a block that `allocate` gave is given back with the same size and alignment,
-- with fuel beyond the length of every list. Then `deallocate` returns, the lists are valid, and
-- the free addresses are just those that were free before the allocation.
pub deallocate-allocate :
    {base m top : ℕ} {s : BuddyAllocator} {free : ℕ → List ℕ}
    → IsValid base m top s free
    → (size align fuel : ℕ) → (fits : Fits m top size align (allocation_level s size align))
    → (g : Gives base m top free fits.level (allocate s size align)) → IsEnough fuel top g.lists
    → Undoes base m top free size align (g.block, g.state) fuel
deallocate-allocate {base} {m} {top} {s} {free} v size align fuel fits g enough = record {
  state = back.state;
  lists = back.lists;
  returns = back.returns;
  valid = back.valid;
  same = λ a. omega (arith, back.balance a, g.balance a);
}
  where
    fits_after : Fits m top size align (allocation_level g.state size align)
    fits_after = record {
      level = fits.level;
      returns = allocation_level-same g.valid.geometry v.geometry size align ∙ fits.returns;
      in_range = fits.in_range;
      holds_size = fits.holds_size;
      holds_align = fits.holds_align;
      least = fits.least;
    }

    back : Frees base m top g.lists fits.level g.block (deallocate fuel g.state g.block size align)
    back = deallocate-Frees g.valid fuel g.block size align enough fits_after g.spare
