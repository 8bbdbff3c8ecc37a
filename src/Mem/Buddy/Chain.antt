-- ===== src/Mem/Buddy/Chain.antt =====
-- The linked lists in memory: which blocks a pointer leads to, and what a write leaves alone.
use fzkernel.Base.{
  ℕ, zero, suc, ◌<◌, ◌≡◌, ◌≢◌, List, [], ◌∷◌, length, ◌==◌, if◌then◌else◌, arith, eq→==,
}
use fzkernel.Base.Outcome.{done}
use fzkernel.Mem.Buddy.{BuddyAllocator, Place, link_of, load, store, update, remove_loop}
use fzkernel.Mem.Buddy.Cover.{Without, mem}

-- From `head` the links run through the blocks of the list, and end in the null pointer.
abbrev pub Chain : (ℕ → ℕ) → ℕ → List ℕ → Type 0
Chain next head [] = head ≡ 0
Chain next head (b ∷ bs) = (head ≡ b) × (b ≢ 0) × Chain next (next b) bs

-- A write to a block that is not in the list leaves the list alone.
pub Chain-update :
    (next : ℕ → ℕ) (b v head : ℕ) (bs : List ℕ)
    → Without b bs
    → Chain next head bs
    → Chain (update next b v) head bs
Chain-update next b v head [] w c = c
Chain-update next b v head (x ∷ bs) w c =
    let e : update next b v x ≡ next x = ground (arith, w.0) in
    (c.0, c.1, rw e (Chain-update next b v (next x) bs w.1 c.2))

-- Where the walk of `remove_blk` ends: the place whose link it overwrites, if there is one.
abbrev pub removed : BuddyAllocator → ℕ → Place → List ℕ → BuddyAllocator
removed s b place [] = s
removed s b place (x ∷ bs) =
    if x == b then store s place (s.next_blk b) else removed s b (link_of x) bs

-- With fuel beyond the length of the list the walk ends.
pub remove_loop_ends :
    (fuel : ℕ) (s : BuddyAllocator) (b : ℕ) (place : Place) (bs : List ℕ)
    → length bs < fuel
    → Chain s.next_blk (load s place) bs
    → remove_loop fuel s b place ≡ done (mem b bs, removed s b place bs)
unfolding remove_loop
remove_loop_ends zero s b place bs h c = absurd (omega arith)
remove_loop_ends (suc fuel) s b place [] h c = rw (eq→== _ _ c)
remove_loop_ends (suc fuel) s b place (x ∷ bs) h c =
    let c' : Chain s.next_blk (load s (link_of (load s place))) bs = rw c.0 c.2 in
    ground (arith, remove_loop_ends fuel s b (link_of (load s place)) bs, c.0, c.1)
