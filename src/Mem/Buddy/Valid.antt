-- ===== src/Mem/Buddy/Valid.antt =====
-- The invariant of the allocator: what its lists hold, seen as lists.
use fzkernel.Base.{ℕ, suc, ◌+◌, ◌^◌, ◌≤◌, ◌<◌, ◌≡◌, ◌≢◌, List, [], ◌∷◌, All, arith}
use fzkernel.Base.Pow.{pow2_pos}
use fzkernel.Mem.Buddy.{BuddyAllocator}
use fzkernel.Mem.Buddy.Cover.{
  cover, inside, Without, IsDistinct, count-le-cover, count_zero-Without, count_once-IsDistinct,
}
use fzkernel.Mem.Buddy.Chain.{Chain}
use fzkernel.Mem.Buddy.Block.{IsGeometric, IsBlock}

-- The list of the level that is the whole heap: its one block's link is never read, and may not
-- have been written.
abbrev pub TopChain : ℕ → List ℕ → Type 0
TopChain head [] = head ≡ 0
TopChain head (b ∷ []) = (head ≡ b) × (b ≢ 0)
TopChain head (b ∷ c ∷ bs) = ⊥

-- The lists in memory hold the blocks of `free`; these lie in the heap at their level's
-- addresses, and no address is in two of them.
pub record IsValid (base m top : ℕ) (s : BuddyAllocator) (free : ℕ → List ℕ) : Type 0 where
  pub geometry : IsGeometric base m top s
  pub chains : (l : ℕ) → l < top → Chain s.next_blk (s.free_lists l) (free l)
  pub top_chain : TopChain (s.free_lists top) (free top)
  pub blocks : (l : ℕ) → l ≤ top → All (IsBlock base m top l) (free l)
  pub once : (a : ℕ) → cover m (suc top) free a ≤ 1

-- The free memory, as an observer sees it: how many free blocks hold an address.
abbrev pub is_free : ℕ → ℕ → (ℕ → List ℕ) → ℕ → ℕ
is_free m top free a = cover m (suc top) free a

pub IsGeometric-same :
    {base m top : ℕ} {s : BuddyAllocator}
    → IsGeometric base m top s
    → (lists next : ℕ → ℕ)
    → IsGeometric base m top (record s { free_lists = lists; next_blk = next })
IsGeometric-same g lists next = record {
  min_size = g.min_size;
  max_size = g.max_size;
  log2_min = g.log2_min;
  level_count = g.level_count;
  word = g.word;
  heap_aligned = g.heap_aligned;
  based = g.based;
  not_null = g.not_null;
  heap_index = g.heap_index;
  aligned = g.aligned;
}

-- A block whose first address is in no free block is on no list.
pub not_free-Without :
    (m top : ℕ) (free : ℕ → List ℕ) (b l : ℕ)
    → l ≤ top
    → is_free m top free b ≡ 0
    → Without b (free l)
not_free-Without m top free b l h e =
    count_zero-Without (2 ^ (m + l)) b (free l) (pow2_pos (m + l))
      (omega (arith, e, count-le-cover m (suc top) l free b (omega arith)))

module _ {base m top : ℕ} {s : BuddyAllocator} {free : ℕ → List ℕ}
    (v : IsValid base m top s free) where
  pub list-IsDistinct : (l : ℕ) → l ≤ top → IsDistinct (free l)
  list-IsDistinct l h =
      count_once-IsDistinct (2 ^ (m + l)) (free l) (pow2_pos (m + l))
        (λ a. omega (arith, v.once a, count-le-cover m (suc top) l free a (omega arith)))

-- What a block that is handed over, or taken back, must be: one of its level, and not free.
pub record IsSpare (base m top : ℕ) (free : ℕ → List ℕ) (level b : ℕ) : Type 0 where
  pub is_block : IsBlock base m top level b
  pub apart : (a : ℕ) → is_free m top free a + inside (2 ^ (m + level)) b a ≤ 1

pub IsSpare-not_free :
    {base m top level b : ℕ} {free : ℕ → List ℕ}
    → IsSpare base m top free level b
    → is_free m top free b ≡ 0
IsSpare-not_free {base} {m} {top} {level} {b} s = ground (arith, s.apart b, pow2_pos (m + level))
