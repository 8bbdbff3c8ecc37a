-- ===== src/Mem/Buddy/Trace.antt =====
-- Any sequence of calls from a new heap: what is free and what is handed out make up the heap,
-- without overlap and without loss.
use fzkernel.Base.{
  ℕ, suc, ◌+◌, ◌*◌, ◌^◌, ◌≤◌, ◌<◌, ◌≡◌, ◌≢◌, refl, sym, ap, ◌∙◌, ◌⊎◌, inl, inr, List, [], ◌∷◌, ◌++◌,
  All, arith,
}
use mathlib.Core.Path.{subst}
use fzkernel.Base.Outcome.{done, done-injective}
use fzkernel.Mem.Log2.{next_power_of_two}
use fzkernel.Mem.Buddy.{BuddyAllocator, allocate, deallocate, new, allocation_level}
use fzkernel.Mem.Buddy.Cover.{inside}
use fzkernel.Mem.Buddy.Block.{IsGeometric, IsBlock, IsBlock-le}
use fzkernel.Mem.Buddy.Valid.{IsValid, IsSpare, is_free}
use fzkernel.Mem.Buddy.Level.{Fits, allocation_level-Fits, allocation_level-same}
use fzkernel.Mem.Buddy.Allocate.{Gives, IsExhausted, allocate-Serves}
use fzkernel.Mem.Buddy.Deallocate.{
  Frees, IsEnough, deallocate-Frees, total_length, total_length-IsEnough,
}
use fzkernel.Mem.Buddy.Start.{heap_free, fresh-IsValid, is_free-fresh, new-fresh}

-- A block that a client holds, with the layout of its request and the level that this has.
pub record Grant : Type 0 where
  pub block : ℕ
  pub size : ℕ
  pub align : ℕ
  pub level : ℕ

-- How many of the blocks that clients hold have the address in them.
pub held : ℕ → List Grant → ℕ → ℕ
held m [] a = 0
held m (g ∷ gs) a = inside (2 ^ (m + g.level)) g.block a + held m gs a

-- The call ends with this outcome whatever fuel it is given beyond some limit.
pub record Ends (s : BuddyAllocator) (g : Grant) (s' : BuddyAllocator) : Type 0 where
  pub limit : ℕ
  pub ends : (fuel : ℕ) → limit ≤ fuel → deallocate fuel s g.block g.size g.align ≡ done s'

-- The states that calls lead to, with the blocks that clients hold there. A client gives back
-- what it holds, with the layout that it asked for.
pub data Reach (memory : ℕ → ℕ) (base m top : ℕ) : BuddyAllocator → List Grant → Type 0 where
  start :
      {s : BuddyAllocator}
      → new (suc top) memory base (2 ^ (m + top)) ≡ done s
      → Reach memory base m top s []
  allocated :
      {s s' : BuddyAllocator} {gs : List Grant} (g : Grant)
      → Reach memory base m top s gs
      → g.size < s.max_blk_size
      → next_power_of_two g.align ≡ g.align
      → g.align < 8192
      → allocation_level s g.size g.align ≡ done g.level
      → allocate s g.size g.align ≡ done (g.block, s')
      → g.block ≢ 0
      → Reach memory base m top s' (g ∷ gs)
  exhausted :
      {s s' : BuddyAllocator} {gs : List Grant} (size align : ℕ)
      → Reach memory base m top s gs
      → size < s.max_blk_size
      → next_power_of_two align ≡ align
      → align < 8192
      → allocate s size align ≡ done (0, s')
      → Reach memory base m top s' gs
  deallocated :
      {s s' : BuddyAllocator} {gs : List Grant} (before after : List Grant) (g : Grant)
      → Reach memory base m top s gs
      → gs ≡ before ++ g ∷ after
      → Ends s g s'
      → Reach memory base m top s' (before ++ after)

-- What a client holds is a block of the level that its layout gets.
pub record IsGrant (base m top : ℕ) (g : Grant) : Type 0 where
  pub is_block : IsBlock base m top g.level g.block
  pub fits_heap : g.size < 2 ^ (m + top)
  pub power : next_power_of_two g.align ≡ g.align
  pub aligned : g.align < 8192
  pub level_of :
      (s : BuddyAllocator)
      → IsGeometric base m top s
      → allocation_level s g.size g.align ≡ done g.level

-- Every address of the heap is in just one block, a free one or one that a client holds, and no
-- other address is in any.
pub record Conserves (base m top : ℕ) (s : BuddyAllocator) (gs : List Grant) : Type 0 where
  pub lists : ℕ → List ℕ
  pub valid : IsValid base m top s lists
  pub grants : All (IsGrant base m top) gs
  pub balance : (a : ℕ) → is_free m top lists a + held m gs a ≡ inside (2 ^ (m + top)) base a

All-middle :
    (P : Grant → Type 0) (before : List Grant) (g : Grant) (after : List Grant)
    → All P (before ++ g ∷ after)
    → P g × All P (before ++ after)
All-middle P [] g after h = h
All-middle P (x ∷ before) g after h = let r = All-middle P before g after h.1 in (r.0, (h.0, r.1))

held-middle :
    (m : ℕ) (before : List Grant) (g : Grant) (after : List Grant) (a : ℕ)
    → held m (before ++ g ∷ after) a
      ≡ inside (2 ^ (m + g.level)) g.block a + held m (before ++ after) a
unfolding held
held-middle m [] g after a = refl
held-middle m (x ∷ before) g after a = omega (arith, held-middle m before g after a)

inside-le_one : (n b a : ℕ) → inside n b a ≤ 1
inside-le_one n b a = ground arith

module _ {base m top : ℕ} {s : BuddyAllocator} {gs : List Grant}
    (c : Conserves base m top s gs) where
  -- A block that was given is one more that is held.
  given-Conserves :
      {s' : BuddyAllocator} (g : Grant)
      → g.size < s.max_blk_size
      → next_power_of_two g.align ≡ g.align
      → g.align < 8192
      → allocation_level s g.size g.align ≡ done g.level
      → (gives : Gives base m top c.lists g.level (done (g.block, s')))
      → Conserves base m top s' (g ∷ gs)
  given-Conserves {s'} g small power aligned level gives =
      let same_block : gives.block ≡ g.block = ap (λ p. p.0) (sym (done-injective gives.returns)) in
      let same_state : gives.state ≡ s' = ap (λ p. p.1) (sym (done-injective gives.returns)) in
      record {
        lists = gives.lists;
        valid = rw same_state at gives.valid;
        grants = (
          record {
            is_block = rw same_block at gives.spare.is_block;
            fits_heap = rw c.valid.geometry.max_size at small;
            power = power;
            aligned = aligned;
            level_of = λ t geometry.
                allocation_level-same geometry c.valid.geometry g.size g.align ∙ level;
          },
          c.grants,
        );
        balance = λ a.
            unfold held in
            omega (
              arith,
              gives.balance a,
              c.balance a,
              ap (λ (x : ℕ). inside (2 ^ (m + g.level)) x a) same_block,
            );
      }

  kept-Conserves : {s' : BuddyAllocator} → s ≡ s' → Conserves base m top s' gs
  kept-Conserves e = subst (λ t. Conserves base m top t gs) e c

  module _ (before after : List Grant) (g : Grant) (e : gs ≡ before ++ g ∷ after) where
    picked : IsGrant base m top g × All (IsGrant base m top) (before ++ after)
    picked =
        All-middle (IsGrant base m top) before g after (subst (All (IsGrant base m top)) e c.grants)

    held_split :
        (a : ℕ) → held m gs a ≡ inside (2 ^ (m + g.level)) g.block a + held m (before ++ after) a
    held_split a = ap (λ x. held m x a) e ∙ held-middle m before g after a

    grant-IsSpare : IsSpare base m top c.lists g.level g.block
    grant-IsSpare = record {
      is_block = picked.0.is_block;
      apart = λ a. omega (arith, c.balance a, held_split a, inside-le_one (2 ^ (m + top)) base a);
    }

    fits : Fits m top g.size g.align (allocation_level s g.size g.align)
    fits =
        allocation_level-Fits c.valid.geometry g.size g.align
          (omega (arith, c.valid.geometry.max_size, picked.0.fits_heap)) picked.0.power
          picked.0.aligned

    same_level : fits.level ≡ g.level
    same_level = done-injective (sym fits.returns ∙ picked.0.level_of s c.valid.geometry)

    freed_by :
        (fuel : ℕ)
        → IsEnough fuel top c.lists
        → Frees base m top c.lists g.level g.block (deallocate fuel s g.block g.size g.align)
    freed_by fuel enough = rw same_level at (
        deallocate-Frees c.valid fuel g.block g.size g.align enough fits
          (rw same_level grant-IsSpare))

    -- Giving back what is held leaves one block less in hand.
    taken_back-Conserves :
        {s' : BuddyAllocator} → Ends s g s' → Conserves base m top s' (before ++ after)
    taken_back-Conserves {s'} ends =
        let fuel = ends.limit + total_length (suc top) c.lists + 1 in
        let out = freed_by fuel (total_length-IsEnough fuel top c.lists (omega arith)) in
        let same_state : out.state ≡ s' =
          done-injective (sym out.returns ∙ ends.ends fuel (omega arith)) in
        record {
          lists = out.lists;
          valid = rw same_state at out.valid;
          grants = picked.1;
          balance = λ a. omega (arith, out.balance a, c.balance a, held_split a);
        }

allocated-Conserves :
    {base m top : ℕ} {s s' : BuddyAllocator} {gs : List Grant}
    → Conserves base m top s gs
    → (g : Grant) → g.size < s.max_blk_size
    → next_power_of_two g.align ≡ g.align
    → g.align < 8192
    → allocation_level s g.size g.align ≡ done g.level
    → allocate s g.size g.align ≡ done (g.block, s')
    → g.block ≢ 0
    → Conserves base m top s' (g ∷ gs)
allocated-Conserves {base} {m} {top} {s} {s'} {gs} c g small power aligned level call not_null =
    let serves = allocate-Serves c.valid g.size g.align small power aligned in
    let same_level : serves.fits.level ≡ g.level =
      done-injective (sym serves.fits.returns ∙ level) in
    answered (rw (same_level, call) at serves.answer)
  where
    answered :
        Gives base m top c.lists g.level (done (g.block, s'))
          ⊎ IsExhausted top s c.lists g.level (done (g.block, s'))
        → Conserves base m top s' (g ∷ gs)
    answered (inl gives) = given-Conserves c g small power aligned level gives
    answered (inr none_left) = absurd (not_null (ap (λ p. p.0) (done-injective none_left.returns)))

exhausted-Conserves :
    {base m top : ℕ} {s s' : BuddyAllocator} {gs : List Grant}
    → Conserves base m top s gs
    → (size align : ℕ) → size < s.max_blk_size
    → next_power_of_two align ≡ align
    → align < 8192
    → allocate s size align ≡ done (0, s')
    → Conserves base m top s' gs
exhausted-Conserves {base} {m} {top} {s} {s'} {gs} c size align small power aligned call =
    let serves = allocate-Serves c.valid size align small power aligned in
    answered serves.fits.level (rw call at serves.answer)
  where
    answered :
        (level : ℕ)
        → Gives base m top c.lists level (done (0, s'))
          ⊎ IsExhausted top s c.lists level (done (0, s'))
        → Conserves base m top s' gs
    answered level (inl gives) =
        let null : 0 ≡ gives.block = ap (λ p. p.0) (done-injective gives.returns) in
        absurd (omega (arith, null, IsBlock-le gives.spare.is_block, c.valid.geometry.not_null))
    answered level (inr none_left) =
        kept-Conserves c (sym (ap (λ p. p.1) (done-injective none_left.returns)))

-- From a heap of `2 ^ (m + top)` bytes that is aligned to its size, every sequence of calls keeps
-- the heap's addresses split between the free blocks and the blocks that clients hold: none is
-- lost, and none is in two.
pub Reach-Conserves :
    {memory : ℕ → ℕ} {base m top : ℕ} (heap_index : ℕ)
    → m + top < 64
    → 13 ≤ m + top
    → 3 ≤ m
    → 0 < base
    → base ≡ heap_index * 2 ^ (m + top)
    → {s : BuddyAllocator} {gs : List Grant} → Reach memory base m top s gs
    → Conserves base m top s gs
Reach-Conserves {memory} {base} {m} {top} i word big header pos aligned (start call) =
    subst (λ t. Conserves base m top t [])
      (done-injective (sym (new-fresh memory base m top i word big pos aligned header) ∙ call))
      (record {
        lists = heap_free top base;
        valid = fresh-IsValid memory base m top i word big pos aligned;
        grants = tt;
        balance = λ a.
            unfold held in omega (arith, is_free-fresh memory base m top i word big pos aligned a);
      })
Reach-Conserves i word big header pos aligned
      (allocated g r small power align level call not_null) =
    allocated-Conserves (Reach-Conserves i word big header pos aligned r) g small power align level
      call not_null
Reach-Conserves i word big header pos aligned (exhausted size align r small power fine call) =
    exhausted-Conserves (Reach-Conserves i word big header pos aligned r) size align small power
      fine call
Reach-Conserves i word big header pos aligned (deallocated before after g r e ends) =
    taken_back-Conserves (Reach-Conserves i word big header pos aligned r) before after g e ends
