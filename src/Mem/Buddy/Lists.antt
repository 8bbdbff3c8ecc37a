-- ===== src/Mem/Buddy/Lists.antt =====
-- The three operations on one list: `free_blk`, `pop_blk_with_level` and `remove_blk`.
use fzkernel.Base.{
  ℕ, suc, ◌+◌, ◌-◌, ◌^◌, ◌≤◌, ◌<◌, ◌≡◌, ◌≢◌, refl, sym, ap, none, some, List, [], ◌∷◌, All, ◌==◌,
  if◌then◌else◌, arith, dec_lt,
}
use mathlib.Core.Path.{subst}
use fzkernel.Base.Outcome.{done}
use fzkernel.Mem.Buddy.{
  BuddyAllocator, list_head, link_of, store, update, free_blk, pop_blk_with_level,
}
use fzkernel.Mem.Buddy.Cover.{
  count, replace, inside, Without, cover-replace, count_cons, each_level,
}
use fzkernel.Mem.Buddy.Chain.{Chain, Chain-update}
use fzkernel.Mem.Buddy.Block.{IsBlock, IsBlock-le, IsBlock-top}
use fzkernel.Mem.Buddy.Valid.{
  TopChain, IsValid, IsSpare, IsSpare-not_free, is_free, IsGeometric-same, not_free-Without,
}

abbrev pub freed : BuddyAllocator → ℕ → ℕ → BuddyAllocator
freed s b level = store (store s (link_of b) (s.free_lists level)) (list_head level) b

-- Every block of the top level is at the base, so one that is not listed leaves its list empty.
top_list_empty :
    (base m top b : ℕ) (bs : List ℕ)
    → All (IsBlock base m top top) bs
    → Without b bs
    → b ≡ base
    → bs ≡ []
top_list_empty base m top b [] h w e = refl
top_list_empty base m top b (x ∷ bs) h w e = absurd (w.0 (omega (arith, IsBlock-top h.0, e)))

module _ {base m top : ℕ} {s : BuddyAllocator} {free : ℕ → List ℕ} (v : IsValid base m top s free)
    {level b : ℕ} (h : level ≤ top) (spare : IsSpare base m top free level b) where
  abbrev with_block : ℕ → List ℕ
  with_block = replace free level (b ∷ free level)

  pub is_free-freed :
      (a : ℕ) → is_free m top with_block a ≡ is_free m top free a + inside (2 ^ (m + level)) b a
  is_free-freed a = omega (
    arith,
    cover-replace m (suc top) level free (b ∷ free level) a (omega arith),
    count_cons (2 ^ (m + level)) b (free level) a,
  )

  block_not_null : b ≢ 0
  block_not_null = omega (arith, v.geometry.not_null, IsBlock-le spare.is_block)

  not_listed : (l : ℕ) → l ≤ top → Without b (free l)
  not_listed l p = not_free-Without m top free b l p (IsSpare-not_free spare)

  Chain-here : level < top → Chain (freed s b level).next_blk b (b ∷ free level)
  Chain-here p =
      let e : update s.next_blk b (s.free_lists level) b ≡ s.free_lists level = ground arith in
      (
        refl,
        block_not_null,
        rw e (
            Chain-update s.next_blk b (s.free_lists level) (s.free_lists level) (free level)
              (not_listed level h) (v.chains level p)),
      )

  top_empty : top ≡ level → free level ≡ []
  top_empty e =
      top_list_empty base m level b (free level)
        (subst (λ k. All (IsBlock base m k level) (free level)) e here) (not_listed level h)
        (IsBlock-top (subst (λ k. IsBlock base m k level b) e spare.is_block))
    where
      here : All (IsBlock base m top level) (free level)
      here = v.blocks level h

  pub freed-IsValid : IsValid base m top (freed s b level) with_block
  freed-IsValid = record {
    geometry = IsGeometric-same v.geometry _ _;
    chains =
        each_level (λ l head bs. l < top → Chain (freed s b level).next_blk head bs) s.free_lists
          free level b (b ∷ free level) Chain-here
          (λ l other p.
            Chain-update s.next_blk b (s.free_lists level) (s.free_lists l) (free l)
              (not_listed l (omega arith)) (v.chains l p));
    top_chain =
        each_level (λ l head bs. l ≡ top → TopChain head bs) s.free_lists free level b
          (b ∷ free level) (λ e. rw (top_empty (sym e)) (refl, block_not_null))
          (λ l other e. rw e v.top_chain) top refl;
    blocks =
        each_level (λ l head bs. l ≤ top → All (IsBlock base m top l) bs) s.free_lists free level b
          (b ∷ free level) (λ p. (spare.is_block, v.blocks level p)) (λ l other p. v.blocks l p);
    once = λ a. omega (arith, is_free-freed a, spare.apart a);
  }

  -- `free_blk` puts the block on its level's list, and so adds its bytes to the free memory.
  pub free_blk_lem : free_blk s b level ≡ done (freed s b level)
  unfolding free_blk
  free_blk_lem = ground (arith, v.geometry.level_count)

-- Taking a block off its list.
abbrev pub popped : BuddyAllocator → ℕ → ℕ → BuddyAllocator
popped s level b = store s (list_head level) (if level == s.levels - 1 then 0 else s.next_blk b)

TopChain-cons :
    (head b : ℕ) (bs : List ℕ) → TopChain head (b ∷ bs) → (head ≡ b) × (b ≢ 0) × (bs ≡ [])
TopChain-cons head b [] h = (h.0, h.1, refl)
TopChain-cons head b (c ∷ bs) h = absurd h

module _ {base m top : ℕ} {s : BuddyAllocator} {free : ℕ → List ℕ} (v : IsValid base m top s free)
    {level : ℕ} (h : level ≤ top) where
  -- Where the level's list is empty, nothing is popped and nothing changes.
  pub pop-empty : free level ≡ [] → pop_blk_with_level s level ≡ done (none, s)
  unfolding pop_blk_with_level
  pop-empty e = ground (arith, v.geometry.level_count, head_null)
    where
      head_null : s.free_lists level ≡ 0
      head_null = elim (dec_lt level top) [
        | yes p ↦ rw e at (v.chains level p)
        | no p ↦
            let t : top ≡ level = omega arith in
            rw e at (subst (λ k. TopChain (s.free_lists k) (free k)) t v.top_chain)
      ]

  module _ {b : ℕ} {bs : List ℕ} (e : free level ≡ b ∷ bs) where
    top_block : top ≡ level → (s.free_lists level ≡ b) × (b ≢ 0) × (bs ≡ [])
    top_block t =
        TopChain-cons _ b bs
          (rw e at (subst (λ k. TopChain (s.free_lists k) (free k)) t v.top_chain))

    head_block : (s.free_lists level ≡ b) × (b ≢ 0)
    head_block = elim (dec_lt level top) [
      | yes p ↦ let c = rw e at (v.chains level p) in (c.0, c.1)
      | no p ↦ let t = top_block (omega arith) in (t.0, t.1)
    ]

    rest-Chain : level < top → Chain s.next_blk (s.next_blk b) bs
    rest-Chain p = (rw e at (v.chains level p)).2

    pub is_free-popped :
        (a : ℕ)
        → is_free m top (replace free level bs) a + inside (2 ^ (m + level)) b a
          ≡ is_free m top free a
    is_free-popped a = omega (
      arith,
      cover-replace m (suc top) level free bs a (omega arith),
      ap (λ (xs : List ℕ). count (2 ^ (m + level)) xs a) e,
      count_cons (2 ^ (m + level)) b bs a,
    )

    pub popped-IsSpare : IsSpare base m top (replace free level bs) level b
    popped-IsSpare = record {
      is_block = (rw e at (v.blocks level h)).0;
      apart = λ a. omega (arith, is_free-popped a, v.once a);
    }

    abbrev new_head : ℕ
    new_head = if level == s.levels - 1 then 0 else s.next_blk b

    pub popped-IsValid : IsValid base m top (popped s level b) (replace free level bs)
    popped-IsValid = record {
      geometry = IsGeometric-same v.geometry _ _;
      chains =
          each_level (λ l head bs. l < top → Chain s.next_blk head bs) s.free_lists free level
            (new_head) bs
            (λ p.
              let n : new_head ≡ s.next_blk b = ground (arith, v.geometry.level_count) in
              rw n (rest-Chain p))
            (λ l other p. v.chains l p);
      top_chain =
          each_level (λ l head bs. l ≡ top → TopChain head bs) s.free_lists free level new_head bs
            (λ t.
              let n : new_head ≡ 0 = ground (arith, v.geometry.level_count) in
              rw (n, (top_block (sym t)).2) refl)
            (λ l other t. rw t v.top_chain) top refl;
      blocks =
          each_level (λ l head bs. l ≤ top → All (IsBlock base m top l) bs) s.free_lists free level
            new_head bs (λ p. (rw e at (v.blocks level p)).1) (λ l other p. v.blocks l p);
      once = λ a. omega (arith, is_free-popped a, v.once a);
    }

    -- The first block of the list is handed out.
    pub pop-cons : pop_blk_with_level s level ≡ done (some b, popped s level b)
    unfolding pop_blk_with_level
    pop-cons = ground (arith, v.geometry.level_count, head_block.0, head_block.1)
