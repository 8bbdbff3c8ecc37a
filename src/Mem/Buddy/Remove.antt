-- ===== src/Mem/Buddy/Remove.antt =====
-- `remove_blk`: a block is unlinked from the middle of its list, through the pointer that leads
-- to it, and every other list is left as it was.
use fzkernel.Base.{
  ℕ, suc, ◌+◌, ◌^◌, ◌≤◌, ◌<◌, ◌≡◌, ◌≢◌, refl, ap, ◌∙◌, inl, inr, true, false, List, [], ◌∷◌, All,
  length, ◌==◌, arith, dec_lt, Bool-cases, ==→eq,
}
use fzkernel.Base.Pow.{pow2_pos}
use fzkernel.Base.Outcome.{done}
use fzkernel.Mem.Buddy.{BuddyAllocator, Place, list_head, link_of, update, remove_blk}
use fzkernel.Mem.Buddy.Cover.{
  count, replace, inside, Without, IsDistinct, cover-replace, count-add-le-cover,
  count_zero-Without, mem, erase, count-erase, All-erase, count_cons, each_list,
}
use fzkernel.Mem.Buddy.Chain.{Chain, Chain-update, removed, remove_loop_ends}
use fzkernel.Mem.Buddy.Block.{IsGeometric, IsBlock}
use fzkernel.Mem.Buddy.Valid.{TopChain, IsValid, is_free, IsGeometric-same, list-IsDistinct}

-- Links that agree on a list's blocks run through the same list.
Chain-agree :
    (next next' : ℕ → ℕ) (head : ℕ) (bs : List ℕ)
    → All (λ q. next' q ≡ next q) bs
    → Chain next head bs
    → Chain next' head bs
Chain-agree next next' head [] same c = c
Chain-agree next next' head (x ∷ bs) same c =
    (c.0, c.1, rw same.0 (Chain-agree next next' (next x) bs same.1 c.2))

-- Lists that share no address share no block.
disjoint_lists :
    (n n' : ℕ) (bs cs : List ℕ)
    → 0 < n
    → 0 < n'
    → ((a : ℕ) → count n bs a + count n' cs a ≤ 1)
    → All (λ q. Without q cs) bs
disjoint_lists n n' [] cs h h' once = tt
disjoint_lists n n' (q ∷ bs) cs h h' once = (
  count_zero-Without n' q cs h' (ground (arith, once q, count_cons n q bs q)),
  disjoint_lists n n' bs cs h h' (λ a. omega (arith, once a, count_cons n q bs a)),
)

module _ (s : BuddyAllocator) (b : ℕ) where
  removed-heads : (p : ℕ) (bs : List ℕ) → (removed s b (link_of p) bs).free_lists ≡ s.free_lists
  removed-heads p [] = refl
  removed-heads p (x ∷ bs) = elim (Bool-cases (x == b)) [
    | inl e ↦ rw e refl
    | inr e ↦ rw e (removed-heads x bs)
  ]

  removed-next :
      (p q : ℕ) (bs : List ℕ)
      → p ≢ q
      → Without q bs
      → (removed s b (link_of p) bs).next_blk q ≡ s.next_blk q
  removed-next p q [] ne w = refl
  removed-next p q (x ∷ bs) ne w = elim (Bool-cases (x == b)) [
    | inl e ↦ rw e (ground arith)
    | inr e ↦ rw e (removed-next x q bs w.0 w.1)
  ]

  removed-Chain :
      (p : ℕ) (bs : List ℕ)
      → Without p bs
      → IsDistinct bs
      → Chain s.next_blk (s.next_blk p) bs
      → Chain
          (removed s b (link_of p) bs).next_blk
          ((removed s b (link_of p) bs).next_blk p)
          (erase b bs)
  removed-Chain p [] w d c = c
  removed-Chain p (x ∷ bs) w d c = elim (Bool-cases (x == b)) [
    | inl e ↦
        let same : s.next_blk x ≡ s.next_blk b = ap s.next_blk (==→eq x b e) in
        let here : update s.next_blk p (s.next_blk b) p ≡ s.next_blk b = ground arith in
        rw (e, here)
          (Chain-update s.next_blk p (s.next_blk b) (s.next_blk b) bs w.1 (rw same at c.2))
    | inr e ↦ rw e (removed-next x p bs w.0 w.1 ∙ c.0, c.1, removed-Chain x bs d.0 d.1 c.2)
  ]

  removed-geometry :
      {base m top : ℕ}
      → IsGeometric base m top s
      → (place : Place) (bs : List ℕ) → IsGeometric base m top (removed s b place bs)
  removed-geometry g place [] = g
  removed-geometry g (list_head l) (x ∷ bs) = elim (Bool-cases (x == b)) [
    | inl e ↦ rw e (IsGeometric-same g _ _)
    | inr e ↦ rw e (removed-geometry g (link_of x) bs)
  ]
  removed-geometry g (link_of l) (x ∷ bs) = elim (Bool-cases (x == b)) [
    | inl e ↦ rw e (IsGeometric-same g _ _)
    | inr e ↦ rw e (removed-geometry g (link_of x) bs)
  ]

  -- From the head of a list: the list without the block, and no other list changed.
  removed_head-Chain :
      (level : ℕ) (bs : List ℕ)
      → IsDistinct bs
      → Chain s.next_blk (s.free_lists level) bs
      → let s' = removed s b (list_head level) bs in
        Chain s'.next_blk (s'.free_lists level) (erase b bs)
  removed_head-Chain level [] d c = c
  removed_head-Chain level (x ∷ bs) d c = elim (Bool-cases (x == b)) [
    | inl e ↦
        let same : s.next_blk x ≡ s.next_blk b = ap s.next_blk (==→eq x b e) in
        let here : update s.free_lists level (s.next_blk b) level ≡ s.next_blk b = ground arith in
        rw (e, here) (rw same at c.2)
    | inr e ↦
        let heads = ap (λ (f : ℕ → ℕ). f level) (removed-heads x bs) in
        rw e (heads ∙ c.0, c.1, removed-Chain x bs d.0 d.1 c.2)
  ]

  removed_head-other :
      (level l : ℕ) (bs : List ℕ)
      → level ≢ l
      → (removed s b (list_head level) bs).free_lists l ≡ s.free_lists l
  removed_head-other level l [] ne = refl
  removed_head-other level l (x ∷ bs) ne = elim (Bool-cases (x == b)) [
    | inl e ↦ rw e (ground arith)
    | inr e ↦ rw e (ap (λ (f : ℕ → ℕ). f l) (removed-heads x bs))
  ]

  removed_head-next :
      (level q : ℕ) (bs : List ℕ)
      → Without q bs
      → (removed s b (list_head level) bs).next_blk q ≡ s.next_blk q
  removed_head-next level q [] w = refl
  removed_head-next level q (x ∷ bs) w = elim (Bool-cases (x == b)) [
    | inl e ↦ rw e refl
    | inr e ↦ rw e (removed-next x q bs w.0 w.1)
  ]

  removed_head-agree :
      (level : ℕ) (bs cs : List ℕ)
      → All (λ q. Without q bs) cs
      → All (λ q. (removed s b (list_head level) bs).next_blk q ≡ s.next_blk q) cs
  removed_head-agree level bs [] h = tt
  removed_head-agree level bs (q ∷ cs) h =
      (removed_head-next level q bs h.0, removed_head-agree level bs cs h.1)

  -- A block that is not on the list changes nothing.
  removed-absent : (place : Place) (bs : List ℕ) → mem b bs ≡ false → removed s b place bs ≡ s
  removed-absent place [] h = refl
  removed-absent place (x ∷ bs) h = elim (Bool-cases (x == b)) [
    | inl e ↦ let c : true ≡ false = rw e at h in cc
    | inr e ↦ rw e (removed-absent (link_of x) bs (rw e at h))
  ]

module _ {base m top : ℕ} {s : BuddyAllocator} {free : ℕ → List ℕ} (v : IsValid base m top s free)
    {level : ℕ} (h : level < top) (b : ℕ) where
  abbrev pub without_block : ℕ → List ℕ
  without_block = replace free level (erase b (free level))

  abbrev pub unlinked : BuddyAllocator
  unlinked = removed s b (list_head level) (free level)

  -- With fuel beyond the length of the list, `remove_blk` ends, and tells whether the block was
  -- on the list.
  pub remove_blk_lem :
      (fuel : ℕ)
      → length (free level) < fuel
      → remove_blk fuel s b level ≡ done (mem b (free level), unlinked)
  unfolding remove_blk
  remove_blk_lem fuel enough = ground (
    arith,
    v.geometry.level_count,
    remove_loop_ends fuel s b (list_head level) (free level) enough (v.chains level h),
  )

  pub unlinked-absent : mem b (free level) ≡ false → unlinked ≡ s
  unlinked-absent = removed-absent s b (list_head level) (free level)

  pub is_free-unlinked :
      mem b (free level) ≡ true
      → (a : ℕ)
      → is_free m top without_block a + inside (2 ^ (m + level)) b a ≡ is_free m top free a
  is_free-unlinked found a = omega (
    arith,
    cover-replace m (suc top) level free (erase b (free level)) a (omega arith),
    count-erase (2 ^ (m + level)) b (free level) a found,
  )

  others_apart : (l : ℕ) → level ≢ l → l ≤ top → All (λ q. Without q (free level)) (free l)
  others_apart l ne p =
      disjoint_lists (2 ^ (m + l)) (2 ^ (m + level)) (free l) (free level) (pow2_pos (m + l))
        (pow2_pos (m + level))
        (λ a. elim (dec_lt l level) [
          | yes q ↦
              omega (arith, v.once a, count-add-le-cover m (suc top) l level free a q (omega arith))
          | no q ↦ omega (
            arith,
            v.once a,
            count-add-le-cover m (suc top) level l free a (omega arith) (omega arith),
          )
        ])

  other-Chain : (l : ℕ) → level ≢ l → l < top → Chain unlinked.next_blk (s.free_lists l) (free l)
  other-Chain l ne p =
      Chain-agree s.next_blk unlinked.next_blk (s.free_lists l) (free l)
        (removed_head-agree s b level (free level) (free l) (others_apart l ne (omega arith)))
        (v.chains l p)

  pub unlinked-IsValid : mem b (free level) ≡ true → IsValid base m top unlinked without_block
  unlinked-IsValid found = record {
    geometry = removed-geometry s b v.geometry (list_head level) (free level);
    chains =
        each_list (λ l bs. l < top → Chain unlinked.next_blk (unlinked.free_lists l) bs) free level
          (erase b (free level))
          (λ p.
            removed_head-Chain s b level (free level) (list-IsDistinct v level (omega arith))
              (v.chains level p))
          (λ l ne p. rw (removed_head-other s b level l (free level) ne) (other-Chain l ne p));
    top_chain =
        each_list (λ l bs. l ≡ top → TopChain (unlinked.free_lists l) bs) free level
          (erase b (free level)) (λ e. absurd (omega (arith, e)))
          (λ l ne e. rw (removed_head-other s b level l (free level) ne, e) v.top_chain) top refl;
    blocks =
        each_list (λ l bs. l ≤ top → All (IsBlock base m top l) bs) free level
          (erase b (free level))
          (λ p. All-erase (IsBlock base m top level) b (free level) (v.blocks level p))
          (λ l ne p. v.blocks l p);
    once = λ a. omega (arith, is_free-unlinked found a, v.once a);
  }
