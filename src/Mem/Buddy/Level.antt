-- ===== src/Mem/Buddy/Level.antt =====
-- `allocation_level`: the level whose blocks fit a request.
use fzkernel.Base.{
  ℕ, suc, ◌+◌, ◌-◌, ◌*◌, ◌^◌, ◌≤◌, ◌<◌, ◌≡◌, sym, ap, ◌∙◌, ◌⊎◌, inl, max, arith, dec_lt, u8, u64,
  u64_mod, lt→ltb, eq→==,
}
use fzkernel.Base.Pow.{pow2_pos, pow2_suc, pow2_mono, le_of_pow2}
use fzkernel.Base.Outcome.{Outcome, done}
use fzkernel.Mem.Log2.{log2, log2_lem, next_power_of_two, next_power_of_two-IsLeastPower}
use fzkernel.Mem.Buddy.{BuddyAllocator, allocation_level}
use fzkernel.Mem.Buddy.Block.{IsGeometric}

-- The level is the least one whose blocks hold the request and are aligned to it.
pub record Fits (m top size align : ℕ) (o : Outcome ℕ) : Type 0 where
  pub level : ℕ
  pub returns : o ≡ done level
  pub in_range : level ≤ top
  pub holds_size : size ≤ 2 ^ (m + level)
  pub holds_align : align ≤ 2 ^ (m + level)
  pub least : (level ≡ 0) ⊎ (2 ^ (m + level) < 2 * max size align)

module _ {base m top : ℕ} {s : BuddyAllocator} (g : IsGeometric base m top s) (size align : ℕ) where
  level_of_power :
      (k : ℕ)
      → m ≤ k
      → k ≤ m + top
      → u8 (u64 (log2 (2 ^ k) + u64_mod - s.log2_min_blk_size)) ≡ k - m
  level_of_power k lo hi = omega (
    arith,
    log2_lem k (2 ^ k) (omega (arith, g.word)) (omega arith)
        (omega (arith, pow2_suc k, pow2_pos k)),
    g.log2_min,
    g.word,
  )

  abbrev want : ℕ
  want = max (max size align) s.min_blk_size

  want_fits : size < s.max_blk_size → align < 8192 → want ≤ 2 ^ (m + top)
  want_fits small aligned = omega (
    arith,
    g.max_size,
    g.min_size,
    pow2_mono 13 (m + top) g.heap_aligned,
    pow2_mono m (m + top) (omega arith),
  )

  fits_at :
      (k : ℕ)
      → size < s.max_blk_size
      → next_power_of_two align ≡ align
      → align < 8192
      → next_power_of_two want ≡ 2 ^ k
      → want ≤ 2 ^ k
      → k ≤ m + top
      → (k ≡ 0) ⊎ (2 ^ k < 2 * want)
      → Fits m top size align (allocation_level s size align)
  fits_at k small power aligned rounded above within least =
      let lo : m ≤ k = le_of_pow2 m k (omega (arith, above, g.min_size)) in
      let e : m + (k - m) ≡ k = omega (arith, lo) in
      record {
        level = k - m;
        returns =
            unfold allocation_level in
            rw
              (
                lt→ltb size s.max_blk_size small,
                eq→== (next_power_of_two align) align power,
                lt→ltb align 8192 aligned,
                rounded,
              )
              (ap done (level_of_power k lo within));
        in_range = omega (arith, within, lo);
        holds_size = rw e (omega (arith, above));
        holds_align = rw e (omega (arith, above));
        least = rw e (least_at k lo least);
      }
    where
      least_at :
          (k : ℕ)
          → m ≤ k
          → (k ≡ 0) ⊎ (2 ^ k < 2 * want)
          → (k - m ≡ 0) ⊎ (2 ^ k < 2 * max size align)
      least_at k lo h = elim (dec_lt m k) [
        | yes p ↦ omega (arith, h, p, g.min_size, pow2_suc m, pow2_mono (suc m) k p)
        | no n ↦ inl (omega arith)
      ]

  -- A request that the heap can hold gets its level.
  pub allocation_level-Fits :
      size < s.max_blk_size
      → next_power_of_two align ≡ align
      → align < 8192
      → Fits m top size align (allocation_level s size align)
  allocation_level-Fits small power aligned =
      let r = next_power_of_two-IsLeastPower (m + top) want g.word (want_fits small aligned) in
      fits_at r.exponent small power aligned r.is_power (rw r.is_power at r.above) r.within
        (rw r.is_power at r.least)

-- The level of a request depends on the heap's shape alone.
pub allocation_level-same :
    {base m top : ℕ} {s s' : BuddyAllocator}
    → IsGeometric base m top s
    → IsGeometric base m top s'
    → (size align : ℕ) → allocation_level s size align ≡ allocation_level s' size align
unfolding allocation_level
allocation_level-same {s = s} {s'} g g' size align =
    let by_max = g.max_size ∙ sym g'.max_size in
    let by_min = g.min_size ∙ sym g'.min_size in
    let by_log2 = g.log2_min ∙ sym g'.log2_min in
    λ i.
      allocation_level
        (record s {
          max_blk_size = by_max i;
          min_blk_size = by_min i;
          log2_min_blk_size = by_log2 i;
        })
        size align
