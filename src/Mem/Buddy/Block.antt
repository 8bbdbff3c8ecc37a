-- ===== src/Mem/Buddy/Block.antt =====
-- Where blocks lie: a heap of `2 ^ (m + top)` bytes, aligned to its size, is cut at level `l`
-- into blocks of `2 ^ (m + l)` bytes. `buddy` of src/mem/bmalloc/heap.rs flips one bit of an
-- address; here that is the other half of the block one level up.
use fzkernel.Base.{
  ℕ, suc, ◌+◌, ◌-◌, ◌*◌, ◌/◌, ◌%◌, ◌^◌, ◌≤◌, ◌<◌, ◌≡◌, ◌≢◌, ◌⊎◌, inl, inr, ap, ◌∙◌, arith, some,
  min, bit_xor, u8, ◌<<<◌,
}
use fzkernel.Base.Pow.{pow2_suc, pow2_pos, pow2_mono, pow2_add}
use fzkernel.Base.Bits.{bit_xor_clear, bit_xor_set}
use native.Mathlib.Nat.{add-suc, mul-le-mul_right, mul-div_cancel}
use fzkernel.Base.Outcome.{done}
use fzkernel.Mem.Buddy.{BuddyAllocator, level_size, buddy}

-- The sizes are powers of two, and the base is aligned to the size of the heap.
pub record IsGeometric (base m top : ℕ) (s : BuddyAllocator) : Type 0 where
  pub min_size : s.min_blk_size ≡ 2 ^ m
  pub max_size : s.max_blk_size ≡ 2 ^ (m + top)
  pub log2_min : s.log2_min_blk_size ≡ m + 1
  pub level_count : s.levels ≡ suc top
  pub word : m + top < 64
  -- the heap is no smaller than `MIN_HEAP_ALIGN`, which is 2 ^ 13
  pub heap_aligned : 13 ≤ m + top
  pub based : s.base_addr ≡ base
  pub not_null : 0 < base
  pub heap_index : ℕ
  pub aligned : base ≡ heap_index * 2 ^ (m + top)

-- `x` is the `index`-th block of its level.
pub record IsBlock (base m top level x : ℕ) : Type 0 where
  pub index : ℕ
  pub in_range : index < 2 ^ (top - level)
  pub address : x ≡ base + index * 2 ^ (m + level)

pub size_suc : (m level : ℕ) → 2 ^ (m + suc level) ≡ 2 * 2 ^ (m + level)
size_suc m level = rw add-suc (pow2_suc (m + level))

pub heap_split :
    (m top level : ℕ) → level ≤ top → 2 ^ (m + top) ≡ 2 ^ (top - level) * 2 ^ (m + level)
heap_split m top level h =
    let e : m + level + (top - level) ≡ m + top = omega arith in
    omega (arith, rw e at (pow2_add (m + level) (top - level)))

pub blocks_suc : (top level : ℕ) → level < top → 2 ^ (top - level) ≡ 2 * 2 ^ (top - suc level)
blocks_suc top level h =
    let e : top - level ≡ suc (top - suc level) = omega arith in rw e (pow2_suc (top - suc level))

even_or_odd : (i : ℕ) → (i % 2 ≡ 0) ⊎ (i % 2 ≡ 1)
even_or_odd i = omega arith

pub IsBlock-le : {base m top level x : ℕ} → IsBlock base m top level x → base ≤ x
IsBlock-le b = omega (arith, b.address)

-- The one block of the top level is the whole heap.
pub IsBlock-top : {base m top x : ℕ} → IsBlock base m top top x → x ≡ base
IsBlock-top {base} {m} {top} {x} b =
    let e : top - top ≡ 0 = omega arith in
    let r : b.index < 2 ^ 0 = rw e at b.in_range in
    let i : b.index ≡ 0 = omega (arith, r) in
    omega (arith, b.address, ap (λ (t : ℕ). t * 2 ^ (m + top)) i)

-- A block ends within the heap.
pub IsBlock-end :
    {base m top level x : ℕ}
    → level ≤ top
    → IsBlock base m top level x
    → x + 2 ^ (m + level) ≤ base + 2 ^ (m + top)
IsBlock-end {base} {m} {top} {level} {x} h b =
    omega (arith, b.address, heap_split m top level h, scaled)
  where
    scaled : suc b.index * 2 ^ (m + level) ≤ 2 ^ (top - level) * 2 ^ (m + level)
    scaled = mul-le-mul_right (2 ^ (m + level)) b.in_range

-- The first half of a block is a block one level down, with an even index.
pub IsBlock-half :
    {base m top level x : ℕ}
    → level < top
    → IsBlock base m top (suc level) x
    → (half : IsBlock base m top level x) × (half.index % 2 ≡ 0)
IsBlock-half {base} {m} {top} {level} {x} h b = (
  record {
    index = 2 * b.index;
    in_range = omega (arith, blocks_suc top level h, b.in_range);
    address = omega (arith, b.address, ap (λ (t : ℕ). b.index * t) (size_suc m level));
  },
  omega arith,
)

pub size-lt : (m level top : ℕ) → level < top → 2 ^ (m + level) < 2 ^ (m + top)
size-lt m level top h = omega (
  arith,
  size_suc m level,
  pow2_pos (m + level),
  pow2_mono (m + suc level) (m + top) (omega arith),
)

-- A level of the heap has the size that its shift says: nothing is shifted out.
pub level_size_lem :
    {base m top : ℕ} {s : BuddyAllocator}
    → IsGeometric base m top s
    → (level : ℕ) → level ≤ top
    → level_size s level ≡ 2 ^ (m + level)
unfolding level_size
level_size_lem {base} {m} {top} {s} g level h = omega (
  arith,
  g.word,
  ap (λ (t : ℕ). t * 2 ^ level) g.min_size,
  pow2_add m level,
  pow2_mono (m + level) 63 (omega (arith, g.word)),
)

-- The arithmetic on `u8` gives the number of the bit, also at level 0, where it wraps.
shift_amount :
    {base m top : ℕ} {s : BuddyAllocator}
    → IsGeometric base m top s
    → (level : ℕ) → level < top
    → 1 <<< (u8 (u8 (level + 255) + u8 s.log2_min_blk_size) % 64) ≡ 2 ^ (m + level)
shift_amount {base} {m} {top} {s} g level h =
    let e : u8 (u8 (level + 255) + u8 s.log2_min_blk_size) % 64 ≡ m + level =
      omega (arith, g.log2_min, g.word) in
    rw e (omega arith)

-- The pair of halves, and the block one level up that they make.
pub record IsPair (base m top level x y : ℕ) : Type 0 where
  pub apart : y ≢ x
  pub halves : (x ≡ y + 2 ^ (m + level)) ⊎ (y ≡ x + 2 ^ (m + level))
  pub is_block : IsBlock base m top level y
  pub joined : IsBlock base m top (suc level) (min y x)

-- What flipping the bit of the level gives.
module _ {base m top : ℕ} {s : BuddyAllocator} (g : IsGeometric base m top s) {level x : ℕ}
    (h : level < top) (b : IsBlock base m top level x) where
  base_units : base ≡ 2 * (g.heap_index * 2 ^ (top - suc level)) * 2 ^ (m + level)
  base_units = omega (
    arith,
    g.aligned,
    ap (λ (t : ℕ). g.heap_index * t) (heap_split m top level (omega arith)),
    ap (λ (t : ℕ). g.heap_index * (t * 2 ^ (m + level))) (blocks_suc top level h),
  )

  bit_of_block : x / 2 ^ (m + level) % 2 ≡ b.index % 2
  bit_of_block =
      let d = g.heap_index * 2 ^ (top - suc level) in
      let e : x ≡ (2 * d + b.index) * 2 ^ (m + level) = omega (arith, base_units, b.address) in
      rw (e, mul-div_cancel (2 * d + b.index) (pow2_pos (m + level))) (omega arith)

  pub xor_even : b.index % 2 ≡ 0 → bit_xor x (2 ^ (m + level)) ≡ x + 2 ^ (m + level)
  xor_even e = bit_xor_clear (m + level) x (bit_of_block ∙ e)

  pub xor_odd : b.index % 2 ≡ 1 → bit_xor x (2 ^ (m + level)) + 2 ^ (m + level) ≡ x
  xor_odd e = bit_xor_set (m + level) x (bit_of_block ∙ e)

  IsPair-even : (y : ℕ) → y ≡ x + 2 ^ (m + level) → b.index % 2 ≡ 0 → IsPair base m top level x y
  IsPair-even y e even =
      let half = b.index / 2 in
      let twice : b.index ≡ 2 * half = omega arith in
      let at = ap (λ (t : ℕ). t * 2 ^ (m + level)) twice in
      record {
        apart = omega (arith, e, pow2_pos (m + level));
        halves = inr e;
        is_block = record {
          index = 2 * half + 1;
          in_range = omega (arith, blocks_suc top level h, b.in_range, twice);
          address = omega (arith, e, b.address, at);
        };
        joined = record {
          index = half;
          in_range = omega (arith, blocks_suc top level h, b.in_range, twice);
          address = omega (arith, e, b.address, at, ap (λ (t : ℕ). half * t) (size_suc m level));
        };
      }

  IsPair-odd : (y : ℕ) → y + 2 ^ (m + level) ≡ x → b.index % 2 ≡ 1 → IsPair base m top level x y
  IsPair-odd y e odd =
      let half = b.index / 2 in
      let twice : b.index ≡ 2 * half + 1 = omega arith in
      let at = ap (λ (t : ℕ). t * 2 ^ (m + level)) twice in
      record {
        apart = omega (arith, e, pow2_pos (m + level));
        halves = inl (omega (arith, e));
        is_block = record {
          index = 2 * half;
          in_range = omega (arith, blocks_suc top level h, b.in_range, twice);
          address = omega (arith, e, b.address, at);
        };
        joined = record {
          index = half;
          in_range = omega (arith, blocks_suc top level h, b.in_range, twice);
          address = omega (arith, e, b.address, at, ap (λ (t : ℕ). half * t) (size_suc m level));
        };
      }

  pub xor-IsPair : IsPair base m top level x (bit_xor x (2 ^ (m + level)))
  xor-IsPair = elim (even_or_odd b.index) [
    | inl even ↦ IsPair-even _ (xor_even even) even
    | inr odd ↦ IsPair-odd _ (xor_odd odd) odd
  ]

  -- `buddy` answers with the other half.
  pub buddy-some :
      x ≤ s.base_addr + s.max_blk_size → buddy s x level ≡ done (some (bit_xor x (2 ^ (m + level))))
  unfolding buddy level_size
  buddy-some fits = ground (
    arith,
    IsBlock-le b,
    g.based,
    level_size_lem g level (omega arith),
    g.max_size,
    size-lt m level top h,
    shift_amount g level h,
  )
