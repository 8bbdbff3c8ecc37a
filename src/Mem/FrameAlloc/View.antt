-- ===== src/Mem/FrameAlloc/View.antt =====
-- The frame allocator seen through its mapping: its blocks, and where they lie.
use fzkernel.Base.{
  ℕ, zero, suc, ◌+◌, ◌/◌, ◌%◌, ◌^◌, ◌<◌, ◌≤◌, ◌≡◌, refl, sym, ap, ◌∙◌, ◌⊎◌, fun_ext, inl, inr,
  arith, true, false, some, none, ltb, leb, ◌==◌, eq→==, ne→==, ==→eq, ==→ne, Bool-cases, lt→ltb,
  ltb→lt, u8, u64, bit_xor, ◌<<<◌, if◌then◌else◌,
}
use fzkernel.Base.Bits.{bit_xor_digit}
use fzkernel.Base.Pow.{pow2_suc, pow2_pos, pow2_mono}
use fzkernel.Base.Outcome.{Outcome, done, panic, hang}
use fzkernel.Mem.Address.{virt_new, virt_add}
use fzkernel.Mem.Address.Canonical.{virt_new-low}
use fzkernel.Mem.Buddy.{BuddyAllocator, update}
use fzkernel.Mem.FrameAlloc.{BuddyFrameAllocator, level_size, buddy}

-- The block allocator whose memory is read through the mapping, below `2 ^ width`; beyond that no
-- block lies.
abbrev pub as_heap : ℕ → BuddyFrameAllocator → BuddyAllocator
as_heap width s = record {
  base_addr = s.base_addr;
  max_blk_size = s.max_blk_size;
  min_blk_size = s.min_blk_size;
  log2_min_blk_size = s.log2_min_blk_size;
  levels = s.levels;
  free_lists = s.free_lists;
  next_blk = λ a. if ltb a (2 ^ width) then s.memory (s.mapping a) else 0;
}

abbrev pub through : ℕ → Outcome BuddyFrameAllocator → Outcome BuddyAllocator
through width (done s) = done (as_heap width s)
through width panic = panic
through width hang = hang

abbrev pub through_pair :
    {A : Type 0} → ℕ → Outcome (A × BuddyFrameAllocator) → Outcome (A × BuddyAllocator)
through_pair width (done r) = done (r.0, as_heap width r.1)
through_pair width panic = panic
through_pair width hang = hang

-- No two addresses below `2 ^ width` have the same image.
abbrev pub IsInjective : ℕ → (ℕ → ℕ) → Type 0
IsInjective width f = (a b : ℕ) → a < 2 ^ width → b < 2 ^ width → f a ≡ f b → a ≡ b

-- The blocks and their buddies lie below `2 ^ width`, where the mapping is injective.
pub record IsBounded (width : ℕ) (s : BuddyFrameAllocator) : Type 0 where
  pub injective : IsInjective width s.mapping
  pub positive : 0 < s.log2_min_blk_size
  pub small : s.levels + s.log2_min_blk_size ≤ width
  pub width_small : width < 64

-- `PhysicalMemoryMapping::convert`, of the paging's mapper
pub convert : ℕ → ℕ → ℕ
convert offset phys = virt_add offset (virt_new phys)

-- Below 47 bits the conversion is injective, whatever the offset.
pub convert-IsInjective : (offset : ℕ) → IsInjective 47 (convert offset)
unfolding convert virt_add
convert-IsInjective offset a b ha hb e = omega (
  arith,
  virt_new-low (u64 (offset + virt_new a)),
  virt_new-low (u64 (offset + virt_new b)),
  virt_new-low a,
  virt_new-low b,
  ap (λ x. x % 2 ^ 48) e,
)

xor_lt : (w a b : ℕ) → a < 2 ^ w → b < 2 ^ w → bit_xor a b < 2 ^ w
xor_lt zero a b ha hb =
    let ea : a ≡ 0 = omega arith in let eb : b ≡ 0 = omega arith in rw (ea, eb) (omega arith)
xor_lt (suc w) a b ha hb =
    let below = xor_lt w (a / 2) (b / 2) (omega (arith, pow2_suc w)) (omega (arith, pow2_suc w)) in
    omega (arith, pow2_suc w, bit_xor_digit a b, below)

buddy-cases :
    (s : BuddyFrameAllocator) (block level : ℕ)
    → (buddy s block level ≡ panic)
      ⊎ (buddy s block level ≡ done none)
      ⊎ (buddy s block level
          ≡ done
              (some (bit_xor block (1 <<< (u8 (u8 (level + 255) + u8 s.log2_min_blk_size) % 64)))))
unfolding buddy
buddy-cases s block level = elim (Bool-cases (leb s.base_addr block)) [
  | inr low ↦ rw low (inl refl)
  | inl above ↦ elim (Bool-cases (leb block (s.base_addr + s.max_blk_size))) [
    | inr high ↦ rw (above, high) (inl refl)
    | inl below ↦ elim (Bool-cases (level_size s level == s.max_blk_size)) [
      | inl top ↦ rw (above, below, top) (inr (inl refl))
      | inr inner ↦ rw (above, below, inner) (inr (inr refl))
    ]
  ]
]

pub buddy-bound :
    (width : ℕ) (s : BuddyFrameAllocator) (block level b : ℕ)
    → IsBounded width s
    → block < 2 ^ width
    → level < s.levels
    → buddy s block level ≡ done (some b)
    → b < 2 ^ width
buddy-bound width s block level b q hb hl e =
    let k : ℕ = u8 (u8 (level + 255) + u8 s.log2_min_blk_size) % 64 in
    let hk : k < width = omega (arith, q.positive, q.small, q.width_small) in
    let bit : 1 <<< k < 2 ^ width =
      omega (arith, pow2_suc k, pow2_pos k, pow2_mono (suc k) width hk) in
    let bound : bit_xor block (1 <<< k) < 2 ^ width = xor_lt width block (1 <<< k) hb bit in
    elim (buddy-cases s block level) [
      | inl p ↦ let c : panic ≡ done (some b) = sym p ∙ e in cc
      | inr (inl n) ↦ let c : done none ≡ done (some b) = sym n ∙ e in cc
      | inr (inr x) ↦
          let c : done (some (bit_xor block (1 <<< k))) ≡ done (some b) = sym x ∙ e in
          let same : bit_xor block (1 <<< k) ≡ b = cc in omega (arith, same, bound)
    ]

-- A write through the mapping, read through it.
pub update-mapping :
    (width : ℕ) (f memory : ℕ → ℕ) (b v : ℕ)
    → IsInjective width f
    → b < 2 ^ width
    → (λ a. if ltb a (2 ^ width) then update memory (f b) v (f a) else 0)
      ≡ update (λ a. if ltb a (2 ^ width) then memory (f a) else 0) b v
update-mapping width f memory b v inj hb = fun_ext (λ a. elim (Bool-cases (b == a)) [
  | inl here ↦
      let same : (f b == f a) ≡ true = eq→== (f b) (f a) (ap f (==→eq b a here)) in
      let inside : ltb a (2 ^ width) ≡ true =
        lt→ltb a (2 ^ width) (omega (arith, ==→eq b a here)) in
      rw (here, inside, same)
  | inr away ↦ elim (Bool-cases (ltb a (2 ^ width))) [
    | inl inside ↦
        let apart : (f b == f a) ≡ false =
          ne→== (f b) (f a) (λ e. ==→ne b a away (inj b a hb (ltb→lt a (2 ^ width) inside) e)) in
        rw (away, inside, apart)
    | inr outside ↦ rw (away, outside)
  ]
])
