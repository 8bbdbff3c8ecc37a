-- ===== src/Mem/Address.antt =====
-- The address types of src/mem/mod.rs: `VirtAddr`, `PhyAddr` and `PhyAddr32`. An address is the
-- number that it holds, and sums wrap as in a release build.
pub mod Canonical
use fzkernel.Base.{
  ℕ, ◌+◌, ◌-◌, ◌*◌, ◌%◌, Bool, Option, none, some, min, bit_and, bit_or, ltb, ◌==◌, if◌then◌else◌,
  u64, u64_mod, ◌<<<◌, ◌>>>◌,
}
use fzkernel.Base.Outcome.{Outcome, done, panic}

-- `VirtAddr::new`, and the same text in `From<VirtAddr> for u64`: bit 47 fills the bits above.
unfoldable pub virt_new : ℕ → ℕ
virt_new addr =
    let sg_extd = bit_and addr (1 <<< 47) >>> 47 in bit_or addr (sg_extd * (65535 <<< 48))

unfoldable pub virt_add : ℕ → ℕ → ℕ
unfolding virt_new
virt_add a b = virt_new (u64 (a + b))

unfoldable pub virt_sub : ℕ → ℕ → ℕ
unfolding virt_new
virt_sub a b = virt_new (u64 (a + (u64_mod - b)))

unfoldable pub virt_is_aligned_with : ℕ → ℕ → Bool
virt_is_aligned_with addr align = addr % align == 0

abbrev pub align_4kb : ℕ
align_4kb = 1 <<< 12

-- `PhyAddr::new`
unfoldable pub phy_new : ℕ → ℕ
phy_new addr = addr % (1 <<< 52)

pub phy_add : ℕ → ℕ → ℕ
phy_add a b = u64 (a + b)

-- `PhyAddr32 + u32`
pub phy32_add : ℕ → ℕ → ℕ
phy32_add a b = min (a + b) 4294967295

-- `TryFrom<Alignment> for u32`
pub align_u32 : ℕ → Option ℕ
align_u32 align = if ltb align 4294967296 then some align else none

-- `MemoryAddress::is_aligned_with` at `PhyAddr`: the conversion of the alignment never fails.
unfoldable pub phy_is_aligned_with : ℕ → ℕ → Bool
phy_is_aligned_with addr align = addr % align == 0
