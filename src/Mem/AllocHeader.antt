-- ===== src/Mem/AllocHeader.antt =====
-- The header of a block of the kernel heap: `AllocHeader` of src/mem/vmalloc/kheap.rs. One 64-bit
-- word holds the size of the block, a multiple of 16, and four flags.
pub mod Masks
pub mod Refine
mod Examples
use fzkernel.Base.{
  ℕ, ◌+◌, ◌-◌, ◌/◌, ◌%◌, Bool, true, false, not, bit_and, bit_or, ◌==◌, if◌then◌else◌, u64_mod,
  ◌>>>◌,
}

pub data NodeColor : Type 0 where
  red black : NodeColor

-- `inner |= mask` and `inner &= !mask`
abbrev pub clear : ℕ → ℕ → ℕ
clear inner mask = bit_and inner (u64_mod - 1 - mask)

unfoldable pub allocate : ℕ → ℕ
allocate inner = bit_or inner 1

unfoldable pub free : ℕ → ℕ
free inner = clear inner 1

unfoldable pub is_mapped : ℕ → Bool
is_mapped inner = not (bit_and inner 8 == 0)

unfoldable pub set_mapped : ℕ → Bool → ℕ
set_mapped inner mapped = if mapped then bit_or inner 8 else clear inner 8

unfoldable pub is_allocated : ℕ → Bool
is_allocated inner = not (bit_and inner 1 == 0)

unfoldable pub get_size : ℕ → ℕ
get_size inner = clear inner 15

unfoldable pub set_size : ℕ → ℕ → ℕ
set_size inner size = bit_or size (bit_and inner 15)

unfoldable pub left_allocated : ℕ → Bool
left_allocated inner = not (bit_and inner 2 == 0)

unfoldable pub set_left_allocated : ℕ → Bool → ℕ
set_left_allocated inner allocated = if allocated then bit_or inner 2 else clear inner 2

unfoldable pub get_color : ℕ → NodeColor
get_color inner = if bit_and (inner >>> 2) 1 == 0 then black else red

unfoldable pub set_color : ℕ → NodeColor → ℕ
set_color inner black = clear inner 4
set_color inner red = bit_or inner 4

abbrev pub min_kheap_align : ℕ
min_kheap_align = 16

unfoldable pub alloc_size_req_align : ℕ → ℕ
alloc_size_req_align size_req =
    if not (size_req % min_kheap_align == 0)
    then size_req - size_req % min_kheap_align + min_kheap_align
    else size_req
