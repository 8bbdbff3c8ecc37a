-- ===== src/Mem/Utils.antt =====
-- The bit operations of src/mem/utils.rs, with the shifts of a release build, which take the count
-- modulo the width.

pub mod Slices
mod Examples
use fzkernel.Base.{ℕ, ◌+◌, ◌-◌, ◌*◌, ◌/◌, ◌%◌, ◌^◌, bit_and, ltb, if◌then◌else◌}
use fzkernel.Base.Outcome.{Outcome, done, panic, try_into}

-- The implementations of `Convertible`: from one unsigned type to a smaller one.
pub data Conversion : Type 0 where
  u128_u64 u128_u16 u64_u32 u64_u16 u64_u8 u32_u16 u32_u8 u16_u8 : Conversion

unfoldable pub size_diff : Conversion → ℕ
size_diff Conversion.u128_u64 = 64
size_diff Conversion.u128_u16 = 112
size_diff Conversion.u64_u32 = 32
size_diff Conversion.u64_u16 = 48
size_diff Conversion.u64_u8 = 56
size_diff Conversion.u32_u16 = 16
size_diff Conversion.u32_u8 = 24
size_diff Conversion.u16_u8 = 8

unfoldable pub low_bits_mask : Conversion → ℕ
low_bits_mask Conversion.u128_u64 = 0xFFFF_FFFF_FFFF_FFFF
low_bits_mask Conversion.u128_u16 = 0xFFFF
low_bits_mask Conversion.u64_u32 = 0xFFFF_FFFF
low_bits_mask Conversion.u64_u16 = 0xFFFF
low_bits_mask Conversion.u64_u8 = 0xFF
low_bits_mask Conversion.u32_u16 = 0xFFFF
low_bits_mask Conversion.u32_u8 = 0xFF
low_bits_mask Conversion.u16_u8 = 0xFF

unfoldable pub high_bits_mask : Conversion → ℕ
high_bits_mask Conversion.u128_u64 = 0xFFFF_FFFF_FFFF_FFFF * 2 ^ 64
high_bits_mask Conversion.u128_u16 = 0xFFFF * 2 ^ 112
high_bits_mask Conversion.u64_u32 = 0xFFFF_FFFF_0000_0000
high_bits_mask Conversion.u64_u16 = 0xFFFF_0000_0000_0000
high_bits_mask Conversion.u64_u8 = 0xFF00_0000_0000_0000
high_bits_mask Conversion.u32_u16 = 0xFFFF_0000
high_bits_mask Conversion.u32_u8 = 0xFF00_0000
high_bits_mask Conversion.u16_u8 = 0xFF00

-- The width of the smaller type, `T`.
unfoldable pub target_bits : Conversion → ℕ
target_bits Conversion.u128_u64 = 64
target_bits Conversion.u128_u16 = 16
target_bits Conversion.u64_u32 = 32
target_bits Conversion.u64_u16 = 16
target_bits Conversion.u64_u8 = 8
target_bits Conversion.u32_u16 = 16
target_bits Conversion.u32_u8 = 8
target_bits Conversion.u16_u8 = 8

unfoldable pub convert_with_mask : Conversion → (n mask : ℕ) → Outcome ℕ
unfolding target_bits
convert_with_mask c n mask = try_into (2 ^ target_bits c) (bit_and n mask)

unfoldable pub high_bits : Conversion → ℕ → Outcome ℕ
unfolding size_diff low_bits_mask convert_with_mask
high_bits c n = convert_with_mask c (n / 2 ^ size_diff c) (low_bits_mask c)

unfoldable pub low_bits : Conversion → ℕ → Outcome ℕ
unfolding low_bits_mask convert_with_mask
low_bits c n = convert_with_mask c n (low_bits_mask c)

-- `<<` and `>>` at a type of `width` bits
unfoldable pub shl : (width n count : ℕ) → ℕ
shl width n count = n * 2 ^ (count % width) % 2 ^ width

unfoldable pub shr : (width n count : ℕ) → ℕ
shr width n count = n / 2 ^ (count % width)

unfoldable pub get_bit : (width n index : ℕ) → ℕ
unfolding shl shr
get_bit width n index = shr width (bit_and n (shl width 1 index)) index

-- The mask is `(1 << (1 + last_bit - first_bit)) - 1`, of a shifted 1, which is never 0.
unfoldable pub get_bit_slice : (width n first_bit last_bit : ℕ) → ℕ
unfolding shl shr
get_bit_slice width n first_bit last_bit =
    bit_and (shr width n first_bit) (shl width 1 (1 + last_bit - first_bit) - 1)
