-- ===== src/Mem/Utils/Examples.antt =====
-- Conversions and slices of concrete numbers, and the theorems at them.
use fzkernel.Base.{◌+◌, ◌-◌, ◌/◌, ◌%◌, ◌^◌, ◌≡◌, refl, arith}
use fzkernel.Base.Outcome.{done}
use fzkernel.Mem.Utils.{
  u64_u32, size_diff, low_bits_mask, target_bits, convert_with_mask, high_bits, low_bits, shl, shr,
  get_bit, get_bit_slice,
}
use fzkernel.Mem.Utils.Slices.{
  source_bits, high_bits-low_bits, get_bit_slice-get_bit, get_bit_slice-whole,
}

high_word : high_bits u64_u32 0x1234_5678_9ABC_DEF0 ≡ done 0x1234_5678
unfolding size_diff low_bits_mask target_bits convert_with_mask high_bits
high_word = refl

middle : get_bit_slice 8 0b1011_0110 2 5 ≡ 0b1101
unfolding shl shr get_bit_slice
middle = refl

high_bits-low_bits_example :
    (high_bits u64_u32 1311768467463790320 ≡ done (1311768467463790320 / 2 ^ (64 - 32)))
    × (low_bits u64_u32 1311768467463790320 ≡ done (1311768467463790320 % 2 ^ 32))
unfolding source_bits target_bits
high_bits-low_bits_example = high_bits-low_bits u64_u32 1311768467463790320 (omega arith)

get_bit_slice-get_bit_example :
    (get_bit 8 182 5 ≡ 182 / 2 ^ 5 % 2) × (get_bit_slice 8 182 2 5 ≡ 182 / 2 ^ 2 % 2 ^ (1 + 5 - 2))
get_bit_slice-get_bit_example =
    get_bit_slice-get_bit 8 182 5 2 5 (omega arith) (omega arith) (omega arith) (omega arith)

get_bit_slice-whole_example : get_bit_slice 8 182 0 (8 - 1) ≡ 0
get_bit_slice-whole_example = get_bit_slice-whole 8 182 (omega arith)
