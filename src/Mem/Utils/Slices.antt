-- ===== src/Mem/Utils/Slices.antt =====
-- Slices of bits as quotients and remainders.
use fzkernel.Base.{
  ℕ, suc, ◌+◌, ◌-◌, ◌*◌, ◌/◌, ◌%◌, ◌^◌, ◌≤◌, ◌<◌, ◌≡◌, refl, sym, ◌∙◌, ap, ap₂, bit_and, arith,
}
use native.Mathlib.Nat.{mod-eq_of_lt}
use fzkernel.Base.Bits.{bit_and_low, bit_and_high, bit_and-zero}
use fzkernel.Base.Pow.{pow2_add, pow2_pos, pow2_suc, pow2_mono}
use fzkernel.Base.Outcome.{done, try_into, try_into-done}
use fzkernel.Mem.Utils.{
  Conversion, u128_u64, u128_u16, u64_u32, u64_u16, u64_u8, u32_u16, u32_u8, u16_u8, size_diff,
  low_bits_mask, high_bits_mask, target_bits, convert_with_mask, high_bits, low_bits, shl, shr,
  get_bit, get_bit_slice,
}

low_bits_mask-ones : (c : Conversion) → low_bits_mask c ≡ 2 ^ target_bits c - 1
unfolding low_bits_mask target_bits
low_bits_mask-ones u128_u64 = refl
low_bits_mask-ones u128_u16 = refl
low_bits_mask-ones u64_u32 = refl
low_bits_mask-ones u64_u16 = refl
low_bits_mask-ones u64_u8 = refl
low_bits_mask-ones u32_u16 = refl
low_bits_mask-ones u32_u8 = refl
low_bits_mask-ones u16_u8 = refl

-- The mask of the high bits is that of the low ones, shifted up.
high_bits_mask-low_bits_mask :
    (c : Conversion) → high_bits_mask c ≡ low_bits_mask c * 2 ^ size_diff c
unfolding high_bits_mask low_bits_mask size_diff
high_bits_mask-low_bits_mask u128_u64 = refl
high_bits_mask-low_bits_mask u128_u16 = refl
high_bits_mask-low_bits_mask u64_u32 = refl
high_bits_mask-low_bits_mask u64_u16 = refl
high_bits_mask-low_bits_mask u64_u8 = refl
high_bits_mask-low_bits_mask u32_u16 = refl
high_bits_mask-low_bits_mask u32_u8 = refl
high_bits_mask-low_bits_mask u16_u8 = refl

-- The width of the larger type.
unfoldable pub source_bits : Conversion → ℕ
source_bits u128_u64 = 128
source_bits u128_u16 = 128
source_bits u64_u32 = 64
source_bits u64_u16 = 64
source_bits u64_u8 = 64
source_bits u32_u16 = 32
source_bits u32_u8 = 32
source_bits u16_u8 = 16

-- The shift and the smaller type make up the larger one.
size_diff-source_bits : (c : Conversion) → size_diff c + target_bits c ≡ source_bits c
unfolding size_diff target_bits source_bits
size_diff-source_bits u128_u64 = refl
size_diff-source_bits u128_u16 = refl
size_diff-source_bits u64_u32 = refl
size_diff-source_bits u64_u16 = refl
size_diff-source_bits u64_u8 = refl
size_diff-source_bits u32_u16 = refl
size_diff-source_bits u32_u8 = refl
size_diff-source_bits u16_u8 = refl

mod_lt : (a p : ℕ) → 0 < p → a % p < p
mod_lt a p h = grind arith

div_of_mul : (a p : ℕ) → 0 < p → a * p / p ≡ a
div_of_mul a p h = grind arith

div_lt : (a p q : ℕ) → 0 < p → a < p * q → a / p < q
div_lt a p q h lt = grind arith

converted :
    (c : Conversion) (n : ℕ)
    → convert_with_mask c n (low_bits_mask c) ≡ done (n % 2 ^ target_bits c)
unfolding convert_with_mask
converted c n =
    let e : bit_and n (low_bits_mask c) ≡ n % 2 ^ target_bits c =
      ap (bit_and n) (low_bits_mask-ones c) ∙ bit_and_low (target_bits c) n in
    ap (try_into (2 ^ target_bits c)) e
    ∙ try_into-done (2 ^ target_bits c) (n % 2 ^ target_bits c)
        (mod_lt n (2 ^ target_bits c) (pow2_pos (target_bits c)))

-- On a number of the larger type, neither conversion panics: the low bits are the remainder by the
-- range of the smaller type, and the high bits are as many bits from the top of the larger one, the
-- quotient by the power of two at the difference of the two widths.
pub high_bits-low_bits :
    (c : Conversion) (n : ℕ)
    → n < 2 ^ source_bits c
    → (high_bits c n ≡ done (n / 2 ^ (source_bits c - target_bits c)))
      × (low_bits c n ≡ done (n % 2 ^ target_bits c))
unfolding high_bits low_bits
high_bits-low_bits c n h =
    let whole = size_diff-source_bits c in
    let d : source_bits c - target_bits c ≡ size_diff c = omega (arith, whole) in
    let q : n / 2 ^ size_diff c < 2 ^ target_bits c =
      div_lt n (2 ^ size_diff c) (2 ^ target_bits c) (pow2_pos (size_diff c))
        (rw (sym (pow2_add (size_diff c) (target_bits c)), whole) h) in
    (
      converted c (n / 2 ^ size_diff c)
          ∙ ap done (mod-eq_of_lt q)
          ∙ ap (λ k. done (n / 2 ^ k)) (sym d),
      converted c n,
    )

module _ (width n : ℕ) where
  shl-one : (k : ℕ) → k < width → shl width 1 k ≡ 2 ^ k
  unfolding shl
  shl-one k h =
      let e : k % width ≡ k = mod-eq_of_lt h in
      let lt : 2 ^ k < 2 ^ width =
        omega (arith, pow2_suc k, pow2_pos k, pow2_mono (suc k) width h) in
      rw e (ap (λ x. x % 2 ^ width) (omega arith) ∙ mod-eq_of_lt lt)

  shr-div : (m k : ℕ) → k < width → shr width m k ≡ m / 2 ^ k
  unfolding shr
  shr-div m k h = let e : k % width ≡ k = mod-eq_of_lt h in rw e refl

  bit_of : (i : ℕ) → bit_and n (2 ^ i) ≡ n / 2 ^ i % 2 * 2 ^ i
  bit_of i =
      let e : 2 ^ i ≡ 1 * 2 ^ i = omega arith in
      ap (bit_and n) e ∙ bit_and_high i n 1 ∙ ap (λ x. x * 2 ^ i) (bit_and_low 1 (n / 2 ^ i))

  -- A bit below the width, and a slice of fewer bits than the width, are a remainder of the number
  -- shifted down.
  pub get_bit_slice-get_bit :
      (i first last : ℕ)
      → i < width
      → first ≤ last
      → last < width
      → 1 + last - first < width
      → (get_bit width n i ≡ n / 2 ^ i % 2)
        × (get_bit_slice width n first last ≡ n / 2 ^ first % 2 ^ (1 + last - first))
  unfolding get_bit get_bit_slice
  get_bit_slice-get_bit i first last hi le hl small =
      let k : ℕ = 1 + last - first in
      (
        ap (λ x. shr width (bit_and n x) i) (shl-one i hi)
            ∙ shr-div (bit_and n (2 ^ i)) i hi
            ∙ ap (λ x. x / 2 ^ i) (bit_of i)
            ∙ div_of_mul (n / 2 ^ i % 2) (2 ^ i) (pow2_pos i),
        ap₂ (λ x y. bit_and x (y - 1)) (shr-div n first (omega arith)) (shl-one k small)
            ∙ bit_and_low k (n / 2 ^ first),
      )

  whole_mask : 0 < width → shl width 1 (1 + (width - 1) - 0) ≡ 1
  unfolding shl
  whole_mask h =
      let e : (1 + (width - 1) - 0) % width ≡ 0 = grind arith in
      let big : 1 < 2 ^ width = omega (arith, pow2_mono 1 width h) in rw e (mod-eq_of_lt big)

  -- The slice of all the bits of a number is 0 where the shift takes its count modulo the width.
  pub get_bit_slice-whole : 0 < width → get_bit_slice width n 0 (width - 1) ≡ 0
  unfolding get_bit_slice
  get_bit_slice-whole h =
      ap (λ y. bit_and (shr width n 0) (y - 1)) (whole_mask h) ∙ bit_and-zero (shr width n 0)
