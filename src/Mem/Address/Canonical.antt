-- ===== src/Mem/Address/Canonical.antt =====
-- Sign extension: the 48 low bits stay, and bit 47 fills the others.
use fzkernel.Base.{
  ℕ, ◌+◌, ◌-◌, ◌*◌, ◌/◌, ◌%◌, ◌^◌, ◌<◌, ◌≡◌, refl, ap, ap₂, zero, suc, ◌∙◌, ◌⊎◌, inl, inr, arith,
  bit_and, bit_or, u64_mod, ◌<<<◌, ◌>>>◌,
}
use fzkernel.Base.Bits.{bit_and_high, bit_and_low, bit_or_split, bit_or-zero, zero-bit_or}
use fzkernel.Mem.Address.{virt_new}

-- Bit 47 of a number, as it is masked out and shifted down.
masked_bit : (a : ℕ) → bit_and a (1 <<< 47) >>> 47 ≡ a / 2 ^ 47 % 2
masked_bit a =
    let high : bit_and a (1 <<< 47) ≡ bit_and (a / 2 ^ 47) 1 * 2 ^ 47 = bit_and_high 47 a 1 in
    let one : bit_and (a / 2 ^ 47) 1 ≡ a / 2 ^ 47 % 2 = bit_and_low 1 (a / 2 ^ 47) in
    omega (arith, high, one)

-- The extension is an `or` of the bits above 48.
virt_new-split :
    (a : ℕ) → virt_new a ≡ bit_or (a / 2 ^ 48) (a / 2 ^ 47 % 2 * 65535) * 2 ^ 48 + a % 2 ^ 48
unfolding virt_new
virt_new-split a =
    let bit : bit_and a (1 <<< 47) >>> 47 ≡ a / 2 ^ 47 % 2 = masked_bit a in
    let s : ℕ = a / 2 ^ 47 % 2 in
    let parts : a ≡ a / 2 ^ 48 * 2 ^ 48 + a % 2 ^ 48 = omega arith in
    let mask : s * (65535 <<< 48) ≡ s * 65535 * 2 ^ 48 + 0 = omega arith in
    let joined : bit_or a (s * (65535 <<< 48))
        ≡ bit_or (a / 2 ^ 48 * 2 ^ 48 + a % 2 ^ 48) (s * 65535 * 2 ^ 48 + 0) =
      ap₂ bit_or parts mask in
    let split =
      bit_or_split 48 (a / 2 ^ 48) (s * 65535) (a % 2 ^ 48) 0 (omega arith) (omega arith) in
    rw bit (
      joined
      ∙ split
      ∙ ap (λ t. bit_or (a / 2 ^ 48) (s * 65535) * 2 ^ 48 + t) (bit_or-zero (a % 2 ^ 48)))

-- The 48 low bits, which a translation reads, are kept.
pub virt_new-low : (a : ℕ) → virt_new a % 2 ^ 48 ≡ a % 2 ^ 48
virt_new-low a = omega (arith, virt_new-split a)

-- Bit 47 and all bits above it agree.
unfoldable pub IsCanonical : ℕ → Type 0
IsCanonical a = (a / 2 ^ 47 ≡ 0) ⊎ (a / 2 ^ 47 ≡ 2 ^ 17 - 1)

pub record Extends (a b : ℕ) : Type 0 where
  pub low : b % 2 ^ 48 ≡ a % 2 ^ 48
  pub canonical : IsCanonical b

virt_new-value : (a : ℕ) → a < 2 ^ 48 → virt_new a ≡ a / 2 ^ 47 * 65535 * 2 ^ 48 + a
virt_new-value a h =
    let none : a / 2 ^ 48 ≡ 0 = omega arith in
    let or : bit_or (a / 2 ^ 48) (a / 2 ^ 47 % 2 * 65535) ≡ a / 2 ^ 47 % 2 * 65535 =
      rw none (zero-bit_or _) in
    omega (arith, virt_new-split a, or)

-- A 48-bit number becomes a canonical address with the same 48 low bits.
pub virt_new-Extends : (a : ℕ) → a < 2 ^ 48 → Extends a (virt_new a)
unfolding IsCanonical
virt_new-Extends a h = record {
  low = virt_new-low a;
  canonical = elim (halves (a / 2 ^ 47) (omega arith)) [
    | inl e ↦ inl (omega (arith, virt_new-value a h, e))
    | inr e ↦ inr (omega (arith, virt_new-value a h, e))
  ];
}
  where
    halves : (q : ℕ) → q < 2 → (q ≡ 0) ⊎ (q ≡ 1)
    halves zero l = inl refl
    halves (suc q) l = inr (omega arith)

-- An address that is canonical is not changed, so that a second extension does nothing.
pub virt_new-canonical : (a : ℕ) → a < u64_mod → IsCanonical a → virt_new a ≡ a
unfolding IsCanonical
virt_new-canonical a h (inl e) =
    let lo : a / 2 ^ 48 ≡ 0 = omega arith in omega (arith, virt_new-value a (omega arith), e)
virt_new-canonical a h (inr e) =
    let hi : a / 2 ^ 48 ≡ 65535 = omega arith in
    let one : a / 2 ^ 47 % 2 ≡ 1 = omega arith in
    let or : bit_or (a / 2 ^ 48) (a / 2 ^ 47 % 2 * 65535) ≡ 65535 = rw (hi, one) in
    omega (arith, virt_new-split a, or)
