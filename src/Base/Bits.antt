-- ===== src/Base/Bits.antt =====
-- Laws of `&`, `|` and `^` at variables: the recursion on the lowest digit that the native
-- operations stand for, and what each does to a word split at bit `k`.
use Prim.Native.Nat.{
  ℕ, zero, suc, ◌+◌, ◌-◌, ◌*◌, ◌/◌, ◌%◌, ◌^◌, ◌≤◌, ◌<◌, min, max, bit_and, bit_or, bit_xor, digits,
  differ, bitwise, bit_and-bitwise, bit_or-bitwise, bit_xor-bitwise,
}
use mathlib.Core.Path.{◌≡◌, refl, ap}
use mathlib.Core.Logic.{◌⊎◌, inl, inr}
use native.Mathlib.Omega.{arith}
use fzkernel.Base.Pow.{pow2_suc, pow2_pos, mul-pow2_suc}

module _ (z : ℕ → ℕ) (f : ℕ → ℕ → ℕ) where
  -- Fuel beyond the first argument does not change the digits.
  digits_enough : (n m a b : ℕ) → a ≤ n → a ≤ m → digits z f n a b ≡ digits z f m a b
  digits_enough n m zero b p q = both_zero n m
    where
      both_zero : (n m : ℕ) → digits z f n zero b ≡ digits z f m zero b
      both_zero zero zero = refl
      both_zero zero (suc m) = refl
      both_zero (suc n) zero = refl
      both_zero (suc n) (suc m) = refl
  digits_enough zero m (suc a) b p q = absurd (omega arith)
  digits_enough (suc n) zero (suc a) b p q = absurd (omega arith)
  digits_enough (suc n) (suc m) (suc a) b p q =
      rw (digits_enough n m (suc a / 2) (b / 2) (omega arith) (omega arith))

  bitwise_digit :
      (a b : ℕ)
      → bitwise z f (suc a) b ≡ bitwise z f (suc a / 2) (b / 2) * 2 + f (suc a % 2) (b % 2)
  bitwise_digit a b =
      omega (arith, digits_enough a (suc a / 2) (suc a / 2) (b / 2) (omega arith) (omega arith))

pub bit_or_digit : (a b : ℕ) → bit_or a b ≡ bit_or (a / 2) (b / 2) * 2 + max (a % 2) (b % 2)
bit_or_digit zero b = simp bit_or-bitwise (omega arith)
bit_or_digit (suc a) b = simp bit_or-bitwise (bitwise_digit (λ y. y) max a b)

pub bit_and_digit : (a b : ℕ) → bit_and a b ≡ bit_and (a / 2) (b / 2) * 2 + min (a % 2) (b % 2)
bit_and_digit zero b = simp bit_and-bitwise (omega arith)
bit_and_digit (suc a) b = simp bit_and-bitwise (bitwise_digit (λ y. 0) min a b)

differ-parity : (x y : ℕ) → x < 2 → y < 2 → differ x y ≡ (x + y) % 2
differ-parity zero y hx hy = omega arith
differ-parity (suc zero) zero hx hy = refl
differ-parity (suc zero) (suc zero) hx hy = refl
differ-parity (suc zero) (suc (suc y)) hx hy = absurd (omega arith)
differ-parity (suc (suc x)) y hx hy = absurd (omega arith)

pub bit_xor_digit : (a b : ℕ) → bit_xor a b ≡ bit_xor (a / 2) (b / 2) * 2 + (a + b) % 2
bit_xor_digit zero b = simp bit_xor-bitwise (omega arith)
bit_xor_digit (suc a) b = omega (
  arith,
  bit_xor-bitwise (suc a) b,
  bit_xor-bitwise (suc a / 2) (b / 2),
  bitwise_digit (λ y. y) differ a b,
  differ-parity (suc a % 2) (b % 2) (omega arith) (omega arith),
)

zero_or_pos : (a : ℕ) → (a ≡ 0) ⊎ (0 < a)
zero_or_pos zero = inl refl
zero_or_pos (suc a) = inr (omega arith)

module _ (op : ℕ → ℕ → ℕ) (bit : ℕ → ℕ → ℕ) (op_zero : op 0 0 ≡ 0)
    (digit : (a b : ℕ) → op a b ≡ op (a / 2) (b / 2) * 2 + bit (a % 2) (b % 2)) where
  split_zero : (q p r t : ℕ) → r ≡ 0 → t ≡ 0 → op (q * 1 + r) (p * 1 + t) ≡ op q p * 1 + op r t
  split_zero q p r t er et = ground (arith, op_zero)

  -- A digitwise operation acts apart on the bits from `k` up and on those below.
  split_at :
      (k q p r t : ℕ)
      → r < 2 ^ k
      → t < 2 ^ k
      → op (q * 2 ^ k + r) (p * 2 ^ k + t) ≡ op q p * 2 ^ k + op r t
  split_at zero q p r t hr ht = split_zero q p r t (omega arith) (omega arith)
  split_at (suc k) q p r t hr ht = ground (
    arith,
    digit (q * 2 ^ suc k + r) (p * 2 ^ suc k + t),
    digit r t,
    mul-pow2_suc q k,
    mul-pow2_suc p k,
    mul-pow2_suc (op q p) k,
    pow2_suc k,
    split_at k q p (r / 2) (t / 2),
  )

  -- Zero is neutral for an operation whose digits it leaves alone.
  zero_right : ((x : ℕ) → x < 2 → bit x 0 ≡ x) → (n a : ℕ) → a ≤ n → op a 0 ≡ a
  zero_right keep zero a h = let e : a ≡ 0 = omega arith in rw e op_zero
  zero_right keep (suc n) a h = elim (zero_or_pos a) [
    | inl e ↦ rw e op_zero
    | inr p ↦
        omega
          (arith, digit a 0, keep (a % 2) (omega arith), zero_right keep n (a / 2) (omega arith))
  ]

  -- Zero clears an operand whose digits it clears.
  zero_clears : ((x : ℕ) → bit x 0 ≡ 0) → (fuel a : ℕ) → a ≤ fuel → op a 0 ≡ 0
  zero_clears clear fuel zero h = op_zero
  zero_clears clear zero (suc a) h = absurd (omega arith)
  zero_clears clear (suc fuel) (suc a) h =
      let above = zero_clears clear fuel (suc a / 2) (omega arith) in
      omega (arith, digit (suc a) 0, clear (suc a % 2), above)

pub bit_and_split :
    (k q p r t : ℕ)
    → r < 2 ^ k
    → t < 2 ^ k
    → bit_and (q * 2 ^ k + r) (p * 2 ^ k + t) ≡ bit_and q p * 2 ^ k + bit_and r t
bit_and_split = split_at bit_and (λ x y. min x y) refl bit_and_digit

pub bit_or_split :
    (k q p r t : ℕ)
    → r < 2 ^ k
    → t < 2 ^ k
    → bit_or (q * 2 ^ k + r) (p * 2 ^ k + t) ≡ bit_or q p * 2 ^ k + bit_or r t
bit_or_split = split_at bit_or (λ x y. max x y) refl bit_or_digit

pub bit_xor_split :
    (k q p r t : ℕ)
    → r < 2 ^ k
    → t < 2 ^ k
    → bit_xor (q * 2 ^ k + r) (p * 2 ^ k + t) ≡ bit_xor q p * 2 ^ k + bit_xor r t
bit_xor_split = split_at bit_xor (λ x y. (x + y) % 2) refl (λ a b. omega (arith, bit_xor_digit a b))

pub bit_or-zero : (a : ℕ) → bit_or a 0 ≡ a
bit_or-zero a =
    zero_right bit_or (λ x y. max x y) refl bit_or_digit (λ x h. omega arith) a a (omega arith)

pub zero-bit_or : (a : ℕ) → bit_or 0 a ≡ a
zero-bit_or a = omega (arith, bit_or-bitwise 0 a)

pub bit_xor-zero : (a : ℕ) → bit_xor a 0 ≡ a
bit_xor-zero a =
    zero_right bit_xor (λ x y. (x + y) % 2) refl (λ a b. omega (arith, bit_xor_digit a b))
      (λ x h. omega arith) a a (omega arith)

pub zero-bit_and : (a : ℕ) → bit_and 0 a ≡ 0
zero-bit_and a = omega (arith, bit_and-bitwise 0 a)

pub bit_and-zero : (a : ℕ) → bit_and a 0 ≡ 0
bit_and-zero a =
    zero_clears bit_and (λ x y. min x y) refl bit_and_digit (λ x. omega arith) a a (omega arith)

bit_and_ones : (k r : ℕ) → r < 2 ^ k → bit_and r (2 ^ k - 1) ≡ r
bit_and_ones zero r h = let e : r ≡ 0 = omega arith in rw e
bit_and_ones (suc k) r h = ground (
  arith,
  pow2_suc k,
  pow2_pos k,
  bit_and_digit r (2 ^ suc k - 1),
  bit_and_ones k (r / 2) (omega (arith, pow2_suc k)),
)

-- A mask of the `k` low bits is a remainder.
pub bit_and_low : (k a : ℕ) → bit_and a (2 ^ k - 1) ≡ a % 2 ^ k
bit_and_low k a = ground (
  arith,
  pow2_pos k,
  bit_and_split k (a / 2 ^ k) 0 (a % 2 ^ k) (2 ^ k - 1),
  bit_and-zero (a / 2 ^ k),
  bit_and_ones k (a % 2 ^ k),
)

-- A mask that is a multiple of `2 ^ k` cuts the low bits off.
pub bit_and_high : (k a p : ℕ) → bit_and a (p * 2 ^ k) ≡ bit_and (a / 2 ^ k) p * 2 ^ k
bit_and_high k a p =
    ground
      (arith, pow2_pos k, bit_and_split k (a / 2 ^ k) p (a % 2 ^ k) 0, bit_and-zero (a % 2 ^ k))

-- `(q << k) | r` is a sum when `r` fits below `k`.
pub bit_or_fields : (k q r : ℕ) → r < 2 ^ k → bit_or (q * 2 ^ k) r ≡ q * 2 ^ k + r
bit_or_fields k q r h = ground (arith, bit_or_split k q 0 0 r, bit_or-zero q, zero-bit_or r)

pub bit_or_above : (k r q : ℕ) → r < 2 ^ k → bit_or r (q * 2 ^ k) ≡ q * 2 ^ k + r
bit_or_above k r q h =
    ground (arith, pow2_pos k, bit_or_split k 0 q r 0, bit_or-zero r, zero-bit_or q)

bit_xor_value : (k a : ℕ) → bit_xor a (2 ^ k) ≡ bit_xor (a / 2 ^ k) 1 * 2 ^ k + a % 2 ^ k
bit_xor_value k a =
    ground
      (arith, pow2_pos k, bit_xor_split k (a / 2 ^ k) 1 (a % 2 ^ k) 0, bit_xor-zero (a % 2 ^ k))

bit_xor_one : (q : ℕ) → bit_xor q 1 ≡ q / 2 * 2 + (q + 1) % 2
bit_xor_one q = omega (arith, bit_xor_digit q 1, bit_xor-zero (q / 2))

-- Flipping bit `k` adds its value where the bit is clear.
pub bit_xor_clear : (k a : ℕ) → a / 2 ^ k % 2 ≡ 0 → bit_xor a (2 ^ k) ≡ a + 2 ^ k
bit_xor_clear k a h =
    let e : bit_xor (a / 2 ^ k) 1 ≡ a / 2 ^ k + 1 = omega (arith, bit_xor_one (a / 2 ^ k)) in
    omega (arith, pow2_pos k, bit_xor_value k a, ap (λ (t : ℕ). t * 2 ^ k) e)

-- Where the bit is set, flipping it takes its value away.
pub bit_xor_set : (k a : ℕ) → a / 2 ^ k % 2 ≡ 1 → bit_xor a (2 ^ k) + 2 ^ k ≡ a
bit_xor_set k a h =
    let e : bit_xor (a / 2 ^ k) 1 + 1 ≡ a / 2 ^ k = omega (arith, bit_xor_one (a / 2 ^ k)) in
    omega (arith, pow2_pos k, bit_xor_value k a, ap (λ (t : ℕ). t * 2 ^ k) e)
