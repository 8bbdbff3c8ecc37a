-- ===== src/Base/Pow.antt =====
-- Powers of two, which the tactics take for unknowns.
use native.Mathlib.Nat.{pow-suc, add-zero, add-suc}
use Prim.Native.Nat.{ℕ, zero, suc, ◌+◌, ◌-◌, ◌*◌, ◌^◌, ◌≤◌, ◌<◌}
use mathlib.Core.Path.{◌≡◌, ap}
use native.Mathlib.Omega.{arith}
use native.Mathlib.Decide.{dec_lt}

pub pow2_suc : (k : ℕ) → 2 ^ suc k ≡ 2 * 2 ^ k
pow2_suc k = omega (arith, pow-suc 2 k)

pub pow2_pos : (k : ℕ) → 0 < 2 ^ k
pow2_pos zero = omega arith
pow2_pos (suc k) = omega (arith, pow2_suc k, pow2_pos k)

pub mul-pow2_suc : (q k : ℕ) → q * 2 ^ suc k ≡ 2 * (q * 2 ^ k)
mul-pow2_suc q k = omega (arith, ap (λ (t : ℕ). q * t) (pow2_suc k))

pub pow2_add : (a b : ℕ) → 2 ^ (a + b) ≡ 2 ^ a * 2 ^ b
pow2_add a zero = rw add-zero (omega arith)
pow2_add a (suc b) =
    rw add-suc (omega (arith, pow2_suc (a + b), pow2_suc b, pow2_add a b, mul-pow2_suc (2 ^ a) b))

pub pow2_split : (a b : ℕ) → a ≤ b → 2 ^ b ≡ 2 ^ a * 2 ^ (b - a)
pow2_split a b h = let e : a + (b - a) ≡ b = omega arith in rw e at (pow2_add a (b - a))

pub pow2_mono : (a b : ℕ) → a ≤ b → 2 ^ a ≤ 2 ^ b
pow2_mono a b h = rw (pow2_split a b h) (grind (arith, pow2_pos (b - a)))

pub lt-pow2 : (k : ℕ) → k < 2 ^ k
lt-pow2 zero = omega arith
lt-pow2 (suc k) = omega (arith, pow2_suc k, lt-pow2 k)

pub lt_of_pow2 : (a b : ℕ) → 2 ^ a < 2 ^ b → a < b
lt_of_pow2 a b h = elim (dec_lt a b) [
  | yes p ↦ p
  | no n ↦ absurd (omega (arith, pow2_mono b a (omega arith)))
]

pub le_of_pow2 : (a b : ℕ) → 2 ^ a ≤ 2 ^ b → a ≤ b
le_of_pow2 a b h = elim (dec_lt b a) [
  | yes p ↦ absurd (omega (arith, pow2_suc b, pow2_pos b, pow2_mono (suc b) a p))
  | no n ↦ omega arith
]
