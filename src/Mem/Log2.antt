-- ===== src/Mem/Log2.antt =====
-- The two loops on words that the allocators share: `log2` of src/mem/bmalloc/heap.rs, and the
-- standard library's `next_power_of_two`.
use fzkernel.Base.{
  ℕ, zero, suc, ◌+◌, ◌*◌, ◌/◌, ◌^◌, ◌≤◌, ◌<◌, ◌≡◌, ◌⊎◌, inl, inr, refl, Bool-cases, leb, leb→le,
  leb→lt, ◌==◌, if◌then◌else◌, ◌>>>◌, arith,
}
use fzkernel.Base.Pow.{pow2_suc, pow2_pos, lt_of_pow2}

-- `while a != 0 { a >>= 1; power += 1; }`
pub log2_loop : ℕ → ℕ → ℕ → ℕ
log2_loop zero a power = power
log2_loop (suc fuel) a power =
    let rest = log2_loop fuel (a >>> 1) (power + 1) in if a == 0 then power else rest

-- A word has 64 bits, so 64 rounds empty it.
unfoldable pub log2 : ℕ → ℕ
unfolding log2_loop
log2 a = log2_loop 64 a 0

pub power_loop : ℕ → ℕ → ℕ → ℕ
power_loop zero p size = p
power_loop (suc fuel) p size =
    let rest = power_loop fuel (2 * p) size in if leb size p then p else rest

-- The least power of two that is not below `size`.
unfoldable pub next_power_of_two : ℕ → ℕ
unfolding power_loop
next_power_of_two size = power_loop 64 1 size

-- `log2` counts binary digits: one more than the exponent.
log2_loop_value :
    (fuel k a power : ℕ)
    → k < fuel
    → 2 ^ k ≤ a
    → a < 2 ^ suc k
    → log2_loop fuel a power ≡ power + k + 1
unfolding log2_loop
log2_loop_value zero k a power h lo hi = absurd (omega arith)
log2_loop_value (suc zero) zero a power h lo hi = ground arith
log2_loop_value (suc (suc fuel)) zero a power h lo hi = ground arith
log2_loop_value (suc fuel) (suc k) a power h lo hi =
    ground
      (arith, pow2_suc k, pow2_suc (suc k), pow2_pos k, log2_loop_value fuel k (a / 2) (power + 1))

pub log2_lem : (k a : ℕ) → k < 64 → 2 ^ k ≤ a → a < 2 ^ suc k → log2 a ≡ k + 1
unfolding log2
log2_lem k a h lo hi = omega (arith, log2_loop_value 64 k a 0 h lo hi)

-- `p` is the least power of two from `2 ^ j` on that is not below `size`.
pub record IsLeastPower (j bound size p : ℕ) : Type 0 where
  pub exponent : ℕ
  pub is_power : p ≡ 2 ^ exponent
  pub above : size ≤ p
  pub from : j ≤ exponent
  pub within : exponent ≤ bound
  pub least : (exponent ≡ j) ⊎ (p < 2 * size)

power_loop-IsLeastPower :
    (fuel j bound size : ℕ)
    → bound < j + fuel
    → j ≤ bound
    → size ≤ 2 ^ bound
    → IsLeastPower j bound size (power_loop fuel (2 ^ j) size)
unfolding power_loop
power_loop-IsLeastPower zero j bound size h le hi = absurd (omega arith)
power_loop-IsLeastPower (suc fuel) j bound size h le hi = elim (Bool-cases (leb size (2 ^ j))) [
  | inl stop ↦ rw stop (record {
    exponent = j;
    is_power = refl;
    above = leb→le _ _ stop;
    from = omega arith;
    within = le;
    least = inl refl;
  })
  | inr more ↦
      let below : 2 ^ j < size = leb→lt _ _ more in
      let strict : j < bound = lt_of_pow2 j bound (omega arith) in
      let r = power_loop-IsLeastPower fuel (suc j) bound size (omega arith) strict hi in
      rw (more, ← pow2_suc j)
        (record {
          exponent = r.exponent;
          is_power = r.is_power;
          above = r.above;
          from = omega (arith, r.from);
          within = r.within;
          least = inr (ground (arith, r.least, pow2_suc j, r.is_power, below));
        })
]

pub next_power_of_two-IsLeastPower :
    (bound size : ℕ)
    → bound < 64
    → size ≤ 2 ^ bound
    → IsLeastPower 0 bound size (next_power_of_two size)
unfolding next_power_of_two
next_power_of_two-IsLeastPower bound size h hi =
    power_loop-IsLeastPower 64 0 bound size (omega arith) (omega arith) hi
