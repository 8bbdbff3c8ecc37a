-- ===== src/Mem/AllocHeader/Masks.antt =====
-- Setting and clearing one of the four low bits of a word, in numbers.
use native.Mathlib.Nat.{mod-eq_of_lt}
use fzkernel.Base.{ℕ, ◌+◌, ◌-◌, ◌*◌, ◌/◌, ◌%◌, ◌^◌, ◌<◌, ◌≡◌, ap, arith, bit_and, bit_or, u64_mod}
use fzkernel.Base.Bits.{bit_or_digit, bit_and_digit, bit_or-zero, bit_and_low}
use fzkernel.Mem.AllocHeader.{clear}

pub or_one : (q : ℕ) → bit_or q 1 ≡ q / 2 * 2 + 1
or_one q = omega (arith, bit_or_digit q 1, bit_or-zero (q / 2))

-- Setting a bit, and clearing it, in numbers.
pub or_two : (n : ℕ) → bit_or n 2 ≡ n / 4 * 4 + 2 + n % 2
or_two n = omega (arith, bit_or_digit n 2, or_one (n / 2))

pub or_four : (n : ℕ) → bit_or n 4 ≡ n / 8 * 8 + 4 + n % 4
or_four n = omega (arith, bit_or_digit n 4, or_two (n / 2))

pub or_eight : (n : ℕ) → bit_or n 8 ≡ n / 16 * 16 + 8 + n % 8
or_eight n = omega (arith, bit_or_digit n 8, or_four (n / 2))

keep_bit : (n m : ℕ) → bit_and n (m * 2 + 1) ≡ bit_and (n / 2) m * 2 + n % 2
keep_bit n m =
    let half : (m * 2 + 1) / 2 ≡ m = omega arith in
    omega (arith, bit_and_digit n (m * 2 + 1), ap (bit_and (n / 2)) half)

drop_bit : (n m : ℕ) → bit_and n (m * 2) ≡ bit_and (n / 2) m * 2
drop_bit n m =
    let half : m * 2 / 2 ≡ m = omega arith in
    omega (arith, bit_and_digit n (m * 2), ap (bit_and (n / 2)) half)

-- A mask of the bits from the lowest but one up to the last of a word of `k + 1` bits.
all_but_one : (k n : ℕ) → n < 2 * 2 ^ k → bit_and n ((2 ^ k - 1) * 2) ≡ n / 2 * 2
all_but_one k n h = omega (
  arith,
  drop_bit n (2 ^ k - 1),
  bit_and_low k (n / 2),
  mod-eq_of_lt {n = n / 2} {m = 2 ^ k} (omega (arith, h)),
)

pub clear_one : (n : ℕ) → n < u64_mod → clear n 1 ≡ n / 2 * 2
clear_one n h = all_but_one 63 n h

pub clear_two : (n : ℕ) → n < u64_mod → clear n 2 ≡ n / 4 * 4 + n % 2
clear_two n h =
    let first : clear n 2 ≡ bit_and (n / 2) (2 ^ 63 - 2) * 2 + n % 2 = keep_bit n (2 ^ 63 - 2) in
    let rest : bit_and (n / 2) (2 ^ 63 - 2) ≡ n / 2 / 2 * 2 =
      all_but_one 62 (n / 2) (omega arith) in
    omega (arith, first, rest)

pub clear_four : (n : ℕ) → n < u64_mod → clear n 4 ≡ n / 8 * 8 + n % 4
clear_four n h =
    let first : clear n 4 ≡ bit_and (n / 2) (2 ^ 63 - 3) * 2 + n % 2 = keep_bit n (2 ^ 63 - 3) in
    let second : bit_and (n / 2) (2 ^ 63 - 3) ≡ bit_and (n / 2 / 2) (2 ^ 62 - 2) * 2 + n / 2 % 2 =
      keep_bit (n / 2) (2 ^ 62 - 2) in
    let rest : bit_and (n / 2 / 2) (2 ^ 62 - 2) ≡ n / 2 / 2 / 2 * 2 =
      all_but_one 61 (n / 2 / 2) (omega arith) in
    omega (arith, first, second, rest)

pub clear_eight : (n : ℕ) → n < u64_mod → clear n 8 ≡ n / 16 * 16 + n % 8
clear_eight n h =
    let first : clear n 8 ≡ bit_and (n / 2) (2 ^ 63 - 5) * 2 + n % 2 = keep_bit n (2 ^ 63 - 5) in
    let second : bit_and (n / 2) (2 ^ 63 - 5) ≡ bit_and (n / 2 / 2) (2 ^ 62 - 3) * 2 + n / 2 % 2 =
      keep_bit (n / 2) (2 ^ 62 - 3) in
    let third : bit_and (n / 2 / 2) (2 ^ 62 - 3)
        ≡ bit_and (n / 2 / 2 / 2) (2 ^ 61 - 2) * 2 + n / 2 / 2 % 2 =
      keep_bit (n / 2 / 2) (2 ^ 61 - 2) in
    let rest : bit_and (n / 2 / 2 / 2) (2 ^ 61 - 2) ≡ n / 2 / 2 / 2 / 2 * 2 =
      all_but_one 60 (n / 2 / 2 / 2) (omega arith) in
    omega (arith, first, second, third, rest)
