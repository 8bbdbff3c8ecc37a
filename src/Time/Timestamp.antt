-- ===== src/Time/Timestamp.antt =====
-- The two fields of a time stamp.
use fzkernel.Base.{ℕ, ◌+◌, ◌-◌, ◌*◌, ◌/◌, ◌%◌, ◌^◌, ◌<◌, ◌≡◌, arith, bit_and, u64_mod, ◌<<<◌, ◌>>>◌}
use fzkernel.Base.Outcome.{Outcome, done, try_into-done}
use fzkernel.Base.Bits.{bit_and_low}
use fzkernel.Time.{raw_seconds, raw_ns}

-- The seconds are the low 34 bits.
pub raw_seconds-mod : (t : ℕ) → raw_seconds t ≡ done (t % 2 ^ 34)
unfolding raw_seconds
raw_seconds-mod t =
    let low : bit_and t ((1 <<< 32) - 1) ≡ t % 2 ^ 32 = bit_and_low 32 t in
    let two : bit_and (t >>> 32) 3 ≡ (t / 2 ^ 32) % 4 = bit_and_low 2 (t / 2 ^ 32) in
    rw
      (
        low,
        two,
        try_into-done 4294967296 (t % 2 ^ 32) (omega arith),
        try_into-done 256 (t / 2 ^ 32 % 4) (omega arith),
      )
      (ap_done (omega arith))
  where
    ap_done : {a b : ℕ} → a ≡ b → done a ≡ done b
    ap_done e = rw e

pub raw_ns-div : (t : ℕ) → t < u64_mod → raw_ns t ≡ done (t / 2 ^ 34)
unfolding raw_ns
raw_ns-div t h =
    let high : bit_and (t >>> 34) ((1 <<< 30) - 1) ≡ t / 2 ^ 34 % 2 ^ 30 =
      bit_and_low 30 (t / 2 ^ 34) in
    let short : t / 2 ^ 34 % 2 ^ 30 ≡ t / 2 ^ 34 = omega arith in
    rw (high, short, try_into-done 4294967296 (t / 2 ^ 34) (omega arith))

-- What a time stamp holds: its seconds and its nanoseconds fit their fields and make it up.
pub record Holds (t : ℕ) (seconds ns : Outcome ℕ) : Type 0 where
  pub s : ℕ
  pub n : ℕ
  pub seconds_is : seconds ≡ done s
  pub ns_is : ns ≡ done n
  pub s_small : s < 2 ^ 34
  pub n_small : n < 2 ^ 30
  pub whole : n * 2 ^ 34 + s ≡ t

-- For every 64-bit time stamp, neither `raw_seconds` nor `raw_ns` panics; the seconds are below
-- 2^34, the nanoseconds below 2^30, and the two together are the whole time stamp.
pub raw_seconds-raw_ns : (t : ℕ) → t < u64_mod → Holds t (raw_seconds t) (raw_ns t)
raw_seconds-raw_ns t h = record {
  s = t % 2 ^ 34;
  n = t / 2 ^ 34;
  seconds_is = raw_seconds-mod t;
  ns_is = raw_ns-div t h;
  s_small = omega arith;
  n_small = omega arith;
  whole = omega arith;
}
