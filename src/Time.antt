-- ===== src/Time.antt =====
-- The clock's dates of src/fzboot/time/mod.rs: Unix time stamps and their conversion to `DateTime`.
--
-- An `i64` that the code computes here is never negative, so it is a native number; a conversion
-- that ends in `expect` panics where the value is too large for its type.
pub mod Timestamp
pub mod Calendar
pub mod Rtc
mod Examples
use fzkernel.Base.{
  ℕ, suc, ◌+◌, ◌-◌, ◌*◌, ◌/◌, ◌%◌, Bool, true, false, List, [], ◌∷◌, bit_and, ltb, leb, ◌==◌,
  if◌then◌else◌, ◌<<<◌, ◌>>>◌,
}
use fzkernel.Base.Outcome.{Outcome, done, panic, ◌>>=◌, try_into}

pub data Weekday : Type 0 where
  monday tuesday wednesday thursday friday saturday sunday : Weekday

pub record DateTime : Type 0 where
  pub seconds : ℕ
  pub minutes : ℕ
  pub hours : ℕ
  pub weekday : Weekday
  pub month_day : ℕ
  pub month : ℕ
  pub year : ℕ

abbrev pub linux_epoch : DateTime
linux_epoch = record {
  seconds = 0;
  minutes = 0;
  hours = 0;
  weekday = thursday;
  month_day = 1;
  month = 1;
  year = 1970;
}

abbrev pub secs_per_day : ℕ
secs_per_day = 86400

abbrev pub secs_per_hour : ℕ
secs_per_hour = 3600

abbrev pub secs_per_minute : ℕ
secs_per_minute = 60

abbrev pub days_per_month : List ℕ
days_per_month =
    31 ∷ 28 ∷ 31 ∷ 30 ∷ 31 ∷ 30 ∷ 31 ∷ 31 ∷ 30 ∷ 31 ∷ 30 ∷ 31 ∷ 31 ∷ 28 ∷ 31 ∷ 30 ∷ 31 ∷ 30 ∷ 31
    ∷ 31 ∷ 30 ∷ 31 ∷ 30 ∷ 31 ∷ 31 ∷ 29 ∷ 31 ∷ 30 ∷ 31 ∷ 30 ∷ 31 ∷ 31 ∷ 30 ∷ 31 ∷ 30 ∷ 31 ∷ 31 ∷ 28
    ∷ 31 ∷ 30 ∷ 31 ∷ 30 ∷ 31 ∷ 31 ∷ 30 ∷ 31 ∷ 30 ∷ 31 ∷ []

abbrev pub four_years_len_in_secs : ℕ
four_years_len_in_secs = 126230400

pub raw_seconds : ℕ → Outcome ℕ
raw_seconds t = do
  t_val_s ← try_into 4294967296 (bit_and t ((1 <<< 32) - 1))
  adjustement_bits ← try_into 256 (bit_and (t >>> 32) 3)
  done (t_val_s + (1 <<< 32) * adjustement_bits)

pub raw_ns : ℕ → Outcome ℕ
raw_ns t = try_into 4294967296 (bit_and (t >>> 34) ((1 <<< 30) - 1))

-- `saturating_sub`
pub sub : ℕ → ℕ → ℕ
sub t rhs = t - rhs

-- The `while` of `get_current_date_in_block`: the months from `curr_month` on, and the month and
-- the rest of the days where it stops. The index is out of range behind the last month.
pub month_loop : List ℕ → ℕ → ℕ → Outcome (ℕ × ℕ)
month_loop [] day_counter curr_month =
    if ltb 0 day_counter then panic else done (curr_month, day_counter)
month_loop (len ∷ months) day_counter curr_month =
    let later = month_loop months (day_counter - len) (suc curr_month) in
    if ltb 0 day_counter
    then if leb day_counter len then done (curr_month, day_counter) else later
    else done (curr_month, day_counter)

pub get_current_date_in_block : ℕ → Outcome (ℕ × ℕ × ℕ)
get_current_date_in_block days_passed = do
  r ← month_loop days_per_month days_passed 0
  year_offset ← try_into 65536 (r.0 / 12)
  month ← try_into 65536 (r.0 % 12 + 1)
  done (year_offset, month, r.1 + 1)

-- `From<UnixTimestamp> for DateTime`
pub from_timestamp : ℕ → Outcome DateTime
from_timestamp value = do
  raw ← raw_seconds value
  let full_year_blk_count = raw / four_years_len_in_secs
  let days_passed = raw % four_years_len_in_secs / secs_per_day
  date ← get_current_date_in_block days_passed
  let years = linux_epoch.year + date.0 + 4 * full_year_blk_count
  let seconds = raw % secs_per_day
  let hours = seconds / secs_per_hour
  let minutes = seconds % secs_per_hour / secs_per_minute
  let remaining_secs = seconds % secs_per_hour % secs_per_minute
  s ← try_into 256 remaining_secs
  mi ← try_into 256 minutes
  h ← try_into 256 hours
  d ← try_into 256 date.2
  m ← try_into 256 date.1
  y ← try_into 65536 years
  done (record {
    seconds = s;
    minutes = mi;
    hours = h;
    weekday = monday;
    month_day = d;
    month = m;
    year = y;
  })
