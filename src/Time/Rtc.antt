-- ===== src/Time/Rtc.antt =====
-- The clock chip, src/fzboot/time/rtc.rs: `rtc_read` from the registers that it has read twice to
-- the same values, and status register B. The port reads before that are not modelled.
use fzkernel.Base.{
  ℕ, zero, suc, ◌+◌, ◌-◌, ◌*◌, ◌/◌, ◌%◌, ◌≤◌, ◌<◌, ◌≡◌, refl, List, [], ◌∷◌, some, get_elem?, ◌≢◌,
  eq→==, ne→==, arith, not, ◌&&◌, bit_and, ◌==◌, if◌then◌else◌, u8, ◌>>>◌,
}
use fzkernel.Base.Bits.{bit_and_low}
use fzkernel.Time.{
  DateTime, Weekday, monday, tuesday, wednesday, thursday, friday, saturday, sunday,
}

-- `__cmos_rtc_read`, in its order
pub record Registers : Type 0 where
  pub seconds : ℕ
  pub minutes : ℕ
  pub hours : ℕ
  pub week_day : ℕ
  pub month_day : ℕ
  pub month : ℕ
  pub year : ℕ

unfoldable pub from_bcd : ℕ → ℕ
from_bcd n = u8 (u8 ((n >>> 4) * 10) + bit_and n 15)

-- Every register but the day of the week.
unfoldable pub to_binary : ℕ → Registers → Registers
unfolding from_bcd
to_binary status_b time =
    if bit_and status_b 4 == 0
    then record {
      seconds = from_bcd time.seconds;
      minutes = from_bcd time.minutes;
      hours = from_bcd time.hours;
      week_day = time.week_day;
      month_day = from_bcd time.month_day;
      month = from_bcd time.month;
      year = from_bcd time.year;
    }
    else time

-- The translation of the 12 hours format.
unfoldable pub to_24h : ℕ → Registers → Registers
to_24h status_b time =
    if bit_and status_b 2 == 0 && not (bit_and time.hours 128 == 0)
    then record time { hours = u8 (bit_and time.hours 127 + 12) % 24 }
    else time

pub weekday_of : ℕ → Weekday
weekday_of n =
    if n == 1
    then sunday
    else if n == 2
    then monday
    else if n == 3
    then tuesday
    else if n == 4
    then wednesday
    else if n == 5
    then thursday
    else if n == 6
    then friday
    else if n == 7
    then saturday
    else monday

unfoldable pub date_of : Registers → DateTime
date_of time = record {
  seconds = time.seconds;
  minutes = time.minutes;
  hours = time.hours;
  weekday = weekday_of time.week_day;
  month_day = time.month_day;
  month = time.month;
  year = 2000 + time.year;
}

unfoldable pub rtc_read : ℕ → Registers → DateTime
unfolding to_binary to_24h date_of
rtc_read status_b time = date_of (to_24h status_b (to_binary status_b time))

-- How the chip writes a number below 100.
abbrev pub bcd : ℕ → ℕ
bcd n = n / 10 * 16 + n % 10

abbrev pub in_bcd : Registers → Registers
in_bcd r = record {
  seconds = bcd r.seconds;
  minutes = bcd r.minutes;
  hours = bcd r.hours;
  week_day = r.week_day;
  month_day = bcd r.month_day;
  month = bcd r.month;
  year = bcd r.year;
}

pub record AreDigits (r : Registers) : Type 0 where
  pub seconds : r.seconds < 100
  pub minutes : r.minutes < 100
  pub hours : r.hours < 100
  pub month_day : r.month_day < 100
  pub month : r.month < 100
  pub year : r.year < 100

from_bcd-bcd : (n : ℕ) → n < 100 → from_bcd (bcd n) ≡ n
unfolding from_bcd
from_bcd-bcd n h = omega (arith, bit_and_low 4 (bcd n))

-- The days of the chip, which counts from 1.
abbrev pub days : List Weekday
days = sunday ∷ monday ∷ tuesday ∷ wednesday ∷ thursday ∷ friday ∷ saturday ∷ []

-- The date that the numbers of a clock stand for: the year counts from 2000.
pub record Tells (r : Registers) (date : DateTime) : Type 0 where
  pub seconds : date.seconds ≡ r.seconds
  pub minutes : date.minutes ≡ r.minutes
  pub hours : date.hours ≡ r.hours
  pub weekday : get_elem? days (r.week_day - 1) ≡ some date.weekday
  pub month_day : date.month_day ≡ r.month_day
  pub month : date.month ≡ r.month
  pub year : date.year ≡ 2000 + r.year

weekday_of-days : (n : ℕ) → 0 < n → n ≤ 7 → get_elem? days (n - 1) ≡ some (weekday_of n)
unfolding weekday_of
weekday_of-days zero h le = absurd (omega (arith, h))
weekday_of-days (suc zero) h le = refl
weekday_of-days (suc (suc zero)) h le = refl
weekday_of-days (suc (suc (suc zero))) h le = refl
weekday_of-days (suc (suc (suc (suc zero)))) h le = refl
weekday_of-days (suc (suc (suc (suc (suc zero))))) h le = refl
weekday_of-days (suc (suc (suc (suc (suc (suc zero)))))) h le = refl
weekday_of-days (suc (suc (suc (suc (suc (suc (suc zero))))))) h le = refl
weekday_of-days (suc (suc (suc (suc (suc (suc (suc (suc n)))))))) h le = absurd (omega (arith, le))

read_back :
    (status_b : ℕ) (r : Registers)
    → bit_and status_b 4 ≡ 0
    → bit_and status_b 2 ≢ 0
    → AreDigits r
    → rtc_read status_b (in_bcd r) ≡ date_of r
unfolding rtc_read to_binary to_24h date_of
read_back status_b r packed full_day d = rw (
  eq→== (bit_and status_b 4) 0 packed,
  ne→== (bit_and status_b 2) 0 full_day,
  from_bcd-bcd r.seconds d.seconds,
  from_bcd-bcd r.minutes d.minutes,
  from_bcd-bcd r.hours d.hours,
  from_bcd-bcd r.month_day d.month_day,
  from_bcd-bcd r.month d.month,
  from_bcd-bcd r.year d.year,
)

date_of-Tells : (r : Registers) → 0 < r.week_day → r.week_day ≤ 7 → Tells r (date_of r)
unfolding date_of
date_of-Tells r low high = record {
  seconds = refl;
  minutes = refl;
  hours = refl;
  weekday = weekday_of-days r.week_day low high;
  month_day = refl;
  month = refl;
  year = refl;
}

-- In the 24 hours format (bit 1 of status register B is set), with the bit 2 clear, a clock whose
-- registers hold numbers below 100 in BCD, and the day of the week from 1 to 7, is read as just
-- these numbers, each in its field, in a year from 2000 on; and the day of the week is that of the
-- list from Sunday to Saturday.
pub rtc_read-in_bcd :
    (status_b : ℕ) (r : Registers)
    → bit_and status_b 4 ≡ 0
    → bit_and status_b 2 ≢ 0
    → AreDigits r
    → 0 < r.week_day
    → r.week_day ≤ 7
    → Tells r (rtc_read status_b (in_bcd r))
rtc_read-in_bcd status_b r packed full_day d low high =
    rw (read_back status_b r packed full_day d) (date_of-Tells r low high)
