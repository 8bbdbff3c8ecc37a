-- ===== src/Time/Examples.antt =====
-- Time stamps and their dates.
use fzkernel.Base.{◌%◌, ◌^◌, ◌≡◌, refl, arith}
use fzkernel.Base.Outcome.{done}
use fzkernel.Time.{
  monday, from_timestamp, raw_seconds, raw_ns, get_current_date_in_block, month_loop,
}
use fzkernel.Time.Timestamp.{Holds, raw_seconds-raw_ns}
use fzkernel.Time.Rtc.{
  Registers, in_bcd, Tells, rtc_read, date_of, rtc_read-in_bcd, to_binary, to_24h, from_bcd,
}
use fzkernel.Time.Calendar.{Dates, from_timestamp-Dates}

-- 2023-08-07T09:43:18Z
august :
    from_timestamp 1691401398
    ≡ done (record {
      seconds = 18;
      minutes = 43;
      hours = 9;
      weekday = monday;
      month_day = 7;
      month = 8;
      year = 2023;
    })
unfolding from_timestamp raw_seconds get_current_date_in_block month_loop
august = refl

-- The first of February 1970 is read as the day 32 of January.
january_32 :
    from_timestamp 2678400
    ≡ done (record {
      seconds = 0;
      minutes = 0;
      hours = 0;
      weekday = monday;
      month_day = 32;
      month = 1;
      year = 1970;
    })
unfolding from_timestamp raw_seconds get_current_date_in_block month_loop
january_32 = refl

raw_seconds-raw_ns_example : Holds 17179869190 (raw_seconds 17179869190) (raw_ns 17179869190)
raw_seconds-raw_ns_example = raw_seconds-raw_ns 17179869190 (omega arith)

from_timestamp-Dates_example : Dates (1691401398 % 2 ^ 34) (from_timestamp 1691401398)
from_timestamp-Dates_example = from_timestamp-Dates 1691401398

-- 2023-08-07, 09:43:18, in BCD
abbrev clock : Registers
clock = record {
  seconds = 18;
  minutes = 43;
  hours = 9;
  week_day = 2;
  month_day = 7;
  month = 8;
  year = 23;
}

rtc_read-in_bcd_example : Tells clock (rtc_read 2 (in_bcd clock))
rtc_read-in_bcd_example =
    rtc_read-in_bcd 2 clock refl (λ e. absurd (omega (arith, e)))
      (record {
        seconds = omega arith;
        minutes = omega arith;
        hours = omega arith;
        month_day = omega arith;
        month = omega arith;
        year = omega arith;
      })
      (omega arith) (omega arith)

-- In the 12 hours format, one o'clock in the afternoon in BCD is read as the hour 81.
afternoon : (rtc_read 0 (record (in_bcd clock) { hours = 129 })).hours ≡ 81
unfolding rtc_read to_binary to_24h date_of from_bcd
afternoon = refl
