-- ===== src/Time/Calendar.antt =====
-- The date of a time stamp: the walk along the months, and the days and seconds that it stands for.
use fzkernel.Base.{
  ℕ, zero, suc, ◌+◌, ◌-◌, ◌*◌, ◌/◌, ◌%◌, ◌^◌, ◌≤◌, ◌<◌, ◌≡◌, refl, ap, ◌∙◌, arith, List, [], ◌∷◌,
  length, get_or, take, leb, lt→ltb, le→leb, leb→lt, leb→le, Bool-cases, inl, inr, false, max,
}
use fzkernel.Base.Outcome.{Outcome, done, try_into-done}
use fzkernel.Time.{
  DateTime, monday, days_per_month, month_loop, get_current_date_in_block, from_timestamp,
}
use fzkernel.Time.Timestamp.{raw_seconds-mod}

abbrev pub total : List ℕ → ℕ
total [] = 0
total (len ∷ months) = len + total months

-- The walk stops `month` months on with `rest` days, at most the length of that month.
pub record Stops (months : List ℕ) (days first : ℕ) (o : Outcome (ℕ × ℕ)) : Type 0 where
  pub month : ℕ
  pub rest : ℕ
  pub returns : o ≡ done (first + month, rest)
  pub in_range : month < length months
  pub sum : total (take month months) + rest ≡ days
  pub fits : rest ≤ get_or months month 0

month_loop-here :
    (len : ℕ) (months : List ℕ) (days first : ℕ)
    → 0 < days
    → days ≤ len
    → month_loop (len ∷ months) days first ≡ done (first, days)
unfolding month_loop
month_loop-here len months days first some_left small =
    rw (lt→ltb 0 days some_left, le→leb days len small)

month_loop-further :
    (len : ℕ) (months : List ℕ) (days first : ℕ)
    → 0 < days
    → leb days len ≡ false
    → month_loop (len ∷ months) days first ≡ month_loop months (days - len) (suc first)
month_loop-further len months days first some_left over =
    unfold month_loop in rw (lt→ltb 0 days some_left, over)

done_month :
    {a b : ℕ} (rest : ℕ) → a ≡ b → ◌≡◌ {A = Outcome (ℕ × ℕ)} (done (a, rest)) (done (b, rest))
done_month rest e = rw e

-- The walk stops at once in a month that has the days.
here-Stops :
    (len : ℕ) (months : List ℕ) (days first : ℕ)
    → suc days ≤ len
    → Stops (len ∷ months) (suc days) first (month_loop (len ∷ months) (suc days) first)
here-Stops len months days first small = record {
  month = 0;
  rest = suc days;
  returns =
      month_loop-here len months (suc days) first (omega arith) small
      ∙ done_month (suc days) (omega arith);
  in_range = omega arith;
  sum = omega arith;
  fits = small;
}

pub month_loop-Stops :
    (len : ℕ) (months : List ℕ) (days first : ℕ)
    → days ≤ total (len ∷ months)
    → Stops (len ∷ months) days first (month_loop (len ∷ months) days first)
month_loop-Stops len months zero first h = record {
  month = 0;
  rest = 0;
  returns = unfold month_loop in done_month 0 (omega arith);
  in_range = omega arith;
  sum = refl;
  fits = omega arith;
}
month_loop-Stops len [] (suc days) first h = here-Stops len [] days first (omega arith)
month_loop-Stops len (l ∷ ls) (suc days) first h = elim (Bool-cases (leb (suc days) len)) [
  | inl small ↦ here-Stops len (l ∷ ls) days first (leb→le (suc days) len small)
  | inr over ↦
      let past : len < suc days = leb→lt (suc days) len over in
      let r = month_loop-Stops l ls (suc days - len) (suc first) (omega (arith, past)) in
      record {
        month = suc r.month;
        rest = r.rest;
        returns =
            month_loop-further len (l ∷ ls) (suc days) first (omega arith) over
            ∙ r.returns
            ∙ done_month r.rest (omega arith);
        in_range = omega (arith, r.in_range);
        sum = omega (arith, r.sum, past);
        fits = r.fits;
      }
]

abbrev longest : List ℕ → ℕ
longest [] = 0
longest (len ∷ months) = max len (longest months)

get_or-longest : (months : List ℕ) (k : ℕ) → get_or months k 0 ≤ longest months
get_or-longest [] k = omega arith
get_or-longest (len ∷ months) zero = omega arith
get_or-longest (len ∷ months) (suc k) = omega (arith, get_or-longest months k)

-- The seconds from the epoch that a date stands for, by the calendar of four years.
abbrev pub month_index : DateTime → ℕ
month_index d = (d.year - 1970) % 4 * 12 + (d.month - 1)

abbrev pub seconds_since_epoch : DateTime → ℕ
seconds_since_epoch d =
    ((d.year - 1970) / 4 * 1461 + total (take (month_index d) days_per_month) + (d.month_day - 1))
      * 86400
    + d.hours * 3600
    + d.minutes * 60
    + d.seconds

pub record Dates (raw : ℕ) (o : Outcome DateTime) : Type 0 where
  pub date : DateTime
  pub returns : o ≡ done date
  pub exact : seconds_since_epoch date ≡ raw
  pub seconds_small : date.seconds < 60
  pub minutes_small : date.minutes < 60
  pub hours_small : date.hours < 24
  pub month_from : 1 ≤ date.month
  pub month_to : date.month ≤ 12
  pub day_from : 1 ≤ date.month_day
  -- one more than the month has
  pub day_to : date.month_day ≤ suc (get_or days_per_month (month_index date) 0)
  pub year_from : 1970 ≤ date.year
  pub year_to : date.year ≤ 2517

abbrev walk :
    (days : ℕ) → days ≤ 1460 → Stops days_per_month days 0 (month_loop days_per_month days 0)
walk days h = month_loop-Stops 31 _ days 0 (omega arith)

abbrev days_of : ℕ → ℕ
days_of raw = raw % 126230400 / 86400

module _ (raw : ℕ) (raw_small : raw < 2 ^ 34)
    (r : Stops days_per_month (days_of raw) 0 (month_loop days_per_month (days_of raw) 0)) where
  abbrev dated : DateTime
  dated = record {
    seconds = raw % 86400 % 3600 % 60;
    minutes = raw % 86400 % 3600 / 60;
    hours = raw % 86400 / 3600;
    weekday = monday;
    month_day = r.rest + 1;
    month = r.month % 12 + 1;
    year = 1970 + r.month / 12 + 4 * (raw / 126230400);
  }

  rest-le : r.rest ≤ 31
  rest-le = omega (arith, r.fits, get_or-longest days_per_month r.month)

  dated-month_index : month_index dated ≡ r.month
  dated-month_index = omega (arith, r.in_range)

  get_current_date_in_block-done :
      get_current_date_in_block (days_of raw) ≡ done (r.month / 12, r.month % 12 + 1, r.rest + 1)
  unfolding get_current_date_in_block
  get_current_date_in_block-done =
      let plain : 0 + r.month ≡ r.month = omega arith in
      rw (
        r.returns,
        plain,
        try_into-done 65536 (r.month / 12) (omega (arith, r.in_range)),
        try_into-done 65536 (r.month % 12 + 1) (omega arith),
      )

  dated-Dates : (t : ℕ) → t % 2 ^ 34 ≡ raw → Dates raw (from_timestamp t)
  dated-Dates t same = record {
    date = dated;
    returns =
        unfold from_timestamp in
        rw (
          raw_seconds-mod t,
          same,
          get_current_date_in_block-done,
          try_into-done 256 (raw % 86400 % 3600 % 60) (omega arith),
          try_into-done 256 (raw % 86400 % 3600 / 60) (omega arith),
          try_into-done 256 (raw % 86400 / 3600) (omega arith),
          try_into-done 256 (r.rest + 1) (omega (arith, rest-le)),
          try_into-done 256 (r.month % 12 + 1) (omega arith),
          try_into-done 65536 (1970 + r.month / 12 + 4 * (raw / 126230400))
              (omega (arith, r.in_range)),
        );
    exact =
        omega (
          arith,
          r.in_range,
          r.sum,
          ap (λ (k : ℕ). total (take k days_per_month)) dated-month_index,
        );
    seconds_small = omega arith;
    minutes_small = omega arith;
    hours_small = omega arith;
    month_from = omega arith;
    month_to = omega arith;
    day_from = omega arith;
    day_to = omega (arith, r.fits, ap (λ (k : ℕ). get_or days_per_month k 0) dated-month_index);
    year_from = omega arith;
    year_to = omega (arith, r.in_range);
  }

-- Of every time stamp a date is made without a panic. Read by the calendar of four years from
-- 1970, the date stands for just the seconds of the time stamp (its low 34 bits). Hours, minutes,
-- seconds and month are in their ranges, the year is at most 2517, and the day of the month is at
-- least 1 and at most one more than the days that the month has.
pub from_timestamp-Dates : (t : ℕ) → Dates (t % 2 ^ 34) (from_timestamp t)
from_timestamp-Dates t =
    dated-Dates (t % 2 ^ 34) (omega arith) (walk (days_of (t % 2 ^ 34)) (omega arith)) t refl
