-- ===== src/Core/Calendar.antt =====
-- The UTC calendar of JavaScript's Date, as packages/core/src/cron.ts uses it, for times from 1970
-- on: `new Date(t)` with its getters is a day number and what `civil` makes of it, `Date.UTC` is
-- date_utc. Months count from 0, as they do there.
pub mod Days
pub mod Spans
use hobbyist.Base.{
  ℕ, zero, suc, ◌+◌, ◌-◌, ◌*◌, ◌/◌, ◌%◌, Bool, ◌&&◌, ◌||◌, not, ◌==◌, ltb, if◌then◌else◌,
}

pub record Civil : Type 0 where
  pub year : ℕ
  pub month : ℕ
  pub day : ℕ

abbrev pub is_leap : ℕ → Bool
is_leap y = (y % 4 == 0) && (not (y % 100 == 0) || (y % 400 == 0))

unfoldable pub days_in_month : ℕ → ℕ → ℕ
days_in_month y m =
    if m == 1
    then (if is_leap y then 29 else 28)
    else if (m == 3) || (m == 5) || (m == 8) || (m == 10)
    then 30
    else 31

unfoldable pub next_day : Civil → Civil
next_day c =
    if ltb c.day (days_in_month c.year c.month)
    then record c { day = c.day + 1 }
    else if ltb c.month 11
    then record { year = c.year; month = c.month + 1; day = 1 }
    else record { year = c.year + 1; month = 0; day = 1 }

-- The date of a day, counted from 1970-01-01.
unfoldable pub civil : ℕ → Civil
civil zero = record { year = 1970; month = 0; day = 1 }
civil (suc n) = next_day (civil n)

-- The days of the first `m` months of a year, and of the first `k` years from 1970 on.
unfoldable pub days_before_month : ℕ → ℕ → ℕ
days_before_month y zero = 0
days_before_month y (suc m) = days_before_month y m + days_in_month y m

unfoldable pub days_before_year : ℕ → ℕ
days_before_year zero = 0
days_before_year (suc k) = days_before_year k + days_before_month (1970 + k) 12

-- The day on which a month begins; month 12 is the first of the next year.
unfoldable pub month_start : ℕ → ℕ → ℕ
month_start y m =
    if m == 12
    then days_before_year (y + 1 - 1970)
    else days_before_year (y - 1970) + days_before_month y m

abbrev pub day_ms : ℕ
day_ms = 86400000

abbrev pub hour_ms : ℕ
hour_ms = 3600000

-- `Date.UTC(year, month, day, hours)`; the day and the hour may be past the end.
unfoldable pub date_utc : ℕ → ℕ → ℕ → ℕ → ℕ
date_utc y m d h = (month_start y m + d - 1) * day_ms + h * hour_ms

abbrev pub day_of : ℕ → ℕ
day_of t = t / day_ms

abbrev pub date_of : ℕ → Civil
date_of t = civil (day_of t)

-- `getUTCDay()`: the first day was a Thursday.
abbrev pub weekday_of : ℕ → ℕ
weekday_of t = (day_of t + 4) % 7

abbrev pub hours_of : ℕ → ℕ
hours_of t = t / hour_ms % 24

abbrev pub minutes_of : ℕ → ℕ
minutes_of t = t / 60000 % 60
