-- ===== src/Core/Cron.antt =====
-- packages/core/src/cron.ts, the search: dayMatches and nextCronTime. A Set is the list of its
-- elements; a time is a natural number of milliseconds since 1970.
pub mod Words
pub mod First
pub mod Parse
use hobbyist.Base.{
  ℕ, zero, suc, ◌+◌, ◌*◌, ◌/◌, Bool, true, false, ◌&&◌, ◌||◌, not, ◌==◌, ltb, leb, Text, List, any,
  if◌then◌else◌,
}
use hobbyist.Core.Calendar.{Civil, date_utc, date_of, weekday_of, hours_of, minutes_of}

pub record CronSchedule : Type 0 where
  pub expression : Text
  pub minutes : List ℕ
  pub hours : List ℕ
  pub days_of_month : List ℕ
  pub months : List ℕ
  pub days_of_week : List ℕ
  pub any_day_of_month : Bool
  pub any_day_of_week : Bool

-- `Set.has`.
abbrev pub has : ℕ → List ℕ → Bool
has value set = any (λ x. x == value) set

unfoldable pub day_matches : CronSchedule → ℕ → Bool
day_matches schedule t =
    let dom_match = has (date_of t).day schedule.days_of_month in
    let dow_match = has (weekday_of t) schedule.days_of_week in
    if schedule.any_day_of_month && schedule.any_day_of_week
    then true
    else if schedule.any_day_of_month
    then dow_match
    else if schedule.any_day_of_week
    then dom_match
    else dom_match || dow_match

abbrev pub minute_ms : ℕ
minute_ms = 60000

abbrev pub five_years_ms : ℕ
five_years_ms = 5 * 366 * 24 * 60 * minute_ms

-- A time, the error that the schedule never fires, or the end of the model's fuel.
pub data NextTime : Type 0 where
  fires : ℕ → NextTime
  never_fires stuck : NextTime

unfoldable pub next_loop : ℕ → CronSchedule → ℕ → ℕ → NextTime
next_loop zero schedule limit t = stuck
next_loop (suc fuel) schedule limit t =
    let date = date_of t in
    let after_month = next_loop fuel schedule limit (date_utc date.year (date.month + 1) 1 0) in
    let after_day =
      next_loop fuel schedule limit (date_utc date.year date.month (date.day + 1) 0) in
    let after_hour =
      next_loop fuel schedule limit (date_utc date.year date.month date.day (hours_of t + 1)) in
    let after_minute = next_loop fuel schedule limit (t + minute_ms) in
    if not (leb t limit)
    then never_fires
    else if not (has (date.month + 1) schedule.months)
    then after_month
    else if not (day_matches schedule t)
    then after_day
    else if not (has (hours_of t) schedule.hours)
    then after_hour
    else if not (has (minutes_of t) schedule.minutes)
    then after_minute
    else fires t

-- Each round moves the time on, so it is past the limit after as many rounds.
unfoldable pub next_cron_time : CronSchedule → ℕ → NextTime
next_cron_time schedule after =
    next_loop (five_years_ms + 1) schedule (after + five_years_ms)
      ((after / minute_ms + 1) * minute_ms)
