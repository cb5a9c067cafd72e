-- ===== src/Core/Cron/First.antt =====
-- nextCronTime finds the first minute that the schedule matches.
use hobbyist.Base.{
  ℕ, zero, suc, ◌+◌, ◌*◌, ◌/◌, ◌%◌, ◌≤◌, ◌<◌, ◌≡◌, refl, ap, Bool, true, false, ◌&&◌, not, ltb, leb,
  arith, Bool-cases, branch, inl, inr,
}
use hobbyist.Core.Calendar.{date_of, day_of, hours_of, minutes_of}
use hobbyist.Core.Calendar.Spans.{
  hour_end, day_end, month_end, hour_end_lem, day_end_lem, month_end_lem, hour_end-gt, day_end-gt,
  month_end-gt,
}
use hobbyist.Core.Cron.{
  CronSchedule, has, day_matches, NextTime, fires, never_fires, stuck, next_loop, next_cron_time,
  minute_ms, five_years_ms,
}

module _ (schedule : CronSchedule) where
  -- All four fields match the time.
  abbrev pub matches : ℕ → Bool
  matches t =
      has ((date_of t).month + 1) schedule.months
      && (day_matches schedule t
          && (has (hours_of t) schedule.hours && has (minutes_of t) schedule.minutes))

  -- Of the whole minutes from `t` on and before `u` none matches.
  abbrev pub IsQuiet : ℕ → ℕ → Type 0
  IsQuiet t u = (s : ℕ) → t ≤ s → s < u → s % 60000 ≡ 0 → matches s ≡ false

  -- The answer is the first whole minute from `t` to `limit` that matches, or there is none.
  abbrev pub IsFirst : ℕ → ℕ → NextTime → Type 0
  IsFirst t limit (fires v) =
      (t ≤ v) × ((v ≤ limit) × ((v % 60000 ≡ 0) × ((matches v ≡ true) × IsQuiet t v)))
  IsFirst t limit never_fires = IsQuiet t (limit + 1)
  IsFirst t limit stuck = ⊥

  IsFirst-skip :
      (t u limit : ℕ) (r : NextTime) → t ≤ u → IsQuiet t u → IsFirst u limit r → IsFirst t limit r
  IsFirst-skip t u limit (fires v) h q (from, (to, (whole, (hit, quiet)))) = (
    omega (arith, h, from),
    (
      to,
      (
        whole,
        (
          hit,
          λ s p k w. elim (Bool-cases (ltb s u)) [
            | inl b ↦ q s p (ground (arith, b)) w
            | inr b ↦ quiet s (ground (arith, b)) k w
          ],
        ),
      ),
    ),
  )
  IsFirst-skip t u limit never_fires h q quiet = λ s p k w. elim (Bool-cases (ltb s u)) [
    | inl b ↦ q s p (ground (arith, b)) w
    | inr b ↦ quiet s (ground (arith, b)) k w
  ]
  IsFirst-skip t u limit stuck h q r = absurd r

  day_matches_same :
      (s t : ℕ) → day_of s ≡ day_of t → day_matches schedule s ≡ day_matches schedule t
  unfolding day_matches
  day_matches_same s t e = rw e refl

  month_end-IsQuiet :
      (t : ℕ) → has ((date_of t).month + 1) schedule.months ≡ false → IsQuiet t (month_end t)
  month_end-IsQuiet t miss s p k w = rw (month_end_lem t s p k, miss) refl

  day_end-IsQuiet : (t : ℕ) → day_matches schedule t ≡ false → IsQuiet t (day_end t)
  day_end-IsQuiet t miss s p k w = ground (arith, day_matches_same s t (day_end_lem t s p k), miss)

  hour_end-IsQuiet : (t : ℕ) → has (hours_of t) schedule.hours ≡ false → IsQuiet t (hour_end t)
  hour_end-IsQuiet t miss s p k w =
      ground (arith, ap (λ h. has h schedule.hours) (hour_end_lem t s p k).1, miss)

  next_minute-IsQuiet :
      (t : ℕ)
      → t % 60000 ≡ 0
      → has (minutes_of t) schedule.minutes ≡ false
      → IsQuiet t (t + minute_ms)
  next_minute-IsQuiet t whole miss s p k w =
      let same : s ≡ t = omega (arith, whole, w, p, k) in
      ground (arith, ap (λ u. has (minutes_of u) schedule.minutes) same, miss)

  -- A round that goes on has passed over minutes that do not match.
  round-IsFirst :
      (fuel limit t : ℕ)
      → t % 60000 ≡ 0
      → (t ≤ limit
          → (u : ℕ) → (t < u) × (u % 60000 ≡ 0)
          → IsFirst u limit (next_loop fuel schedule limit u))
      → IsFirst t limit (next_loop (suc fuel) schedule limit t)
  unfolding next_loop
  round-IsFirst fuel limit t w next = branch (IsFirst t limit) (not (leb t limit)) past λ within.
      branch (IsFirst t limit) (not (has ((date_of t).month + 1) schedule.months))
        (λ miss.
          onwards within (month_end t) (month_end-gt t)
            (month_end-IsQuiet t (ground (arith, miss))))
        λ in_month.
          branch (IsFirst t limit) (not (day_matches schedule t))
            (λ miss.
              onwards within (day_end t) (day_end-gt t) (day_end-IsQuiet t (ground (arith, miss))))
            λ on_day.
              branch (IsFirst t limit) (not (has (hours_of t) schedule.hours))
                (λ miss.
                  onwards within (hour_end t) (hour_end-gt t)
                    (hour_end-IsQuiet t (ground (arith, miss))))
                λ in_hour.
                  branch (IsFirst t limit) (not (has (minutes_of t) schedule.minutes))
                    (λ miss.
                      onwards within (t + minute_ms) (omega (arith, w))
                        (next_minute-IsQuiet t w (ground (arith, miss))))
                    λ at_minute. hit within (ground (arith, in_month, on_day, in_hour, at_minute))
    where
      past : not (leb t limit) ≡ true → IsFirst t limit never_fires
      past over s p k v = absurd (ground (arith, over, p, k))

      hit : not (leb t limit) ≡ false → matches t ≡ true → IsFirst t limit (fires t)
      hit within m =
          (omega arith, (ground (arith, within), (w, (m, λ s p k v. absurd (omega (arith, p, k))))))

      onwards :
          not (leb t limit) ≡ false
          → (u : ℕ) → (t < u) × (u % 60000 ≡ 0)
          → IsQuiet t u
          → IsFirst t limit (next_loop fuel schedule limit u)
      onwards within u later quiet =
          IsFirst-skip t u limit (next_loop fuel schedule limit u) (omega (arith, later)) quiet
            (next (ground (arith, within)) u later)

  next_loop-IsFirst :
      (fuel limit t : ℕ)
      → 0 < fuel
      → limit + 1 < t + fuel
      → t % 60000 ≡ 0
      → IsFirst t limit (next_loop fuel schedule limit t)
  next_loop-IsFirst zero limit t f h w = absurd (omega arith)
  next_loop-IsFirst (suc fuel) limit t f h w = round-IsFirst fuel limit t w λ inside u later.
      next_loop-IsFirst fuel limit u (omega (arith, inside, h)) (omega (arith, later, h)) (later.1)

  -- The time that nextCronTime gives is after `after`, a whole minute, at most five years (of 366
  -- days) later, and matched by the schedule, and no whole minute in between is matched; where it
  -- throws, no whole minute in the five years is matched. It always comes to one or the other.
  pub next_cron_time-IsFirst :
      (after : ℕ) → IsFirst (after + 1) (after + five_years_ms) (next_cron_time schedule after)
  unfolding next_cron_time
  next_cron_time-IsFirst after =
      IsFirst-skip (after + 1) next_minute limit
        (next_loop (five_years_ms + 1) schedule limit next_minute) (omega arith)
        (λ s p k w. absurd (omega (arith, p, k, w)))
        (next_loop-IsFirst (five_years_ms + 1) limit next_minute (omega arith) (omega arith)
          (omega arith))
    where
      next_minute : ℕ
      next_minute = (after / minute_ms + 1) * minute_ms

      limit : ℕ
      limit = after + five_years_ms
