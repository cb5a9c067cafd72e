-- ===== src/Core/Calendar/Spans.antt =====
-- The spans of time that `Date.UTC` bounds: the rest of an hour, of a day and of a month.
use hobbyist.Base.{
  ℕ, zero, suc, ◌+◌, ◌-◌, ◌*◌, ◌%◌, ◌≤◌, ◌<◌, ◌≡◌, refl, sym, subst, ap, ◌∙◌, arith, inl, inr, ◌⊎◌,
}
use hobbyist.Core.Calendar.{
  Civil, days_in_month, next_day, civil, month_start, days_before_month, date_utc, day_of, date_of,
  hours_of, day_ms, hour_ms,
}
use hobbyist.Core.Calendar.Days.{
  IsCivil, next_day_within, civil-IsCivil, number, number-civil, month_start-last, month_start-next,
}

-- A later day of the same month as day `n`.
pub record IsSameMonth (n m : ℕ) : Type 0 where
  pub years : (civil m).year ≡ (civil n).year
  pub months : (civil m).month ≡ (civil n).month
  pub days : (civil m).day + n ≡ (civil n).day + m

day_after-IsSameMonth :
    (n m : ℕ)
    → (civil n).day + m < days_in_month (civil n).year (civil n).month + n
    → IsSameMonth n m
    → IsSameMonth n (suc m)
unfolding civil
day_after-IsSameMonth n m h same = record {
  years = ap (λ c. c.year) stays ∙ same.years;
  months = ap (λ c. c.month) stays ∙ same.months;
  days = omega (arith, ap (λ c. c.day) stays, same.days);
}
  where
    long :
        days_in_month (civil m).year (civil m).month ≡ days_in_month (civil n).year (civil n).month
    long = rw (same.years, same.months) refl

    stays : next_day (civil m) ≡ record (civil m) { day = (civil m).day + 1 }
    stays = next_day_within (civil m) (omega (arith, h, long, same.days))

civil-IsSameMonth :
    (n k : ℕ)
    → (civil n).day + k ≤ days_in_month (civil n).year (civil n).month
    → IsSameMonth n (n + k)
civil-IsSameMonth n zero h =
    let none : n ≡ n + 0 = omega arith in
    subst (IsSameMonth n) none (record { years = refl; months = refl; days = refl })
civil-IsSameMonth n (suc k) h =
    let more : suc (n + k) ≡ n + suc k = omega arith in
    subst (IsSameMonth n) more (
      day_after-IsSameMonth n (n + k) (omega (arith, h)) (civil-IsSameMonth n k (omega (arith, h))))

month_start-twelve : (y : ℕ) → month_start y 12 ≡ month_start (y + 1) 0
unfolding month_start days_before_month
month_start-twelve y = omega arith

month_start-end :
    (c : Civil)
    → IsCivil c
    → month_start c.year (c.month + 1) + c.day ≡ number c + days_in_month c.year c.month + 1
month_start-end c ok = elim (inside_or_last) [
  | inl h ↦ omega (arith, ok.day_from, month_start-next c.year c.month h)
  | inr last ↦ omega (arith, ok.day_from, december last)
]
  where
    inside_or_last : (c.month < 11) ⊎ (c.month ≡ 11)
    inside_or_last = ground (arith, ok.month_below)

    december :
        c.month ≡ 11
        → month_start c.year (c.month + 1)
          ≡ month_start c.year c.month + days_in_month c.year c.month
    december last =
        subst (λ m. month_start c.year (m + 1) ≡ month_start c.year m + days_in_month c.year m)
          (sym last) (month_start-twelve c.year ∙ sym (month_start-last c.year ok.since))

-- The three ends.
abbrev pub hour_end : ℕ → ℕ
hour_end t = date_utc (date_of t).year (date_of t).month (date_of t).day (hours_of t + 1)

abbrev pub day_end : ℕ → ℕ
day_end t = date_utc (date_of t).year (date_of t).month ((date_of t).day + 1) 0

abbrev pub month_end : ℕ → ℕ
month_end t = date_utc (date_of t).year ((date_of t).month + 1) 1 0

date_utc_of :
    (t d h : ℕ)
    → 1 ≤ d
    → date_utc (date_of t).year (date_of t).month d h + (date_of t).day * day_ms
      ≡ (day_of t + d) * day_ms + h * hour_ms
unfolding date_utc
date_utc_of t d h p = omega (arith, p, number-civil (day_of t), (civil-IsCivil (day_of t)).day_from)

-- What a time within a span has in common with its beginning.
pub hour_end_lem :
    (t u : ℕ) → t ≤ u → u < hour_end t → (day_of u ≡ day_of t) × (hours_of u ≡ hours_of t)
hour_end_lem t u h k = omega (
  arith,
  h,
  k,
  date_utc_of t (date_of t).day (hours_of t + 1) (civil-IsCivil (day_of t)).day_from,
)

pub hour_end-gt : (t : ℕ) → (t < hour_end t) × (hour_end t % 60000 ≡ 0)
hour_end-gt t =
    omega
      (arith, date_utc_of t (date_of t).day (hours_of t + 1) (civil-IsCivil (day_of t)).day_from)

pub day_end_lem : (t u : ℕ) → t ≤ u → u < day_end t → day_of u ≡ day_of t
day_end_lem t u h k = omega (arith, h, k, date_utc_of t ((date_of t).day + 1) 0 (omega arith))

pub day_end-gt : (t : ℕ) → (t < day_end t) × (day_end t % 60000 ≡ 0)
day_end-gt t = omega (arith, date_utc_of t ((date_of t).day + 1) 0 (omega arith))

month_end-start :
    (t : ℕ)
    → month_end t + (date_of t).day * day_ms
      ≡ (day_of t + days_in_month (date_of t).year (date_of t).month + 1) * day_ms
unfolding date_utc
month_end-start t =
    omega (arith, number-civil (day_of t), month_start-end (date_of t) (civil-IsCivil (day_of t)))

pub month_end_lem : (t u : ℕ) → t ≤ u → u < month_end t → (date_of u).month ≡ (date_of t).month
month_end_lem t u h k =
    rw later at (civil-IsSameMonth (day_of t) (day_of u - day_of t) inside).months
  where
    later : day_of t + (day_of u - day_of t) ≡ day_of u
    later = omega (arith, h)

    inside :
        (date_of t).day + (day_of u - day_of t) ≤ days_in_month (date_of t).year (date_of t).month
    inside = omega (arith, h, k, month_end-start t, (civil-IsCivil (day_of t)).day_to)

pub month_end-gt : (t : ℕ) → (t < month_end t) × (month_end t % 60000 ≡ 0)
month_end-gt t = omega (arith, month_end-start t, (civil-IsCivil (day_of t)).day_to)
