-- ===== src/Core/Calendar/Days.antt =====
-- Day numbers and dates are each other's inverse.
use hobbyist.Base.{
  ℕ, zero, suc, ◌+◌, ◌-◌, ◌≤◌, ◌<◌, ◌≡◌, refl, sym, subst, ap, ◌∙◌, ltb, arith, Bool-cases, inl,
  inr,
}
use hobbyist.Core.Calendar.{
  Civil, days_in_month, next_day, civil, days_before_month, days_before_year, month_start,
}

-- A date from 1970 on that the calendar has.
pub record IsCivil (c : Civil) : Type 0 where
  pub since : 1970 ≤ c.year
  pub month_below : c.month < 12
  pub day_from : 1 ≤ c.day
  pub day_to : c.day ≤ days_in_month c.year c.month

days_in_month_range : (y m : ℕ) → (28 ≤ days_in_month y m) × (days_in_month y m ≤ 31)
unfolding days_in_month
days_in_month_range y m = ground arith

-- The three ways in which a day has a next one.
pub next_day_within :
    (c : Civil) → c.day < days_in_month c.year c.month → next_day c ≡ record c { day = c.day + 1 }
unfolding next_day
next_day_within c h = ground (arith, h)

next_day_month :
    (c : Civil)
    → days_in_month c.year c.month ≤ c.day
    → c.month < 11
    → next_day c ≡ record { year = c.year; month = c.month + 1; day = 1 }
unfolding next_day
next_day_month c h k = ground (arith, h, k)

next_day_year :
    (c : Civil)
    → days_in_month c.year c.month ≤ c.day
    → 11 ≤ c.month
    → next_day c ≡ record { year = c.year + 1; month = 0; day = 1 }
unfolding next_day
next_day_year c h k = ground (arith, h, k)

next_day_cases :
    (P : Civil → Type 0) (c : Civil)
    → (c.day < days_in_month c.year c.month → P (record c { day = c.day + 1 }))
    → (days_in_month c.year c.month ≤ c.day
        → c.month < 11
        → P (record { year = c.year; month = c.month + 1; day = 1 }))
    → (days_in_month c.year c.month ≤ c.day
        → 11 ≤ c.month
        → P (record { year = c.year + 1; month = 0; day = 1 }))
    → P (next_day c)
next_day_cases P c within month year =
    elim (Bool-cases (ltb c.day (days_in_month c.year c.month))) [
      | inl h ↦
          let lt : c.day < days_in_month c.year c.month = ground (arith, h) in
          subst P (sym (next_day_within c lt)) (within lt)
      | inr h ↦
          let ge : days_in_month c.year c.month ≤ c.day = ground (arith, h) in
          elim (Bool-cases (ltb c.month 11)) [
            | inl k ↦
                let lt : c.month < 11 = ground (arith, k) in
                subst P (sym (next_day_month c ge lt)) (month ge lt)
            | inr k ↦
                let last : 11 ≤ c.month = ground (arith, k) in
                subst P (sym (next_day_year c ge last)) (year ge last)
          ]
    ]

pub next_day-IsCivil : (c : Civil) → IsCivil c → IsCivil (next_day c)
next_day-IsCivil c ok =
    next_day_cases IsCivil c
      (λ h. record {
        since = ok.since;
        month_below = ok.month_below;
        day_from = omega arith;
        day_to = omega (arith, h);
      })
      (λ h k. record {
        since = ok.since;
        month_below = omega (arith, k);
        day_from = omega arith;
        day_to = omega (arith, (days_in_month_range c.year (c.month + 1)).0);
      })
      (λ h k. record {
        since = omega (arith, ok.since);
        month_below = omega arith;
        day_from = omega arith;
        day_to = omega (arith, (days_in_month_range (c.year + 1) 0).0);
      })

pub civil-IsCivil : (n : ℕ) → IsCivil (civil n)
unfolding civil
civil-IsCivil zero = record {
  since = omega arith;
  month_below = omega arith;
  day_from = omega arith;
  day_to = omega (arith, days_in_month_range 1970 0);
}
civil-IsCivil (suc n) = next_day-IsCivil (civil n) (civil-IsCivil n)

-- The number of the day that a date is.
abbrev pub number : Civil → ℕ
number c = month_start c.year c.month + c.day - 1

next_year :
    (y : ℕ)
    → 1970 ≤ y
    → days_before_year (y + 1 - 1970) ≡ days_before_year (y - 1970) + days_before_month y 12
unfolding days_before_year
next_year y h =
    ap days_before_year shifted
    ∙ ap (λ k. days_before_year (y - 1970) + days_before_month k 12) same
  where
    shifted : y + 1 - 1970 ≡ suc (y - 1970)
    shifted = omega (arith, h)

    same : 1970 + (y - 1970) ≡ y
    same = omega (arith, h)

-- The last month of a year ends where the next year begins.
pub month_start-last :
    (y : ℕ) → 1970 ≤ y → month_start y 11 + days_in_month y 11 ≡ month_start (y + 1) 0
unfolding month_start days_before_month
month_start-last y h = omega (arith, next_year y h)

pub month_start-next :
    (y m : ℕ) → m < 11 → month_start y (m + 1) ≡ month_start y m + days_in_month y m
unfolding month_start days_before_month
month_start-next y m h = ground (arith, h)

number-next_day : (c : Civil) → IsCivil c → number (next_day c) ≡ suc (number c)
number-next_day c ok =
    next_day_cases (λ d. number d ≡ suc (number c)) c (λ h. omega (arith, ok.day_from))
      (λ h k. omega (arith, ok.day_from, ok.day_to, h, month_start-next c.year c.month k))
      (λ h k. omega (arith, ok.day_from, ok.day_to, h, last k))
  where
    last :
        11 ≤ c.month
        → month_start c.year c.month + days_in_month c.year c.month ≡ month_start (c.year + 1) 0
    last k =
        subst (λ m. month_start c.year m + days_in_month c.year m ≡ month_start (c.year + 1) 0)
          (eleven k) (month_start-last c.year ok.since)
      where
        eleven : 11 ≤ c.month → 11 ≡ c.month
        eleven h = omega (arith, h, ok.month_below)

pub number-civil : (n : ℕ) → number (civil n) ≡ n
unfolding civil month_start days_before_year days_before_month
number-civil zero = refl
number-civil (suc n) = number-next_day (civil n) (civil-IsCivil n) ∙ ap suc (number-civil n)
