-- ===== src/Core/Cron/Parse/Expressions.antt =====
-- The sets of a parsed expression are within the ranges of the clock and the calendar.
use hobbyist.Base.{ℕ, ◌≤◌, ◌<◌, ◌≡◌, refl, sym, ◌∙◌, Bool, true, Text, List, [], ◌∷◌, arith}
use hobbyist.Core.Cron.{CronSchedule, has}
use hobbyist.Core.Cron.Words.{split, trim_start, trim_end, split_spaces}
use hobbyist.Core.Cron.Parse.{
  ok, FieldSpec, minute_field, hour_field, day_of_month_field, month_field, day_of_week_field,
  parse_field, parse_fields, parse_cron,
}
use hobbyist.Core.Cron.Parse.Gives.{Gives, Gives-bind, Gives-mono, Gives-ok}
use hobbyist.Core.Cron.Parse.Ranges.{IsField}
use hobbyist.Core.Cron.Parse.Fields.{field_covers, means, field_covers-range, parse_field_lem}

minute_field-IsField : IsField minute_field
minute_field-IsField = record { order = omega arith; from_one = omega arith; named = omega arith }

hour_field-IsField : IsField hour_field
hour_field-IsField = record { order = omega arith; from_one = omega arith; named = omega arith }

day_of_month_field-IsField : IsField day_of_month_field
day_of_month_field-IsField = record {
  order = omega arith;
  from_one = omega arith;
  named = omega arith;
}

month_field-IsField : IsField month_field
month_field-IsField = record { order = omega arith; from_one = omega arith; named = omega arith }

pub day_of_week_field-IsField : IsField day_of_week_field
day_of_week_field-IsField = record {
  order = omega arith;
  from_one = omega arith;
  named = omega arith;
}

pub record IsWithin (s : CronSchedule) : Type 0 where
  pub minutes : (v : ℕ) → has v s.minutes ≡ true → v < 60
  pub hours : (v : ℕ) → has v s.hours ≡ true → v < 24
  pub days_of_month : (v : ℕ) → has v s.days_of_month ≡ true → (1 ≤ v) × (v ≤ 31)
  pub months : (v : ℕ) → has v s.months ≡ true → (1 ≤ v) × (v ≤ 12)
  pub days_of_week : (v : ℕ) → has v s.days_of_week ≡ true → v < 7

abbrev Within : ℕ → ℕ → List ℕ → Type 0
Within low high set = (v : ℕ) → has v set ≡ true → (low ≤ v) × (v ≤ high)

-- Every field but the days of the week holds what its entries cover.
field_range :
    (spec : FieldSpec)
    → IsField spec
    → ((covered : ℕ → Bool) (v : ℕ) → means spec.names covered v ≡ covered v)
    → (field : Text) → Gives (Within spec.min spec.max) (parse_field spec field)
field_range spec field_ok plain field =
    Gives-mono _ (parse_field spec field) (parse_field_lem spec field_ok field).1 λ set holds v h.
      let items = split b',' field in
      field_covers-range spec field_ok items v
        (sym (plain (field_covers spec items) v) ∙ (sym (holds v) ∙ h))

days_of_week_range : (field : Text) → Gives (Within 0 6) (parse_field day_of_week_field field)
days_of_week_range field =
    Gives-mono _ (parse_field day_of_week_field field)
      (parse_field_lem day_of_week_field day_of_week_field-IsField field).1
      λ set holds v h. ground (
        arith,
        h,
        holds v,
        field_covers-range day_of_week_field day_of_week_field-IsField (split b',' field) v,
      )

parse_fields-IsWithin :
    (expression : Text) (fields : List Text) → Gives IsWithin (parse_fields expression fields)
unfolding parse_fields
parse_fields-IsWithin expression [] = tt
parse_fields-IsWithin expression (a ∷ []) = tt
parse_fields-IsWithin expression (a ∷ b ∷ []) = tt
parse_fields-IsWithin expression (a ∷ b ∷ c ∷ []) = tt
parse_fields-IsWithin expression (a ∷ b ∷ c ∷ d ∷ []) = tt
parse_fields-IsWithin expression (a ∷ b ∷ c ∷ d ∷ e ∷ []) =
    Gives-bind IsWithin (parse_field minute_field a) _
      (field_range minute_field minute_field-IsField (λ c v. refl) a)
      λ minutes p.
        Gives-bind IsWithin (parse_field hour_field b) _
          (field_range hour_field hour_field-IsField (λ c v. refl) b)
          λ hours q.
            Gives-bind IsWithin (parse_field day_of_month_field c) _
              (field_range day_of_month_field day_of_month_field-IsField (λ c v. refl) c)
              λ days r.
                Gives-bind IsWithin (parse_field month_field d) _
                  (field_range month_field month_field-IsField (λ c v. refl) d)
                  λ months s.
                    Gives-bind IsWithin (parse_field day_of_week_field e) _ (days_of_week_range e)
                      λ weekdays t. record {
                        minutes = λ v h. omega (arith, p v h);
                        hours = λ v h. omega (arith, q v h);
                        days_of_month = r;
                        months = s;
                        days_of_week = λ v h. omega (arith, t v h);
                      }
parse_fields-IsWithin expression (a ∷ b ∷ c ∷ d ∷ e ∷ f ∷ fields) = tt

-- Of an expression that is parsed the minutes are below 60, the hours below 24, the days of the month
-- from 1 to 31, the months from 1 to 12, and the days of the week below 7.
pub parse_cron-IsWithin :
    (expression : Text) (schedule : CronSchedule)
    → parse_cron expression ≡ ok schedule
    → IsWithin schedule
unfolding parse_cron
parse_cron-IsWithin expression schedule e =
    Gives-ok IsWithin (parse_cron expression) e
      (parse_fields-IsWithin expression (split_spaces (trim_end (trim_start expression))))
