-- ===== src/Core/Cron/Parse.antt =====
-- packages/core/src/cron.ts, the parser: parseValue, parseField and parseCron. Texts are code units;
-- the names are ASCII, so that `toLowerCase` matters on ASCII letters only.
pub mod Gives
pub mod Covers
pub mod Ranges
pub mod Fields
pub mod Expressions
use hobbyist.Base.{
  ℕ, zero, suc, ◌+◌, ◌-◌, ◌*◌, Bool, true, false, ◌&&◌, ◌||◌, not, ◌==◌, ltb, leb, Text, codes,
  text_eq, List, [], ◌∷◌, ◌++◌, map, length, any, all, keep, Option, none, some, is_some,
  if◌then◌else◌,
}
use hobbyist.Core.Cron.{CronSchedule, has}
use hobbyist.Core.Cron.Words.{split, trim_start, trim_end, split_spaces}

-- The errors, by what they say.
pub data CronError : Type 0 where
  not_a_number out_of_range empty_entry more_than_one_slash bad_step not_a_range runs_backwards
        field_count :
      CronError

pub data Parsed {ℓ} (A : Type ℓ) : Type ℓ where
  ok : A → Parsed A
  invalid : CronError → Parsed A

infixl 5 ◌>>=◌ ◌>>◌
abbrev pub ◌>>=◌ {ℓ κ} : {A : Type ℓ} {B : Type κ} → Parsed A → (A → Parsed B) → Parsed B
ok value >>= next = next value
invalid error >>= next = invalid error

abbrev pub ◌>>◌ {ℓ} : {B : Type ℓ} → Parsed (Unit {0}) → Parsed B → Parsed B
first >> next = first >>= λ _. next

abbrev pub throw_if : Bool → CronError → Parsed (Unit {0})
throw_if true error = invalid error
throw_if false error = ok tt

abbrev pub month_names : List Text
month_names = map codes (
    "jan" ∷ "feb" ∷ "mar" ∷ "apr" ∷ "may" ∷ "jun" ∷ "jul" ∷ "aug" ∷ "sep" ∷ "oct" ∷ "nov" ∷ "dec"
    ∷ [])

abbrev pub day_names : List Text
day_names = map codes ("sun" ∷ "mon" ∷ "tue" ∷ "wed" ∷ "thu" ∷ "fri" ∷ "sat" ∷ [])

pub data Names : Type 0 where
  nameless months days : Names

abbrev pub names_of : Names → List Text
names_of nameless = []
names_of months = month_names
names_of days = day_names

pub record FieldSpec : Type 0 where
  pub min : ℕ
  pub max : ℕ
  pub names : Names

abbrev pub minute_field : FieldSpec
minute_field = record { min = 0; max = 59; names = nameless }

abbrev pub hour_field : FieldSpec
hour_field = record { min = 0; max = 23; names = nameless }

abbrev pub day_of_month_field : FieldSpec
day_of_month_field = record { min = 1; max = 31; names = nameless }

abbrev pub month_field : FieldSpec
month_field = record { min = 1; max = 12; names = months }

abbrev pub day_of_week_field : FieldSpec
day_of_week_field = record { min = 0; max = 7; names = days }

abbrev pub lower : Text → Text
lower = map λ c. if leb b'A' c && leb c b'Z' then c + 32 else c

-- `indexOf`.
unfoldable pub index_of : Text → List Text → Option ℕ
index_of name [] = none
index_of name (n ∷ names) =
    if text_eq n name
    then some 0
    else elim (index_of name names) [ none ↦ none | some i ↦ some (suc i) ]

-- The test `/^\d+$/`.
abbrev pub is_number : Text → Bool
is_number raw = not (length raw == 0) && all (λ c. leb b'0' c && leb c b'9') raw

-- `Number` of digits; where a double would be rounded, the value is out of every range here.
unfoldable pub number : Text → ℕ → ℕ
number [] value = value
number (c ∷ raw) value = number raw (value * 10 + (c - b'0'))

unfoldable pub parse_number : FieldSpec → Text → Parsed ℕ
parse_number spec raw = do
  throw_if (not (is_number raw)) not_a_number
  let value = number raw 0
  throw_if (ltb value spec.min || ltb spec.max value) out_of_range
  ok value

-- The value of a text by its place among the names.
unfoldable pub named_value : FieldSpec → Text → Option ℕ → Parsed ℕ
named_value spec raw (some index) = ok (if spec.min == 0 then index else index + 1)
named_value spec raw none = parse_number spec raw

unfoldable pub parse_value : FieldSpec → Text → Parsed ℕ
parse_value spec raw = named_value spec raw (index_of (lower raw) (names_of spec.names))

pub record Span : Type 0 where
  pub from : ℕ
  pub to : ℕ
  pub step : ℕ

unfoldable pub parse_step : Option Text → Parsed ℕ
parse_step none = ok 1
parse_step (some step_part) = do
  throw_if (not (is_number step_part) || (number step_part 0 == 0)) bad_step
  ok (number step_part 0)

unfoldable pub parse_range : FieldSpec → List Text → Parsed (ℕ × ℕ)
parse_range spec (a ∷ b ∷ []) = do
  let from = (← parse_value spec a)
  let to = (← parse_value spec b)
  throw_if (ltb to from) runs_backwards
  ok (from, to)
parse_range spec _ = invalid not_a_range

unfoldable pub parse_bounds : FieldSpec → Text → Option Text → Parsed (ℕ × ℕ)
parse_bounds spec range_part step_part =
    if text_eq range_part (codes "*")
    then ok (spec.min, spec.max)
    else if any (λ c. c == b'-') range_part
    then parse_range spec (split b'-' range_part)
    else do
      let from = (← parse_value spec range_part)
      ok (from, if is_some step_part then spec.max else from)

unfoldable pub parse_span : FieldSpec → Text → Option Text → Parsed Span
parse_span spec range_part step_part = do
  let step = (← parse_step step_part)
  let bounds = (← parse_bounds spec range_part step_part)
  ok (record { from = bounds.0; to = bounds.1; step = step })

unfoldable pub parse_parts : FieldSpec → List Text → Parsed Span
parse_parts spec (range_part ∷ []) = parse_span spec range_part none
parse_parts spec (range_part ∷ step_part ∷ []) = parse_span spec range_part (some step_part)
parse_parts spec _ = invalid more_than_one_slash

-- One entry of a field, up to its loop.
unfoldable pub parse_item : FieldSpec → Text → Parsed Span
parse_item spec item =
    if length item == 0 then invalid empty_entry else parse_parts spec (split b'/' item)

-- `Set.add`.
abbrev pub add : ℕ → List ℕ → List ℕ
add value set = if has value set then set else set ++ value ∷ []

-- The loop over the values of an entry.
unfoldable pub add_values : ℕ → ℕ → ℕ → ℕ → List ℕ → List ℕ
add_values zero value to step out = out
add_values (suc fuel) value to step out =
    if leb value to then add_values fuel (value + step) to step (add value out) else out

unfoldable pub parse_items : FieldSpec → List Text → List ℕ → Parsed (List ℕ)
parse_items spec [] out = ok out
parse_items spec (item ∷ items) out = do
  let s = (← parse_item spec item)
  parse_items spec items (add_values (s.to + 1 - s.from) s.from s.to s.step out)

abbrev pub sunday : Names → List ℕ → List ℕ
sunday days out = if has 7 out then add 0 (keep (λ x. not (x == 7)) out) else out
sunday nameless out = out
sunday months out = out

unfoldable pub parse_field : FieldSpec → Text → Parsed (List ℕ)
parse_field spec field = do
  let out = (← parse_items spec (split b',' field) [])
  ok (sunday spec.names out)

unfoldable pub parse_fields : Text → List Text → Parsed CronSchedule
parse_fields expression (minute ∷ hour ∷ day_of_month ∷ month ∷ day_of_week ∷ []) = do
  let minutes = (← parse_field minute_field minute)
  let hours = (← parse_field hour_field hour)
  let days_of_month = (← parse_field day_of_month_field day_of_month)
  let month_set = (← parse_field month_field month)
  let days_of_week = (← parse_field day_of_week_field day_of_week)
  ok (record {
    expression = expression;
    minutes = minutes;
    hours = hours;
    days_of_month = days_of_month;
    months = month_set;
    days_of_week = days_of_week;
    any_day_of_month = text_eq day_of_month (codes "*");
    any_day_of_week = text_eq day_of_week (codes "*");
  })
parse_fields expression _ = invalid field_count

unfoldable pub parse_cron : Text → Parsed CronSchedule
parse_cron expression = parse_fields expression (split_spaces (trim_end (trim_start expression)))
