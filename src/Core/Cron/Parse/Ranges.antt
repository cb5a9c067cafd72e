-- ===== src/Core/Cron/Parse/Ranges.antt =====
-- The values that a field can hold are in its range.
use hobbyist.Base.{
  ℕ, ◌+◌, ◌≤◌, ◌<◌, ◌≡◌, refl, ◌||◌, not, ◌==◌, ltb, any, Text, codes, text_eq, List, [], ◌∷◌,
  length, Option, none, some, is_some, arith, branch, Option-cases, inl, inr,
}
use hobbyist.Core.Cron.Parse.{
  FieldSpec, names_of, index_of, is_number, number, lower, parse_number, named_value, parse_value,
  parse_range, parse_bounds, parse_step, parse_span, parse_parts, parse_item, Span,
}
use hobbyist.Core.Cron.Parse.Gives.{Gives, Gives-bind, Gives-guard}

-- A field whose names fit its range.
pub record IsField (spec : FieldSpec) : Type 0 where
  pub order : spec.min ≤ spec.max
  pub from_one : spec.min ≤ 1
  pub named : length (names_of spec.names) + spec.min ≤ spec.max + 1

pub record IsSpan (spec : FieldSpec) (s : Span) : Type 0 where
  pub from_low : spec.min ≤ s.from
  pub to_high : s.to ≤ spec.max
  pub forwards : 1 ≤ s.step

index_of-below :
    (name : Text) (names : List Text) (i : ℕ) → index_of name names ≡ some i → i < length names
unfolding index_of
index_of-below name [] i e = ground (arith, e)
index_of-below name (n ∷ names) i e = elim (Option-cases (index_of name names)) [
  | inl gone ↦ ground (arith, e, gone)
  | inr (j, there) ↦ ground (arith, e, there, index_of-below name names j there)
]

module _ (spec : FieldSpec) (field : IsField spec) where
  abbrev InRange : ℕ → Type 0
  InRange value = (spec.min ≤ value) × (value ≤ spec.max)

  abbrev BothInRange : ℕ × ℕ → Type 0
  BothInRange bounds = InRange bounds.0 × InRange bounds.1

  parse_number-InRange : (raw : Text) → Gives InRange (parse_number spec raw)
  unfolding parse_number
  parse_number-InRange raw = Gives-guard InRange (not (is_number raw)) _ _ λ digits.
      Gives-guard InRange (ltb (number raw 0) spec.min || ltb spec.max (number raw 0)) _ _
        λ within. ground (arith, within)

  named_value-InRange :
      (raw : Text) (o : Option ℕ)
      → ((i : ℕ) → o ≡ some i → i < length (names_of spec.names))
      → Gives InRange (named_value spec raw o)
  unfolding named_value
  named_value-InRange raw none h = parse_number-InRange raw
  named_value-InRange raw (some i) h = ground (arith, h i refl, field.named, field.from_one)

  parse_value-InRange : (raw : Text) → Gives InRange (parse_value spec raw)
  unfolding parse_value
  parse_value-InRange raw =
      named_value-InRange raw (index_of (lower raw) (names_of spec.names))
        (index_of-below (lower raw) (names_of spec.names))

  parse_range-InRange : (parts : List Text) → Gives BothInRange (parse_range spec parts)
  unfolding parse_range
  parse_range-InRange [] = tt
  parse_range-InRange (a ∷ []) = tt
  parse_range-InRange (a ∷ b ∷ []) =
      Gives-bind BothInRange (parse_value spec a) _ (parse_value-InRange a) λ from p.
        Gives-bind BothInRange (parse_value spec b) _ (parse_value-InRange b)
          λ to q. Gives-guard BothInRange (ltb to from) _ _ λ e. (p, q)
  parse_range-InRange (a ∷ b ∷ c ∷ parts) = tt

  parse_bounds-InRange :
      (range_part : Text) (step_part : Option Text)
      → Gives BothInRange (parse_bounds spec range_part step_part)
  unfolding parse_bounds
  parse_bounds-InRange range_part step_part =
      branch (Gives BothInRange) (text_eq range_part (codes "*")) (λ e. omega (arith, field.order))
        λ e.
          branch (Gives BothInRange) (any (λ c. c == b'-') range_part) (λ e. parse_range-InRange _)
            λ e.
              Gives-bind BothInRange (parse_value spec range_part) _
                (parse_value-InRange range_part)
                λ from p.
                  (p, branch InRange (is_some step_part) (λ e. omega (arith, field.order)) (λ e. p))

  parse_step-positive : (o : Option Text) → Gives (λ step. 1 ≤ step) (parse_step o)
  unfolding parse_step
  parse_step-positive none = omega arith
  parse_step-positive (some t) =
      Gives-guard (λ step. 1 ≤ step) (not (is_number t) || (number t 0 == 0)) _ _
        λ e. ground (arith, e)

  parse_span-IsSpan :
      (range_part : Text) (step_part : Option Text)
      → Gives (IsSpan spec) (parse_span spec range_part step_part)
  unfolding parse_span
  parse_span-IsSpan range_part step_part =
      Gives-bind (IsSpan spec) (parse_step step_part) _ (parse_step-positive step_part) λ step p.
        Gives-bind (IsSpan spec) (parse_bounds spec range_part step_part) _
          (parse_bounds-InRange range_part step_part)
          λ bounds q. record { from_low = q.0.0; to_high = q.1.1; forwards = p }

  parse_parts-IsSpan : (parts : List Text) → Gives (IsSpan spec) (parse_parts spec parts)
  unfolding parse_parts
  parse_parts-IsSpan [] = tt
  parse_parts-IsSpan (a ∷ []) = parse_span-IsSpan a none
  parse_parts-IsSpan (a ∷ b ∷ []) = parse_span-IsSpan a (some b)
  parse_parts-IsSpan (a ∷ b ∷ c ∷ parts) = tt

  pub parse_item-IsSpan : (item : Text) → Gives (IsSpan spec) (parse_item spec item)
  unfolding parse_item
  parse_item-IsSpan item =
      branch (Gives (IsSpan spec)) (length item == 0) (λ e. tt) λ e. parse_parts-IsSpan _
