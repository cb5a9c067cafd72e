-- ===== src/Core/Cron/Parse/Fields.antt =====
-- A parsed field holds the values that its entries cover.
use hobbyist.Base.{
  ℕ, ◌+◌, ◌-◌, ◌≤◌, ◌≡◌, refl, ap, fun_ext, ◌∙◌, Bool, true, false, ◌||◌, ◌&&◌, not, ◌==◌, any, all,
  keep, Text, List, [], ◌∷◌, if◌then◌else◌, arith, Bool-cases, inl, inr, ==_iff,
}
use hobbyist.Core.Cron.{has}
use hobbyist.Core.Cron.Words.{split}
use hobbyist.Core.Cron.Parse.{
  Parsed, ok, invalid, ◌>>=◌, FieldSpec, Names, nameless, months, days, Span, add_values,
  parse_item, parse_items, parse_field, sunday,
}
use hobbyist.Core.Cron.Parse.Gives.{Gives, Gives-bind, Gives-mono}
use hobbyist.Core.Cron.Parse.Covers.{covers, has-add, has-add_values}
use hobbyist.Core.Cron.Parse.Ranges.{IsField, IsSpan, parse_item-IsSpan}

abbrev pub is_ok {ℓ} : {A : Type ℓ} → Parsed A → Bool
is_ok (ok a) = true
is_ok (invalid e) = false

abbrev item_covers : Parsed Span → ℕ → Bool
item_covers (ok s) v = covers s v
item_covers (invalid e) v = false

-- One of the entries, between commas, covers the value.
abbrev pub field_covers : FieldSpec → List Text → ℕ → Bool
field_covers spec items v = any (λ item. item_covers (parse_item spec item) v) items

-- A day of the week reads 7 as 0, Sunday.
abbrev pub means : Names → (ℕ → Bool) → ℕ → Bool
means days covered v = if v == 0 then covered 0 || covered 7 else not (v == 7) && covered v
means nameless covered v = covered v
means months covered v = covered v

-- What the text of a field says of a value.
abbrev pub field_means : FieldSpec → Text → ℕ → Bool
field_means spec field v = means spec.names (field_covers spec (split b',' field)) v

is_ok-bind {ℓ κ} :
    {A : Type ℓ} {B : Type κ} (m : Parsed A) (next : A → Parsed B) (b : Bool)
    → ((a : A) → is_ok (next a) ≡ b)
    → is_ok (m >>= next) ≡ is_ok m && b
is_ok-bind (ok a) next b h = h a
is_ok-bind (invalid e) next b h = refl

-- A parser's value with the equation that says so.
Gives-itself {ℓ κ} :
    {A : Type ℓ} (P : A → Type κ) (m : Parsed A) → Gives P m → Gives (λ a. P a × (m ≡ ok a)) m
Gives-itself P (ok a) p = (p, refl)
Gives-itself P (invalid e) p = tt

has-keep : (v : ℕ) (p : ℕ → Bool) (set : List ℕ) → has v (keep p set) ≡ has v set && p v
has-keep v p [] = refl
has-keep v p (x ∷ set) = ground (arith, has-keep v p set, ==_iff x v, same)
  where
    same : x ≡ v → p x ≡ p v
    same e = ap p e

module _ (spec : FieldSpec) (field_ok : IsField spec) where
  parse_items-has :
      (items : List Text) (out : List ℕ)
      → Gives
          (λ set. (v : ℕ) → has v set ≡ has v out || field_covers spec items v)
          (parse_items spec items out)
  unfolding parse_items
  parse_items-has [] out = λ v. ground arith
  parse_items-has (item ∷ items) out =
      Gives-bind _ (parse_item spec item) _
        (Gives-itself (IsSpan spec) (parse_item spec item) (parse_item-IsSpan spec field_ok item))
        λ s (span, e).
          let out' : List ℕ = add_values (s.to + 1 - s.from) s.from s.to s.step out in
          Gives-mono _ (parse_items spec items out') (parse_items-has items out') λ set later v.
            ground (
              arith,
              later v,
              has-add_values (s.to + 1 - s.from) s.from s.to s.step out v span.forwards
                  (omega arith),
              ap (λ m. item_covers m v) e,
            )

  parse_items-is_ok :
      (items : List Text) (out : List ℕ)
      → is_ok (parse_items spec items out) ≡ all (λ item. is_ok (parse_item spec item)) items
  unfolding parse_items
  parse_items-is_ok [] out = refl
  parse_items-is_ok (item ∷ items) out =
      is_ok-bind (parse_item spec item) _ _ λ s. parse_items-is_ok items _

  item_covers-range :
      (m : Parsed Span) (v : ℕ)
      → Gives (IsSpan spec) m
      → item_covers m v ≡ true
      → (spec.min ≤ v) × (v ≤ spec.max)
  item_covers-range (ok s) v span h = ground (arith, h, span.from_low, span.to_high)
  item_covers-range (invalid e) v span h = absurd (ground (arith, h))

  pub field_covers-range :
      (items : List Text) (v : ℕ)
      → field_covers spec items v ≡ true
      → (spec.min ≤ v) × (v ≤ spec.max)
  field_covers-range [] v h = absurd (ground (arith, h))
  field_covers-range (item ∷ items) v h = elim (Bool-cases (item_covers (parse_item spec item) v)) [
    | inl here ↦
        item_covers-range (parse_item spec item) v (parse_item-IsSpan spec field_ok item) here
    | inr later ↦ field_covers-range items v (ground (arith, h, later))
  ]

  has-sunday :
      (names : Names) (out : List ℕ) (v : ℕ)
      → has v (sunday names out) ≡ means names (λ w. has w out) v
  has-sunday nameless out v = refl
  has-sunday months out v = refl
  has-sunday days out v = ground (
    arith,
    has-add v 0 (keep (λ x. not (x == 7)) out),
    has-keep v (λ x. not (x == 7)) out,
    same 0,
    same 7,
  )
    where
      same : (w : ℕ) → v ≡ w → has v out ≡ has w out
      same w e = ap (λ u. has u out) e

  -- A field is parsed exactly when each of its entries, between commas, is; it then holds exactly the
  -- values that an entry covers, with Sunday, for a day of the week, as 0 for the covered 0 and 7. The
  -- names of the field are taken to fit its range.
  pub parse_field_lem :
      (field : Text)
      → (is_ok (parse_field spec field)
          ≡ all (λ item. is_ok (parse_item spec item)) (split b',' field))
        × Gives (λ set. (v : ℕ) → has v set ≡ field_means spec field v) (parse_field spec field)
  unfolding parse_field
  parse_field_lem field = (parses, holding)
    where
      items : List Text
      items = split b',' field

      parses : is_ok (parse_field spec field) ≡ all (λ item. is_ok (parse_item spec item)) items
      parses = ground (
        arith,
        is_ok-bind (parse_items spec items []) (λ out. ok (sunday spec.names out)) true
            (λ out. refl),
        parse_items-is_ok items [],
      )

      holding :
          Gives (λ set. (v : ℕ) → has v set ≡ field_means spec field v) (parse_field spec field)
      holding = Gives-bind _ (parse_items spec items []) _ (parse_items-has items []) λ out holds v.
          has-sunday spec.names out v ∙ ap (λ covered. means spec.names covered v) (fun_ext holds)
