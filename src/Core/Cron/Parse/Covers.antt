-- ===== src/Core/Cron/Parse/Covers.antt =====
-- What a parsed field holds.
use hobbyist.Base.{
  ℕ, zero, suc, ◌+◌, ◌-◌, ◌%◌, ◌≤◌, ◌<◌, ◌≡◌, ◌≢◌, refl, ap, ◌∙◌, Bool, ◌&&◌, ◌||◌, ◌==◌, leb, List,
  [], ◌∷◌, ◌++◌, arith, ==_iff,
}
use native.Mathlib.Nat.{add-mod_right, zero-mod, mod-eq_of_lt}
use hobbyist.Core.Cron.{has}
use hobbyist.Core.Cron.Parse.{Span, add, add_values}

-- A value of an entry: one of from, from + step, ... up to `to`.
abbrev pub covers : Span → ℕ → Bool
covers s v = leb s.from v && (leb v s.to && ((v - s.from) % s.step == 0))

has-append : (v : ℕ) (s t : List ℕ) → has v (s ++ t) ≡ has v s || has v t
has-append v [] t = refl
has-append v (x ∷ s) t = ground (arith, has-append v s t)

pub has-add : (v x : ℕ) (set : List ℕ) → has v (add x set) ≡ has v set || (x == v)
has-add v x set = ground (arith, has-append v set (x ∷ []), ==_iff x v, same)
  where
    same : x ≡ v → has x set ≡ has v set
    same e = ap (λ y. has y set) e

-- Behind the first value come those of the entry that begins a step later.
covers_step :
    (value to step v : ℕ)
    → 1 ≤ step
    → value ≤ to
    → covers (record { from = value; to = to; step = step }) v
      ≡ (value == v) || covers (record { from = value + step; to = to; step = step }) v
covers_step value to step v h k = ground (arith, h, k, first, between, beyond)
  where
    first : v ≡ value → (v - value) % step ≡ 0
    first e = ap (λ n. n % step) gone ∙ zero-mod step
      where
        gone : v - value ≡ 0
        gone = omega (arith, e)

    between : value < v → v < value + step → (v - value) % step ≢ 0
    between p q = omega (arith, p, mod-eq_of_lt below)
      where
        below : v - value < step
        below = omega (arith, p, q)

    beyond : value + step ≤ v → (v - value) % step ≡ (v - (value + step)) % step
    beyond p = rw (split) (add-mod_right (v - (value + step)) step)
      where
        split : v - value ≡ v - (value + step) + step
        split = omega (arith, p)

pub has-add_values :
    (fuel value to step : ℕ) (out : List ℕ) (v : ℕ)
    → 1 ≤ step
    → to + 1 ≤ value + fuel
    → has v (add_values fuel value to step out)
      ≡ has v out || covers (record { from = value; to = to; step = step }) v
unfolding add_values
has-add_values zero value to step out v h k = ground (arith, h, k)
has-add_values (suc fuel) value to step out v h k = ground (
  arith,
  h,
  k,
  covers_step value to step v h,
  has-add v value out,
  has-add_values fuel (value + step) to step (add value out) v h (omega (arith, h, k)),
)
