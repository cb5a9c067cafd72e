-- ===== src/Core/Ports/Fresh.antt =====
-- A port that is given out is free, and one is found or shown not to exist.
use hobbyist.Base.{
  ℕ, zero, suc, ◌+◌, ◌-◌, ◌≤◌, ◌<◌, ◌≡◌, true, false, ◌||◌, ◌==◌, List, [], ◌∷◌, ◌++◌, Option, none,
  some, if◌then◌else◌, arith, Bool-cases, inl, inr, ◌⊎◌,
}
use hobbyist.Core.Types.{Resource}
use hobbyist.Core.Ports.{stored_ports, is_taken, first_free, allocate_port}

-- What a search of `left` ports from `port` on finds: the first free one, or that there is none.
pub data Found (taken : List ℕ) (port left : ℕ) : Option ℕ → Type 0 where
  found :
      (p : ℕ)
      → port ≤ p
      → p < port + left
      → is_taken taken p ≡ false
      → ((q : ℕ) → port ≤ q → q < p → is_taken taken q ≡ true)
      → Found taken port left (some p)
  exhausted :
      ((q : ℕ) → port ≤ q → q < port + left → is_taken taken q ≡ true) → Found taken port left none

is_taken_first :
    (taken : List ℕ) (port q : ℕ)
    → is_taken taken port ≡ true
    → (port + 1 ≤ q → is_taken taken q ≡ true)
    → port ≤ q
    → is_taken taken q ≡ true
is_taken_first taken port q first later below = elim (Bool-cases (port == q)) [
  | inl same ↦ let equal : port ≡ q = ground arith in rw (← equal) first
  | inr other ↦ later (ground arith)
]

first_free-Found :
    (taken : List ℕ) (port left : ℕ) → Found taken port left (first_free taken port left)
unfolding first_free
first_free-Found taken port zero = exhausted (λ q a b. absurd (omega arith))
first_free-Found taken port (suc left) =
    go (first_free taken (port + 1) left) (first_free-Found taken (port + 1) left)
      (Bool-cases (is_taken taken port))
  where
    go :
        (o : Option ℕ)
        → Found taken (port + 1) left o
        → (is_taken taken port ≡ true) ⊎ (is_taken taken port ≡ false)
        → Found taken port (suc left) (if is_taken taken port then o else some port)
    go o f (inr free) =
        rw free (found port (omega arith) (omega arith) free (λ q a b. absurd (omega arith)))
    go (_) (found p a b free least) (inl used) = rw used (
        found p (omega arith) (omega arith) free
          (λ q c d. is_taken_first taken port q used (λ e. least q e d) c))
    go (_) (exhausted all) (inl used) =
        rw used
          (exhausted (λ q c d. is_taken_first taken port q used (λ e. all q e (omega arith)) c))

-- A port that the store gives out is the lowest of the range that neither a row holds nor the
-- caller excludes; an error means that the range has none.
pub allocate_port-Found :
    (rows : List Resource) (from to : ℕ) (exclude : List ℕ)
    → Found (exclude ++ stored_ports rows) from (to + 1 - from) (allocate_port rows from to exclude)
unfolding allocate_port
allocate_port-Found rows from to exclude = first_free-Found _ from (to + 1 - from)

-- How many ports of a range are free.
pub count_free : List ℕ → ℕ → ℕ → ℕ
count_free taken port zero = 0
count_free taken port (suc left) =
    let later = count_free taken (port + 1) left in if is_taken taken port then later else suc later

pub count_free-le : (taken : List ℕ) (port left : ℕ) → count_free taken port left ≤ left
unfolding count_free
count_free-le taken port zero = omega arith
count_free-le taken port (suc left) = ground (arith, count_free-le taken (port + 1) left)

pub is_taken-insert :
    (xs ys : List ℕ) (p q : ℕ)
    → is_taken ((xs ++ p ∷ []) ++ ys) q ≡ (is_taken (xs ++ ys) q || (p == q))
is_taken-insert [] ys p q = ground arith
is_taken-insert (x ∷ xs) ys p q = ground (arith, is_taken-insert xs ys p q)

count_free-insert-le :
    (xs ys : List ℕ) (p port left : ℕ)
    → count_free ((xs ++ p ∷ []) ++ ys) port left ≤ count_free (xs ++ ys) port left
unfolding count_free
count_free-insert-le xs ys p port zero = omega arith
count_free-insert-le xs ys p port (suc left) =
    ground (arith, count_free-insert-le xs ys p (port + 1) left, is_taken-insert xs ys p port)

pub count_free-insert-lt :
    (xs ys : List ℕ) (p port left : ℕ)
    → first_free (xs ++ ys) port left ≡ some p
    → count_free ((xs ++ p ∷ []) ++ ys) port left < count_free (xs ++ ys) port left
unfolding count_free first_free
count_free-insert-lt xs ys p port zero e = ground (arith, e)
count_free-insert-lt xs ys p port (suc left) e = ground (
  arith,
  e,
  count_free-insert-lt xs ys p (port + 1) left,
  count_free-insert-le xs ys p (port + 1) left,
  is_taken-insert xs ys p port,
)
