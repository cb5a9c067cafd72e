-- ===== src/Queue/Ids.antt =====
-- packages/queue/src/ids.ts: message ids that sort in creation order.
-- `randomInt(0, 32)` of node:crypto is the parameter `random_int`, the result of its n-th call; the
-- two module variables and the count of the calls made are the state `Ids`.
pub mod Order
use hobbyist.Base.{
  ℕ, zero, suc, ◌+◌, ◌/◌, ◌%◌, Text, codes, List, [], ◌∷◌, ◌++◌, map, Option, none, some, ltb, ◌==◌,
  if◌then◌else◌, get_or_else, Bool, false,
}

abbrev pub alphabet : Text
alphabet = codes "0123456789ABCDEFGHJKMNPQRSTVWXYZ"

abbrev pub time_chars : ℕ
time_chars = 10

abbrev pub random_chars : ℕ
random_chars = 16

-- `ALPHABET[digit]`.
abbrev pub char_at? : Text → ℕ → Option ℕ
char_at? [] i = none
char_at? (c ∷ t) zero = some c
char_at? (c ∷ t) (suc i) = char_at? t i

-- `ALPHABET[digit] ?? '0'`.
unfoldable pub symbol : ℕ → ℕ
symbol digit = get_or_else (char_at? alphabet digit) b'0'

pub record Ids : Type 0 where
  -- `none` is the initial -1, which no time equals.
  pub last_ms : Option ℕ
  pub last_random : List ℕ
  -- Calls of `randomInt` made so far.
  pub drawn : ℕ

abbrev pub initial : Ids
initial = record { last_ms = none; last_random = []; drawn = 0 }

-- The loop of `encodeTime`, with the rounds left.
unfoldable pub encode_loop : ℕ → Text → ℕ → Text
encode_loop zero out value = out
encode_loop (suc i) out value = encode_loop i (symbol (value % 32) ∷ out) (value / 32)

unfoldable pub encode_time : ℕ → Text
encode_time ms = encode_loop time_chars [] ms

-- The loop of `increment`, from the last digit on: `none` when every digit was 31.
unfoldable pub increment? : List ℕ → Option (List ℕ)
increment? [] = none
increment? (digit ∷ rest) = elim (increment? rest) [
  | some rest' ↦ some (digit ∷ rest')
  | none ↦ if ltb digit 31 then some ((digit + 1) ∷ map (λ _. 0) rest) else none
]

abbrev pub is_last : Option ℕ → ℕ → Bool
is_last none now = false
is_last (some ms) now = now == ms

module _ (random_int : ℕ → ℕ) where
  unfoldable pub draw_from : ℕ → ℕ → List ℕ
  draw_from zero n = []
  draw_from (suc k) n = random_int n ∷ draw_from k (n + 1)

  -- `drawRandom`, with the count of calls after it.
  unfoldable pub draw_random : ℕ → List ℕ × ℕ
  draw_random n = (draw_from random_chars n, n + random_chars)

  unfoldable pub increment : List ℕ → ℕ → List ℕ × ℕ
  increment random n = elim (increment? random) [
    | some random' ↦ (random', n)
    | none ↦ draw_random n
  ]

  -- The state after the call, before the id is put together.
  unfoldable pub advance : Ids → ℕ → Ids
  advance s now =
      if is_last s.last_ms now
      then (let (random, drawn) = increment s.last_random s.drawn in
          record { last_ms = s.last_ms; last_random = random; drawn = drawn })
      else (let (random, drawn) = draw_random s.drawn in
          record { last_ms = some now; last_random = random; drawn = drawn })

  unfoldable pub new_message_id : Ids → ℕ → Text × Ids
  new_message_id s now =
      let s' = advance s now in (encode_time now ++ map symbol s'.last_random, s')
