-- ===== src/Queue/Ids/Order.antt =====
-- The order of message ids: later calls give greater texts.
use hobbyist.Base.{
  ℕ, zero, suc, ◌+◌, ◌/◌, ◌%◌, ◌^◌, ◌≤◌, ◌<◌, ◌≡◌, ◌≢◌, refl, sym, ap, Text, text_lt, text_lt_of_lt,
  text_lt-append, text_lt-extend, length-append, append_assoc, List, [], ◌∷◌, ◌++◌, map, Option,
  none, some, ltb, ◌==◌, Bool, true, false, arith, length, All, inl, inr, Option-cases, Bool-cases,
  ltb_iff, if◌then◌else◌,
}
use hobbyist.Queue.Ids.{
  symbol, encode_loop, encode_time, increment?, Ids, draw_from, draw_random, increment, advance,
  new_message_id, is_last,
}

-- A test on all numbers under a bound, tried one by one.
holds_to : (test : ℕ → Bool) → ℕ → Bool
holds_to test zero = true
holds_to test (suc top) = if test top then holds_to test top else false

holds_to-at : (test : ℕ → Bool) (top at : ℕ) → at < top → holds_to test top ≡ true → test at ≡ true
unfolding holds_to
holds_to-at test zero at below all = absurd (omega arith)
holds_to-at test (suc top) at below all = elim (Bool-cases (test top)) [
  | inl fine ↦ ground (arith, holds_to-at test top at, fine)
  | inr bad ↦ ground (arith, bad)
]

-- The symbols ascend.
symbol_table : holds_to (λ a. holds_to (λ b. ltb (symbol b) (symbol a)) a) 32 ≡ true
unfolding holds_to symbol
symbol_table = refl

symbol-lt : (a b : ℕ) → a < b → b < 32 → symbol a < symbol b
symbol-lt a b h k = (ltb_iff _ _).0 (
    holds_to-at (λ x. ltb (symbol x) (symbol b)) b a h
      (holds_to-at (λ y. holds_to (λ x. ltb (symbol x) (symbol y)) y) 32 b k symbol_table))

-- `encode_loop` against the digits of a number, the last one on its own.
digits : ℕ → ℕ → Text
digits zero v = []
digits (suc k) v = digits k (v / 32) ++ symbol (v % 32) ∷ []

encode_loop-digits : (k : ℕ) (out : Text) (v : ℕ) → encode_loop k out v ≡ digits k v ++ out
unfolding encode_loop digits
encode_loop-digits zero out v = refl
encode_loop-digits (suc k) out v =
    rw (encode_loop-digits k (symbol (v % 32) ∷ out) (v / 32))
      (sym (append_assoc (digits k (v / 32)) _ out))

length-digits : (k v : ℕ) → length (digits k v) ≡ k
unfolding digits
length-digits zero v = refl
length-digits (suc k) v =
    omega
      (arith, length-append (digits k (v / 32)) (symbol (v % 32) ∷ []), length-digits k (v / 32))

-- `k` digits hold the number.
abbrev Fits : ℕ → ℕ → Type 0
Fits zero v = v ≡ 0
Fits (suc k) v = Fits k (v / 32)

digits-lt : (k a b : ℕ) → a < b → Fits k b → text_lt (digits k a) (digits k b) ≡ true
unfolding digits
digits-lt zero a b h f = absurd (omega arith)
digits-lt (suc k) a b h f = elim (Bool-cases (ltb (a / 32) (b / 32))) [
  | inl less ↦
      text_lt-extend (digits k (a / 32)) (digits k (b / 32)) _ _
        (omega (arith, length-digits k (a / 32), length-digits k (b / 32)))
        (digits-lt k (a / 32) (b / 32) ((ltb_iff _ _).0 less) f)
  | inr more ↦ rw (same more) (text_lt-append (digits k (b / 32)) _ _ (last_less more))
]
  where
    same : ltb (a / 32) (b / 32) ≡ false → a / 32 ≡ b / 32
    same more = ground arith

    last_less :
        ltb (a / 32) (b / 32) ≡ false → text_lt (symbol (a % 32) ∷ []) (symbol (b % 32) ∷ []) ≡ true
    last_less more =
        text_lt_of_lt _ _ [] []
          (symbol-lt (a % 32) (b % 32) (omega (arith, same more)) (omega arith))

length-encode_time : (ms : ℕ) → length (encode_time ms) ≡ 10
unfolding encode_time
length-encode_time ms = omega (
  arith,
  ap length (encode_loop-digits 10 [] ms),
  length-append (digits 10 ms) [],
  length-digits 10 ms,
)

-- 32 ^ 10 milliseconds is some thirty-five thousand years.
encode_time-lt : (a b : ℕ) → a < b → b < 32 ^ 10 → text_lt (encode_time a) (encode_time b) ≡ true
unfolding encode_time
encode_time-lt a b h k =
    rw (encode_loop-digits 10 [] a, encode_loop-digits 10 [] b)
      (text_lt-extend (digits 10 a) (digits 10 b) [] []
        (omega (arith, length-digits 10 a, length-digits 10 b)) (digits-lt 10 a b h (omega arith)))

abbrev pub IsDigit : ℕ → Type 0
IsDigit d = d < 32

-- A suffix that `increment` can still count up.
abbrev pub CanIncrement : List ℕ → Type 0
CanIncrement r = increment? r ≢ none

zeros-IsDigit : (r : List ℕ) → All IsDigit (map (λ _. 0) r)
zeros-IsDigit [] = tt
zeros-IsDigit (d ∷ r) = (omega arith, zeros-IsDigit r)

-- Counting up gives digits again, and a greater text.
increment?-lt :
    (r r' : List ℕ)
    → increment? r ≡ some r'
    → All IsDigit r
    → All IsDigit r' × (text_lt (map symbol r) (map symbol r') ≡ true)
unfolding increment?
increment?-lt [] r' e h = cc
increment?-lt (d ∷ r) r' e (p, h) = elim (Option-cases (increment? r)) [
  | inl carry ↦
      let below : d < 31 = ground arith in
      let result : r' ≡ (d + 1) ∷ map (λ _. 0) r = ground arith in
      rw result (
        (omega arith, zeros-IsDigit r),
        text_lt_of_lt _ _ _ _ (symbol-lt d (d + 1) (omega arith) (omega arith)),
      )
  | inr (s, next) ↦
      let result : r' ≡ d ∷ s = ground arith in
      let (small, less) = increment?-lt r s next h in
      rw result ((p, small), text_lt-append (symbol d ∷ []) _ _ less)
]

module _ (random_int : ℕ → ℕ) where
  advance-last_ms : (s : Ids) (now : ℕ) → (advance random_int s now).last_ms ≡ some now
  unfolding advance
  advance-last_ms s now = last s.last_ms refl
    where
      last : (o : Option ℕ) → s.last_ms ≡ o → (advance random_int s now).last_ms ≡ some now
      last none e = ground arith
      last (some ms) e = ground arith

  -- In one millisecond the second id continues the first one's suffix.
  advance_again :
      (s : Ids) (now : ℕ) (r : List ℕ)
      → s.last_ms ≡ some now
      → increment? s.last_random ≡ some r
      → (advance random_int s now).last_random ≡ r
  unfolding advance increment
  advance_again s now r e f = ground arith

  module _ (random_int-lt : (n : ℕ) → random_int n < 32) where
    draw_from-IsDigit : (k n : ℕ) → All IsDigit (draw_from random_int k n)
    unfolding draw_from
    draw_from-IsDigit zero n = tt
    draw_from-IsDigit (suc k) n = (random_int-lt n, draw_from-IsDigit k (n + 1))

    increment-IsDigit :
        (r : List ℕ) (n : ℕ) → All IsDigit r → All IsDigit (increment random_int r n).0
    unfolding increment draw_random
    increment-IsDigit r n h = elim (Option-cases (increment? r)) [
      | inl carry ↦ rw (carry, increment) (draw_from-IsDigit 16 n)
      | inr (s, next) ↦ rw (next, increment) (increment?-lt r s next h).0
    ]

    advance-IsDigit :
        (s : Ids) (now : ℕ)
        → All IsDigit s.last_random
        → All IsDigit (advance random_int s now).last_random
    unfolding advance draw_random
    advance-IsDigit s now h = elim (Bool-cases (is_last s.last_ms now)) [
      | inl same ↦ rw same (increment-IsDigit s.last_random s.drawn h)
      | inr other ↦ rw other (draw_from-IsDigit 16 s.drawn)
    ]

    -- An id made after another one, in the same millisecond or a later one, is the greater text,
    -- so that `ORDER BY id` is creation order: while random numbers are below 32, the clock does
    -- not run backwards and stays below 32 ^ 10 ms, and the sixteen random characters of the
    -- millisecond are not used up.
    pub new_message_id-lt :
        (s : Ids) (a b : ℕ)
        → All IsDigit s.last_random
        → CanIncrement (advance random_int s a).last_random
        → a ≤ b
        → b < 32 ^ 10
        → let (first, s') = new_message_id random_int s a in
          text_lt first (new_message_id random_int s' b).0 ≡ true
    unfolding new_message_id
    new_message_id-lt s a b h room le bound = elim (Bool-cases (a == b)) [
      | inl same ↦ within_ms (ground arith)
      | inr later ↦
          text_lt-extend (encode_time a) (encode_time b) _ _
            (omega (arith, length-encode_time a, length-encode_time b))
            (encode_time-lt a b (ground arith) bound)
    ]
      where
        continued :
            text_lt
              (map symbol (advance random_int s a).last_random)
              (map symbol (advance random_int (advance random_int s a) a).last_random)
            ≡ true
        continued = elim (Option-cases (increment? (advance random_int s a).last_random)) [
          | inl carry ↦ absurd (room carry)
          | inr (r, next) ↦
              rw (advance_again (advance random_int s a) a r (advance-last_ms s a) next)
                (increment?-lt _ r next (advance-IsDigit s a h)).1
        ]

        within_ms :
            b ≡ a
            → text_lt (encode_time a ++ map symbol (advance random_int s a).last_random) (
                encode_time b
                ++ map symbol (advance random_int (advance random_int s a) b).last_random)
              ≡ true
        within_ms e = rw e (text_lt-append (encode_time a) _ _ continued)
