-- ===== src/Proxy/Bytes.antt =====
-- Bytes of the wire as numbers below 256, and the Buffer calls of packages/proxy/src/startup.ts.
-- An Int32 is its pattern, below 2 ^ 32.
use hobbyist.Base.{
  ℕ, zero, suc, ◌+◌, ◌*◌, ◌/◌, ◌%◌, ◌≤◌, ◌<◌, ◌≡◌, refl, Bool, true, false, ◌==◌, List, [], ◌∷◌,
  ◌++◌, Option, none, some, length, take, drop, ltb, if◌then◌else◌, arith, any,
}

abbrev pub Bytes : Type 0
Bytes = List ℕ

-- `readInt32BE(0)`; a shorter buffer is never read.
unfoldable pub read_int32 : Bytes → ℕ
read_int32 (a ∷ b ∷ c ∷ d ∷ rest) = ((a * 256 + b) * 256 + c) * 256 + d
read_int32 _ = 0

-- `writeInt32BE`.
unfoldable pub int32 : ℕ → Bytes
int32 w = w / 16777216 % 256 ∷ w / 65536 % 256 ∷ w / 256 % 256 ∷ w % 256 ∷ []

abbrev pub is_negative : ℕ → Bool
is_negative w = ltb 2147483647 w

-- `value < bound`, for a positive bound.
abbrev pub is_below : ℕ → ℕ → Bool
is_below w bound = if is_negative w then true else ltb w bound

-- `value > bound`, for a positive bound.
abbrev pub is_above : ℕ → ℕ → Bool
is_above w bound = if is_negative w then false else ltb bound w

-- The bytes up to the first zero, and those behind it: `indexOf(0, offset)` and the two slices.
unfoldable pub cut_at_zero : Bytes → Option (Bytes × Bytes)
cut_at_zero [] = none
cut_at_zero (b ∷ rest) =
    if b == 0
    then some ([], rest)
    else elim (cut_at_zero rest) [ none ↦ none | some (front, back) ↦ some (b ∷ front, back) ]

pub read_int32-int32 : (w : ℕ) (rest : Bytes) → w < 4294967296 → read_int32 (int32 w ++ rest) ≡ w
unfolding read_int32 int32
read_int32-int32 w rest h = omega arith

pub length-int32 : (w : ℕ) → length (int32 w) ≡ 4
unfolding int32
length-int32 w = refl

abbrev pub HasNoZero : Bytes → Type 0
HasNoZero s = any (λ b. b == 0) s ≡ false

pub cut_at_zero-append :
    (s rest : Bytes) → HasNoZero s → cut_at_zero (s ++ 0 ∷ rest) ≡ some (s, rest)
unfolding cut_at_zero
cut_at_zero-append [] rest h = refl
cut_at_zero-append (b ∷ s) rest h = ground (arith, cut_at_zero-append s rest)

-- What is behind the zero is shorter by more than the text before it.
pub cut_at_zero_shorter :
    (s front back : Bytes)
    → cut_at_zero s ≡ some (front, back)
    → length front + length back + 1 ≡ length s
unfolding cut_at_zero
cut_at_zero_shorter [] front back h = ground (arith, h)
cut_at_zero_shorter (b ∷ s) front back h = go (cut_at_zero s) refl (cut_at_zero_shorter s)
  where
    go :
        (o : Option (Bytes × Bytes))
        → cut_at_zero s ≡ o
        → ((f g : Bytes) → cut_at_zero s ≡ some (f, g) → length f + length g + 1 ≡ length s)
        → length front + length back + 1 ≡ suc (length s)
    go none e ih = ground (arith, h, e)
    go (some (f, g)) e ih = ground (arith, h, e, ih f g e)

pub length-drop-lt : (n : ℕ) (s : Bytes) → n < length s → length (drop (suc n) s) + suc n ≡ length s
length-drop-lt n [] h = absurd (omega arith)
length-drop-lt zero (b ∷ s) h = omega arith
length-drop-lt (suc n) (b ∷ s) h = ground (arith, length-drop-lt n s)

pub length-take-eq : (n : ℕ) (s : Bytes) → n ≤ length s → length (take n s) ≡ n
length-take-eq zero s h = refl
length-take-eq (suc n) [] h = absurd (omega arith)
length-take-eq (suc n) (b ∷ s) h = ground (arith, length-take-eq n s)

pub take-append : (n : ℕ) (s t : Bytes) → n ≤ length s → take n (s ++ t) ≡ take n s
take-append zero s t h = refl
take-append (suc n) [] t h = absurd (omega arith)
take-append (suc n) (b ∷ s) t h = ground (arith, take-append n s t)

pub drop-append : (n : ℕ) (s t : Bytes) → n ≤ length s → drop n (s ++ t) ≡ drop n s ++ t
drop-append zero s t h = refl
drop-append (suc n) [] t h = absurd (omega arith)
drop-append (suc n) (b ∷ s) t h = ground (arith, drop-append n s t)

pub take-all : (s t : Bytes) → take (length s) (s ++ t) ≡ s
take-all [] t = refl
take-all (b ∷ s) t = ground (arith, take-all s t)

pub drop-all : (s t : Bytes) → drop (length s) (s ++ t) ≡ t
drop-all [] t = refl
drop-all (b ∷ s) t = drop-all s t

pub read_int32-append : (s t : Bytes) → 4 ≤ length s → read_int32 (s ++ t) ≡ read_int32 s
unfolding read_int32
read_int32-append [] t h = absurd (omega arith)
read_int32-append (a ∷ []) t h = absurd (omega arith)
read_int32-append (a ∷ b ∷ []) t h = absurd (omega arith)
read_int32-append (a ∷ b ∷ c ∷ []) t h = absurd (omega arith)
read_int32-append (a ∷ b ∷ c ∷ d ∷ s) t h = refl
