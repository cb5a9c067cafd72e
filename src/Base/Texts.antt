-- ===== src/Base/Texts.antt =====
-- Texts as lists of character codes: equality, and the byte order by which sqlite sorts TEXT.
use Prim.Native.Nat.{ℕ, ◌<◌}
use Prim.Native.Char.{code}
use Prim.Native.String.{String}
use mathlib.Core.Path.{◌≡◌, refl}
use mathlib.Core.Logic.{◌↔◌}
use mathlib.Core.Bool.{Bool, true, false, ◌&&◌, ◌||◌}
use mathlib.Core.List.{List, [], ◌∷◌, ◌++◌}
use native.Mathlib.Omega.{arith}
use hobbyist.Base.Tests.{ltb, ◌==◌}
use hobbyist.Base.Lists.{length}

abbrev pub Text : Type 0
Text = List ℕ

abbrev pub codes : String → Text
codes String.[] = []
codes (String.◌∷◌ c s) = code c ∷ codes s

unfoldable pub text_eq : Text → Text → Bool
text_eq [] [] = true
text_eq [] (d ∷ u) = false
text_eq (c ∷ t) [] = false
text_eq (c ∷ t) (d ∷ u) = (c == d) && text_eq t u

pub text_eq_iff : (t u : Text) → (text_eq t u ≡ true) ↔ (t ≡ u)
unfolding text_eq
text_eq_iff [] [] = ground arith
text_eq_iff [] (d ∷ u) = ground arith
text_eq_iff (c ∷ t) [] = ground arith
text_eq_iff (c ∷ t) (d ∷ u) = ground (arith, text_eq_iff t u)

pub text_eq_self : (t : Text) → text_eq t t ≡ true
text_eq_self t = (text_eq_iff t t).1 refl

pub text_eq_comm : (t u : Text) → text_eq t u ≡ text_eq u t
text_eq_comm t u = ground (arith, text_eq_iff t u, text_eq_iff u t)

-- The strict byte order.
unfoldable pub text_lt : Text → Text → Bool
text_lt t [] = false
text_lt [] (d ∷ u) = true
text_lt (c ∷ t) (d ∷ u) = ltb c d || ((c == d) && text_lt t u)

pub text_lt_irrefl : (t : Text) → text_lt t t ≡ false
unfolding text_lt
text_lt_irrefl [] = refl
text_lt_irrefl (c ∷ t) = ground (arith, text_lt_irrefl t)

pub text_lt_trans : (s t u : Text) → text_lt s t ≡ true → text_lt t u ≡ true → text_lt s u ≡ true
unfolding text_lt
text_lt_trans [] [] u h k = cc
text_lt_trans [] (c ∷ t) [] h k = cc
text_lt_trans [] (c ∷ t) (d ∷ u) h k = refl
text_lt_trans (b ∷ s) [] u h k = cc
text_lt_trans (b ∷ s) (c ∷ t) [] h k = cc
text_lt_trans (b ∷ s) (c ∷ t) (d ∷ u) h k = ground (arith, text_lt_trans s t u)

pub text_lt_total : (t u : Text) → text_eq t u ≡ false → text_lt t u ≡ false → text_lt u t ≡ true
unfolding text_lt text_eq
text_lt_total [] [] h k = cc
text_lt_total [] (d ∷ u) h k = cc
text_lt_total (c ∷ t) [] h k = refl
text_lt_total (c ∷ t) (d ∷ u) h k = ground (arith, text_lt_total t u)

-- Equal beginnings do not matter.
pub text_lt-append : (p t u : Text) → text_lt t u ≡ true → text_lt (p ++ t) (p ++ u) ≡ true
unfolding text_lt
text_lt-append [] t u h = h
text_lt-append (c ∷ p) t u h = ground (arith, text_lt-append p t u h)

-- Where texts of one length differ, what follows does not matter.
pub text_lt-extend :
    (t u s r : Text) → length t ≡ length u → text_lt t u ≡ true → text_lt (t ++ s) (u ++ r) ≡ true
unfolding text_lt
text_lt-extend [] [] s r e h = cc
text_lt-extend [] (d ∷ u) s r e h = absurd (omega arith)
text_lt-extend (c ∷ t) [] s r e h = cc
text_lt-extend (c ∷ t) (d ∷ u) s r e h = ground (arith, text_lt-extend t u s r)

pub text_lt_of_lt : (c d : ℕ) (t u : Text) → c < d → text_lt (c ∷ t) (d ∷ u) ≡ true
unfolding text_lt
text_lt_of_lt c d t u h = ground arith
