-- ===== src/Queue/Codec/Tests.antt =====
-- Runs of the codec of a message's body, and its theorem at one of them.
use hobbyist.Base.{ℕ, zero, suc, ◌≡◌, ◌<◌, refl, text_eq, codes, [], ◌∷◌, Option, none, some, arith}
use hobbyist.Queue.Codec.{
  undefined, prim, ref, number, array, object, Heap, Writing, write, write_object, write_parts,
  write_field, each, reserve, push, encode_body, assign, decode_body,
}
use hobbyist.Queue.Codec.Parts.{HasInside}
use hobbyist.Queue.Codec.Read.{proto, IsValid}
use hobbyist.Queue.Codec.RoundTrip.{IsCopy, decode_body-encode_body}

-- An object with itself and with a list, which has the object and a number.
abbrev ring : Heap
ring zero = object ((codes "self", ref 0) ∷ (codes "list", ref 1) ∷ [])
ring (suc zero) = array (ref 0 ∷ prim (number (codes "1")) ∷ undefined ∷ [])
ring _ = array []

ring-HasInside : (a : ℕ) → a < 2 → HasInside 2 (ring a)
ring-HasInside zero k = (omega arith, (omega arith, tt))
ring-HasInside (suc zero) k = (omega arith, (tt, (tt, tt)))
ring-HasInside (suc (suc a)) k = tt

ring-IsValid : (a : ℕ) → IsValid (ring a)
unfolding text_eq
ring-IsValid zero = ((refl, (refl, tt)), ((refl, tt), (tt, tt)))
ring-IsValid (suc zero) = tt
ring-IsValid (suc (suc a)) = tt

decode_body-encode_body_example :
    (s : Writing) × (encode_body ring 2 (ref 0) ≡ some s)
    × IsCopy ring (ref 0) (decode_body s.nodes).0 (decode_body s.nodes).1
decode_body-encode_body_example =
    decode_body-encode_body ring 2 (ref 0) ring-HasInside ring-IsValid (omega arith)

-- The size of what is written.
abbrev size_of : Option Writing → ℕ
size_of none = 0
size_of (some s) = s.size

-- Two objects and two leaves take four nodes.
ring_size : size_of (encode_body ring 2 (ref 0)) ≡ 4
unfolding encode_body write write_object write_parts write_field each reserve push
ring_size = refl

-- A field `__proto__` is lost.
proto_lost : assign proto (prim (number (codes "1"))) [] ≡ []
unfolding assign text_eq
proto_lost = refl
