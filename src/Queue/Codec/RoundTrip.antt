-- ===== src/Queue/Codec/RoundTrip.antt =====
-- packages/queue/src/codec.ts: what `decodeBody` makes of the nodes of `encodeBody`.
use hobbyist.Base.{ℕ, zero, suc, ◌≡◌, ◌≤◌, ◌<◌, refl, subst, Option, none, some, arith}
use hobbyist.Queue.Codec.{
  Value, undefined, prim, big, ref, Cell, Heap, Writing, fill, write_object, write, nothing_written,
  encode_body, built, decoded_heap, decode_body,
}
use hobbyist.Queue.Codec.Related.{CellRel}
use hobbyist.Queue.Codec.Written.{Stands, IsDone, IsSound, unseen}
use hobbyist.Queue.Codec.Parts.{IsInside, HasInside}
use hobbyist.Queue.Codec.Encoded.{write-Writes}
use hobbyist.Queue.Codec.Read.{Means, IsValid}
use hobbyist.Queue.Codec.Filled.{filled_lem}

-- One graph of objects is that of another: distinct objects have distinct copies, the value at the
-- root is copied, and an object that has a copy has the copies of its parts in it, in their order.
pub record IsCopy (heap : Heap) (v : Value) (heap' : Heap) (v' : Value) : Type 0 where
  pub address : ℕ → Option ℕ
  pub apart : (a b i : ℕ) → address a ≡ some i → address b ≡ some i → a ≡ b
  pub root : Means address v v'
  pub parts : (a i : ℕ) → address a ≡ some i → CellRel (Means address) (heap a) (heap' i)

built-Means :
    (heap : Heap) (s : Writing)
    → ((a i : ℕ) → s.seen a ≡ some i → IsDone heap s a i)
    → (v : Value) (r : ℕ) → Stands s v r
    → Means s.seen v (built s.nodes r)
unfolding built
built-Means heap s done undefined r (e, k) = rw (built, e) refl
built-Means heap s done (prim p) r (e, k) = rw (built, e) refl
built-Means heap s done (big t) r (e, k) = rw (built, e) refl
built-Means heap s done (ref a) r e = (r, e, rw (built, (done a r e).is_node) refl)

fill_index :
    (i : ℕ) (o : Option (Cell ℕ × Writing)) (r : ℕ) (s : Writing) → fill i o ≡ some (r, s) → r ≡ i
fill_index i none r s e = absurd (ground (arith, e))
fill_index i (some (c, t)) r s e = ground (arith, e)

-- What is written first has index 0.
write_first :
    (heap : Heap) (fuel : ℕ) (v : Value) (r : ℕ) (s : Writing)
    → write heap (suc fuel) v nothing_written ≡ some (r, s)
    → r ≡ 0
unfolding write write_object
write_first heap fuel undefined r s e = ground (arith, e)
write_first heap fuel (prim p) r s e = ground (arith, e)
write_first heap fuel (big t) r s e = ground (arith, e)
write_first heap fuel (ref a) r s e = fill_index 0 _ r s e

unseen_le : (n : ℕ) → unseen n (λ a. none) ≤ n
unseen_le zero = omega arith
unseen_le (suc n) = omega (arith, unseen_le n)

-- The graph that is read back is a copy of the one that was written, when every done object stands
-- for its parts.
decode_body-IsCopy :
    (heap : Heap) (v : Value) (s : Writing)
    → IsSound s
    → ((a : ℕ) → IsValid (heap a))
    → ((a i : ℕ) → s.seen a ≡ some i → IsDone heap s a i)
    → Stands s v 0
    → IsCopy heap v (decode_body s.nodes).0 (decode_body s.nodes).1
unfolding decode_body decoded_heap
decode_body-IsCopy heap v s sound valid done h = record {
  address = s.seen;
  apart = sound.apart;
  root = built-Means heap s done v 0 h;
  parts = λ a i e.
      let d = done a i e in
      rw (decoded_heap, d.is_node)
        (filled_lem s.seen s.nodes (Stands s) sound.apart (built-Means heap s done) (heap a) d.cell
          d.parts (valid a));
}

encode_lem :
    (heap : Heap) (bound : ℕ) (v : Value) (r : ℕ) (s : Writing)
    → write heap (suc bound) v nothing_written ≡ some (r, s)
    → encode_body heap bound v ≡ some s
unfolding encode_body
encode_lem heap bound v r s e = rw (encode_body, e) refl

-- When what the first `bound` objects and the value refer to is among these objects, and no object
-- has a field `__proto__`, two fields of one key, two entries of one key or one member twice:
-- `encodeBody` comes to its end, and what `decodeBody` makes of its nodes is a copy of the graph,
-- with the same sharing and the same cycles.
pub decode_body-encode_body :
    (heap : Heap) (bound : ℕ) (v : Value)
    → ((a : ℕ) → a < bound → HasInside bound (heap a))
    → ((a : ℕ) → IsValid (heap a))
    → IsInside bound v
    → (s : Writing) × (encode_body heap bound v ≡ some s)
      × IsCopy heap v (decode_body s.nodes).0 (decode_body s.nodes).1
decode_body-encode_body heap bound v closed valid inside =
    let start : IsSound nothing_written = record {
      below = λ a i e. absurd (ground (arith, e));
      apart = λ a b i e f. absurd (ground (arith, e));
    } in
    let few : unseen bound (λ a. none) < suc bound = omega (arith, unseen_le bound) in
    let h = write-Writes heap bound closed (suc bound) v nothing_written inside (start, few) in
    (
      h.after,
      encode_lem heap bound v h.result h.after h.ends,
      decode_body-IsCopy heap v h.after h.sound valid (λ a i e. (h.adds.first_seen a i refl e).2)
          (subst (Stands h.after v) (write_first heap bound v _ _ h.ends) h.holds),
    )
