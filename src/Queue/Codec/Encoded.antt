-- ===== src/Queue/Codec/Encoded.antt =====
-- `write` comes to its end, and writes the part of the heap that it reaches.
use hobbyist.Base.{ℕ, zero, suc, ◌≡◌, ◌<◌, refl, Option, none, some, arith}
use hobbyist.Queue.Codec.{
  Prim, Value, undefined, prim, big, ref, Heap, prim_node, undef_node, big_node, cell_node, Writing,
  reserve, blank, Step, write_object, write,
}
use hobbyist.Queue.Codec.Written.{Stands, unseen-mark, Writes, IsReady}
use hobbyist.Queue.Codec.Parts.{
  IsInside, HasInside, leaf-Writes, pushed_lem, at_once-Writes, parts-Writes,
}
use hobbyist.Queue.Codec.Slot.{fill_in, reserve-IsSound, slot-seen, object-Adds}

object-Writes :
    (heap : Heap) (bound fuel : ℕ) (w : Step Value ℕ) (a : ℕ) (s : Writing)
    → ((v : Value) (t : Writing)
        → IsInside bound v
        → IsReady heap bound fuel t
        → Writes heap (λ u r. Stands u v r) t (w v t))
    → HasInside bound (heap a)
    → a < bound
    → s.seen a ≡ none
    → IsReady heap bound (suc fuel) s
    → Writes heap (λ u r. Stands u (ref a) r) s (write_object w a (heap a) s)
unfolding write_object reserve
object-Writes heap bound fuel w a s ok inside k new (sound, few) =
    let slot = reserve a (cell_node (blank (heap a))) s in
    let ready : IsReady heap bound fuel slot = (
      reserve-IsSound a _ s new sound,
      omega (arith, few, unseen-mark bound a s.size s.seen k new),
    ) in
    let h = parts-Writes heap bound fuel w ok (heap a) slot inside ready in
    record {
      result = s.size;
      after = fill_in s.size h.result h.after;
      ends = rw h.ends refl;
      adds = object-Adds heap a s h.after h.result new h.adds h.holds;
      sound = record { below = h.sound.below; apart = h.sound.apart };
      holds = slot-seen heap a s h.after h.result new h.adds h.holds;
    }

module _ (heap : Heap) (bound : ℕ) (closed : (a : ℕ) → a < bound → HasInside bound (heap a)) where
  -- With more fuel than there are objects not seen yet, `write` comes to its end.
  pub write-Writes :
      (fuel : ℕ) (v : Value) (s : Writing)
      → IsInside bound v
      → IsReady heap bound fuel s
      → Writes heap (λ t r. Stands t v r) s (write heap fuel v s)
  unfolding write
  write-Writes fuel undefined s p k = leaf-Writes heap undef_node undefined s k.0 (pushed_lem _ s)
  write-Writes fuel (prim q) s p k = leaf-Writes heap (prim_node q) (prim q) s k.0 (pushed_lem _ s)
  write-Writes fuel (big t) s p k = leaf-Writes heap (big_node t) (big t) s k.0 (pushed_lem _ s)
  write-Writes zero (ref a) s p k = absurd (omega (arith, k.1))
  write-Writes (suc fuel) (ref a) s p k = go (s.seen a) refl (write-Writes fuel)
    where
      go :
          (o : Option ℕ)
          → s.seen a ≡ o
          → ((v : Value) (t : Writing)
              → IsInside bound v
              → IsReady heap bound fuel t
              → Writes heap (λ u r. Stands u v r) t (write heap fuel v t))
          → Writes heap (λ t r. Stands t (ref a) r) s (write heap (suc fuel) (ref a) s)
      go (some i) e ih = rw (write, e) (at_once-Writes heap (λ t r. Stands t (ref a) r) s i k.0 e)
      go none e ih =
          rw (write, e) (object-Writes heap bound fuel (write heap fuel) a s ih (closed a p) p e k)
