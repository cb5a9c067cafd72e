-- ===== src/Queue/Codec/Parts.antt =====
-- The leaves and the loops of `write`: what they leave when `write` on less fuel does.
use hobbyist.Base.{ℕ, ◌≡◌, ◌<◌, refl, Text, All, Option, some, arith}
use hobbyist.Queue.Codec.{
  Prim, Value, ref, Cell, date, regexp, array, object, map_of, set_of, Heap, Node, Writing, push,
  Step, write_field, write_entry, made, write_parts,
}
use hobbyist.Queue.Codec.Related.{
  FieldRel, one_key, EntryRel, entries, CellRel, dates, regexps, arrays, objects, maps, sets,
}
use hobbyist.Queue.Codec.Written.{
  Stands, IsSound, Adds, Stands-later, Adds-nothing, Adds-more, Writes, IsReady, IsReady-after,
  each-Writes,
}

-- A value that refers to one of the first objects; a cell of such values.
abbrev pub IsInside : ℕ → Value → Type 0
IsInside bound (ref a) = a < bound
IsInside bound _ = Unit

abbrev pub HasInside : ℕ → Cell Value → Type 0
HasInside bound (array vs) = All (IsInside bound) vs
HasInside bound (object fs) = All (λ f. IsInside bound f.1) fs
HasInside bound (map_of es) = All (λ e. IsInside bound e.0 × IsInside bound e.1) es
HasInside bound (set_of vs) = All (IsInside bound) vs
HasInside bound _ = Unit

-- A leaf takes a new index.
leaf-Adds : (heap : Heap) (x : Node) (s : Writing) → Adds heap s (push x s)
unfolding push
leaf-Adds heap x s = record {
  grows = omega arith;
  keeps_nodes = λ r k. ground (arith, k);
  keeps_seen = λ a i e. e;
  first_seen = λ a i e f. absurd (ground (arith, e, f));
}

leaf-IsSound : (x : Node) (s : Writing) → IsSound s → IsSound (push x s)
unfolding push
leaf-IsSound x s h = record { below = λ a i e. omega (arith, h.below a i e); apart = h.apart }

pub leaf-Writes :
    (heap : Heap) (x : Node) (v : Value) (s : Writing)
    → IsSound s
    → Stands (push x s) v s.size
    → Writes heap (λ t r. Stands t v r) s (some (s.size, push x s))
leaf-Writes heap x v s h e = record {
  result = s.size;
  after = push x s;
  ends = refl;
  adds = leaf-Adds heap x s;
  sound = leaf-IsSound x s h;
  holds = e;
}

pub pushed_lem :
    (x : Node) (s : Writing) → ((push x s).nodes s.size ≡ x) × (s.size < (push x s).size)
unfolding push
pushed_lem x s = ground arith

pub at_once-Writes :
    {Y : Type 0} (heap : Heap) (Q : Writing → Y → Type 0) (s : Writing) (y : Y)
    → IsSound s
    → Q s y
    → Writes heap Q s (some (y, s))
at_once-Writes heap Q s y h q = record {
  result = y;
  after = s;
  ends = refl;
  adds = Adds-nothing heap s;
  sound = h;
  holds = q;
}

made-Writes :
    {X Y : Type 0} {heap : Heap} {P : Writing → X → Type 0} {Q : Writing → Y → Type 0} {s : Writing}
    {o : Option (X × Writing)} (f : X → Y)
    → ((t : Writing) (x : X) → P t x → Q t (f x))
    → Writes heap P s o
    → Writes heap Q s (made f o)
made-Writes f q h = record {
  result = f h.result;
  after = h.after;
  ends = rw h.ends refl;
  adds = h.adds;
  sound = h.sound;
  holds = q h.after h.result h.holds;
}

module _ (heap : Heap) (bound limit : ℕ) (w : Step Value ℕ)
    (ok : (v : Value) (s : Writing)
      → IsInside bound v
      → IsReady heap bound limit s
      → Writes heap (λ t r. Stands t v r) s (w v s)) where
  field-Writes :
      (x : Text × Value) (s : Writing)
      → IsInside bound x.1
      → IsReady heap bound limit s
      → Writes heap (λ t y. FieldRel (Stands t) x y) s (write_field w x s)
  unfolding write_field
  field-Writes (key, v) s p k =
      let h = ok v s p k in
      record {
        result = (key, h.result);
        after = h.after;
        ends = rw (write_field, h.ends) refl;
        adds = h.adds;
        sound = h.sound;
        holds = one_key key h.holds;
      }

  entry-Writes :
      (x : Value × Value) (s : Writing)
      → IsInside bound x.0 × IsInside bound x.1
      → IsReady heap bound limit s
      → Writes heap (λ t y. EntryRel (Stands t) x y) s (write_entry w x s)
  unfolding write_entry
  entry-Writes (key, v) s (p, q) k =
      let h = ok key s p k in
      let g = ok v h.after q (IsReady-after heap bound limit k h.adds h.sound) in
      record {
        result = (h.result, g.result);
        after = g.after;
        ends = rw (write_entry, h.ends, g.ends) refl;
        adds = Adds-more h.adds g.adds;
        sound = g.sound;
        holds = entries (Stands-later g.adds key h.result h.holds) g.holds;
      }

  later_lem : (s t : Writing) → Adds heap s t → (v : Value) (r : ℕ) → Stands s v r → Stands t v r
  later_lem s t h v r = Stands-later h v r

  field_later :
      (s t : Writing)
      → Adds heap s t
      → (x : Text × Value) (y : Text × ℕ) → FieldRel (Stands s) x y
      → FieldRel (Stands t) x y
  field_later s t h x y (one_key key {a = v} {b = r} e) = one_key key (Stands-later h v r e)

  entry_later :
      (s t : Writing)
      → Adds heap s t
      → (x : Value × Value) (y : ℕ × ℕ) → EntryRel (Stands s) x y
      → EntryRel (Stands t) x y
  entry_later s t h x y (entries {k = k} {a = v} {j = q} {b = r} d e) =
      entries (Stands-later h k q d) (Stands-later h v r e)

  pub parts-Writes :
      (c : Cell Value) (s : Writing)
      → HasInside bound c
      → IsReady heap bound limit s
      → Writes heap (λ t d. CellRel (Stands t) c d) s (write_parts w c s)
  unfolding write_parts
  parts-Writes (date t) s p k = at_once-Writes heap _ s (date t) k.0 (dates t)
  parts-Writes (regexp source flags) s p k =
      at_once-Writes heap _ s (regexp source flags) k.0 (regexps source flags)
  parts-Writes (array vs) s p k =
      made-Writes array (λ t ys h. arrays h)
        (each-Writes heap bound limit w (IsInside bound) Stands later_lem ok vs s p k)
  parts-Writes (object fs) s p k =
      made-Writes object (λ t ys h. objects h)
        (each-Writes heap bound limit (write_field w) (λ f. IsInside bound f.1)
          (λ t. FieldRel (Stands t)) field_later field-Writes fs s p k)
  parts-Writes (map_of es) s p k =
      made-Writes map_of (λ t ys h. maps h)
        (each-Writes heap bound limit (write_entry w) (λ e. IsInside bound e.0 × IsInside bound e.1)
          (λ t. EntryRel (Stands t)) entry_later entry-Writes es s p k)
  parts-Writes (set_of vs) s p k =
      made-Writes set_of (λ t ys h. sets h)
        (each-Writes heap bound limit w (IsInside bound) Stands later_lem ok vs s p k)
