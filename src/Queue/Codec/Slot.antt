-- ===== src/Queue/Codec/Slot.antt =====
-- The slot of an object: reserved, and filled once its parts are written.
use hobbyist.Base.{
  ℕ, ◌≡◌, ◌≤◌, ◌<◌, ◌⊎◌, refl, sym, ap, subst, true, false, ◌==◌, ==_iff, Option, none, some, arith,
  Bool-cases, Option-cases, inl, inr,
}
use hobbyist.Queue.Codec.{
  Prim, Value, undefined, prim, big, ref, Cell, Heap, Node, cell_node, Writing, set_at, reserve,
  blank,
}
use hobbyist.Queue.Codec.Related.{CellRel, CellRel-mono}
use hobbyist.Queue.Codec.Written.{is_cell, Stands, IsDone, IsSound, Adds, mark, mark_keeps}

leaf_kept :
    (nodes : ℕ → Node) (i r : ℕ) (x y : Node)
    → nodes r ≡ x
    → is_cell x ≡ false
    → is_cell (nodes i) ≡ true
    → set_at i y nodes r ≡ x
leaf_kept nodes i r x y e leaf cell = elim (Bool-cases (r == i)) [
  | inl same ↦ absurd (ground (arith, e, leaf, cell, ap nodes ((==_iff r i).0 same)))
  | inr other ↦ rw other e
]

abbrev pub fill_in : ℕ → Cell ℕ → Writing → Writing
fill_in i c t = record t { nodes = set_at i (cell_node c) t.nodes }

fill-Stands :
    (t : Writing) (i : ℕ) (c : Cell ℕ) (v : Value) (r : ℕ)
    → is_cell (t.nodes i) ≡ true
    → Stands t v r
    → Stands (fill_in i c t) v r
fill-Stands t i c undefined r cell (e, k) = (leaf_kept t.nodes i r _ _ e refl cell, k)
fill-Stands t i c (prim p) r cell (e, k) = (leaf_kept t.nodes i r _ _ e refl cell, k)
fill-Stands t i c (big b) r cell (e, k) = (leaf_kept t.nodes i r _ _ e refl cell, k)
fill-Stands t i c (ref a) r cell e = e

marked :
    (a i : ℕ) (seen : ℕ → Option ℕ) (b j : ℕ)
    → mark a i seen b ≡ some j
    → ((b ≡ a) × (i ≡ j)) ⊎ (seen b ≡ some j)
marked a i seen b j e = elim (Bool-cases (b == a)) [
  | inl same ↦ inl ((==_iff b a).0 same, ground (arith, e, same))
  | inr other ↦ inr (ground (arith, e, other))
]

pub reserve-IsSound :
    (a : ℕ) (x : Node) (s : Writing) → s.seen a ≡ none → IsSound s → IsSound (reserve a x s)
unfolding reserve
reserve-IsSound a x s e h = record {
  below = λ b i f. elim (marked a s.size s.seen b i f) [
    | inl (this, at) ↦ omega (arith, at)
    | inr old ↦ omega (arith, h.below b i old)
  ];
  apart = λ b c i f g. elim (marked a s.size s.seen b i f) [
    | inl (this, at) ↦ elim (marked a s.size s.seen c i g) [
      | inl (that, at') ↦ omega (arith, this, that)
      | inr old ↦ absurd (omega (arith, at, h.below c i old))
    ]
    | inr old ↦ elim (marked a s.size s.seen c i g) [
      | inl (that, at') ↦ absurd (omega (arith, at', h.below b i old))
      | inr old' ↦ h.apart b c i old old'
    ]
  ];
}

-- The state behind the call that writes an object, `t` being the one behind its parts.
module _ (heap : Heap) (a : ℕ) (s t : Writing) (c : Cell ℕ) (new : s.seen a ≡ none)
    (adds : Adds heap (reserve a (cell_node (blank (heap a))) s) t)
    (parts : CellRel (Stands t) (heap a) c) where
  slot-is_cell : is_cell (t.nodes s.size) ≡ true
  unfolding reserve
  slot-is_cell = let slot = adds.keeps_nodes s.size (omega arith) in ground (arith, slot)

  pub slot-seen : t.seen a ≡ some s.size
  unfolding reserve
  slot-seen = adds.keeps_seen a s.size (ground arith)

  filled-IsDone : IsDone heap (fill_in s.size c t) a s.size
  filled-IsDone = record {
    cell = c;
    is_node = ground arith;
    parts = CellRel-mono (λ v r. fill-Stands t s.size c v r slot-is_cell) parts;
  }

  later-IsDone : (b i : ℕ) → s.size < i → IsDone heap t b i → IsDone heap (fill_in s.size c t) b i
  later-IsDone b i k d = record {
    cell = d.cell;
    is_node = ground (arith, k, d.is_node);
    parts = CellRel-mono (λ v r. fill-Stands t s.size c v r slot-is_cell) d.parts;
  }

  pub object-Adds : Adds heap s (fill_in s.size c t)
  unfolding reserve
  object-Adds = record {
    grows = omega (arith, adds.grows);
    keeps_nodes = λ r k. ground (arith, k, adds.keeps_nodes r (omega (arith, k)));
    keeps_seen = λ b i e. adds.keeps_seen b i (mark_keeps a s.size s.seen new b i e);
    first_seen = λ b i e f. elim (Option-cases (mark a s.size s.seen b)) [
      | inl late ↦
          let (from, below, d) = adds.first_seen b i late f in
          (omega (arith, from), below, later-IsDone b i from d)
      | inr (j, early) ↦ elim (marked a s.size s.seen b j early) [
        | inl (this, at) ↦
            let same : s.size ≡ i = ground (arith, f, slot-seen, ap t.seen this) in
            subst (λ n. (s.size ≤ n) × (n < t.size) × IsDone heap (fill_in s.size c t) b n) same
              (
                omega arith,
                omega (arith, adds.grows),
                subst (λ x. IsDone heap (fill_in s.size c t) x s.size) (sym this) filled-IsDone,
              )
        | inr old ↦ absurd (ground (arith, e, old))
      ]
    ];
  }
