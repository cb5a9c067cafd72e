-- ===== src/Queue/Codec/Written.antt =====
-- What `write` leaves: every object that is seen has its node, and is seen under one index alone.
use hobbyist.Base.{
  ℕ, zero, suc, ◌+◌, ◌≡◌, ◌≤◌, ◌<◌, refl, ap, subst, ◌∙◌, Bool, true, false, ◌==◌, ==_iff, List, [],
  ◌∷◌, All, Option, none, some, is_some, if◌then◌else◌, arith, Bool-cases, Option-cases, inl, inr,
}
use hobbyist.Queue.Codec.Related.{Pairwise, both_end, both, CellRel, CellRel-mono}
use hobbyist.Queue.Codec.{
  Prim, Value, undefined, prim, big, ref, Cell, Heap, Node, prim_node, undef_node, big_node,
  cell_node, Writing, Step, each,
}

abbrev pub is_cell : Node → Bool
is_cell (cell_node c) = true
is_cell _ = false

-- The index stands for the value.
abbrev pub Stands : Writing → Value → ℕ → Type 0
Stands s undefined r = (s.nodes r ≡ undef_node) × (r < s.size)
Stands s (prim p) r = (s.nodes r ≡ prim_node p) × (r < s.size)
Stands s (big t) r = (s.nodes r ≡ big_node t) × (r < s.size)
Stands s (ref a) r = s.seen a ≡ some r

-- The node at the index is that of the object.
pub record IsDone (heap : Heap) (s : Writing) (a i : ℕ) : Type 0 where
  pub cell : Cell ℕ
  pub is_node : s.nodes i ≡ cell_node cell
  pub parts : CellRel (Stands s) (heap a) cell

-- Every object that is seen has an index, and no other object has it.
pub record IsSound (s : Writing) : Type 0 where
  pub below : (a i : ℕ) → s.seen a ≡ some i → i < s.size
  pub apart : (a b i : ℕ) → s.seen a ≡ some i → s.seen b ≡ some i → a ≡ b

-- From `s` to `s'` a call of `write` has added nodes and objects; what it has seen first is done.
pub record Adds (heap : Heap) (s s' : Writing) : Type 0 where
  pub grows : s.size ≤ s'.size
  pub keeps_nodes : (r : ℕ) → r < s.size → s'.nodes r ≡ s.nodes r
  pub keeps_seen : (a i : ℕ) → s.seen a ≡ some i → s'.seen a ≡ some i
  pub first_seen :
      (a i : ℕ)
      → s.seen a ≡ none
      → s'.seen a ≡ some i
      → (s.size ≤ i) × (i < s'.size) × IsDone heap s' a i

pub Stands-later :
    {heap : Heap} {s s' : Writing}
    → Adds heap s s'
    → (v : Value) (r : ℕ) → Stands s v r
    → Stands s' v r
Stands-later h undefined r (e, k) = (h.keeps_nodes r k ∙ e, omega (arith, h.grows))
Stands-later h (prim p) r (e, k) = (h.keeps_nodes r k ∙ e, omega (arith, h.grows))
Stands-later h (big t) r (e, k) = (h.keeps_nodes r k ∙ e, omega (arith, h.grows))
Stands-later h (ref a) r e = h.keeps_seen a r e

pub IsDone-later :
    {heap : Heap} {s s' : Writing}
    → Adds heap s s'
    → (a i : ℕ) → i < s.size
    → IsDone heap s a i
    → IsDone heap s' a i
IsDone-later {heap} h a i k d = record {
  cell = d.cell;
  is_node = h.keeps_nodes i k ∙ d.is_node;
  parts = CellRel-mono (Stands-later h) d.parts;
}

pub Adds-nothing : (heap : Heap) (s : Writing) → Adds heap s s
Adds-nothing heap s = record {
  grows = omega arith;
  keeps_nodes = λ r k. refl;
  keeps_seen = λ a i e. e;
  first_seen = λ a i e f. absurd (ground (arith, e, f));
}

pub Adds-more : {heap : Heap} {s t u : Writing} → Adds heap s t → Adds heap t u → Adds heap s u
Adds-more {heap} {s} {t} {u} h k = record {
  grows = omega (arith, h.grows, k.grows);
  keeps_nodes = λ r b. k.keeps_nodes r (omega (arith, h.grows)) ∙ h.keeps_nodes r b;
  keeps_seen = λ a i e. k.keeps_seen a i (h.keeps_seen a i e);
  first_seen = λ a i e f. elim (Option-cases (t.seen a)) [
    | inl late ↦
        let (from, below, d) = k.first_seen a i late f in (omega (arith, h.grows), below, d)
    | inr (j, early) ↦
        let same : j ≡ i = ground (arith, k.keeps_seen a j early, f) in
        let (from, below, d) = h.first_seen a j e early in
        subst (λ n. (s.size ≤ n) × (n < u.size) × IsDone heap u a n) same
          (from, omega (arith, k.grows), IsDone-later k a j below d)
  ];
}

-- How many of the first objects are not seen yet.
abbrev pub unseen : ℕ → (ℕ → Option ℕ) → ℕ
unseen zero seen = 0
unseen (suc n) seen = (if is_some (seen n) then 0 else 1) + unseen n seen

unseen-le :
    (n : ℕ) (seen seen' : ℕ → Option ℕ)
    → ((a i : ℕ) → seen a ≡ some i → seen' a ≡ some i)
    → unseen n seen' ≤ unseen n seen
unseen-le zero seen seen' h = omega arith
unseen-le (suc n) seen seen' h = elim (Option-cases (seen n)) [
  | inl new ↦ ground (arith, new, unseen-le n seen seen' h)
  | inr (i, old) ↦ ground (arith, old, h n i old, unseen-le n seen seen' h)
]

-- The objects that are seen, with one more.
abbrev pub mark : ℕ → ℕ → (ℕ → Option ℕ) → ℕ → Option ℕ
mark a i seen b = if b == a then some i else seen b

pub mark_keeps :
    (a i : ℕ) (seen : ℕ → Option ℕ)
    → seen a ≡ none
    → (b j : ℕ) → seen b ≡ some j
    → mark a i seen b ≡ some j
mark_keeps a i seen e b j f = elim (Bool-cases (b == a)) [
  | inl same ↦ absurd (ground (arith, e, f, ap seen ((==_iff b a).0 same)))
  | inr other ↦ rw other f
]

pub unseen-mark :
    (n a i : ℕ) (seen : ℕ → Option ℕ)
    → a < n
    → seen a ≡ none
    → unseen n (mark a i seen) < unseen n seen
unseen-mark zero a i seen k e = absurd (omega (arith, k))
unseen-mark (suc n) a i seen k e = elim (Bool-cases (n == a)) [
  | inl here ↦
      let free : seen n ≡ none = ap seen ((==_iff n a).0 here) ∙ e in
      ground (arith, here, free, unseen-le n seen (mark a i seen) (mark_keeps a i seen e))
  | inr there ↦ ground (arith, there, unseen-mark n a i seen (ground (arith, there, k)) e)
]

-- A step that comes to its end, and what holds of its result.
pub record Writes {Y : Type 0} (heap : Heap) (Q : Writing → Y → Type 0) (s : Writing)
    (o : Option (Y × Writing)) : Type 0 where
  pub result : Y
  pub after : Writing
  pub ends : o ≡ some (result, after)
  pub adds : Adds heap s after
  pub sound : IsSound after
  pub holds : Q after result

each-cons :
    {X Y : Type 0} (step : Step X Y) (x : X) (xs : List X) (y : Y) (ys : List Y) (s t u : Writing)
    → step x s ≡ some (y, t)
    → each step xs t ≡ some (ys, u)
    → each step (x ∷ xs) s ≡ some (y ∷ ys, u)
unfolding each
each-cons step x xs y ys s t u e f = rw (each, e, f) refl

module _ (heap : Heap) (bound limit : ℕ) where
  abbrev pub IsReady : Writing → Type 0
  IsReady s = IsSound s × (unseen bound s.seen < limit)

  pub IsReady-after : {s t : Writing} → IsReady s → Adds heap s t → IsSound t → IsReady t
  IsReady-after {s} {t} (sound, few) h k =
      (k, omega (arith, few, unseen-le bound s.seen t.seen h.keeps_seen))

  module _ {X Y : Type 0} (step : Step X Y) (P : X → Type 0) (Q : Writing → X → Y → Type 0)
      (later : (s t : Writing) → Adds heap s t → (x : X) (y : Y) → Q s x y → Q t x y)
      (ok : (x : X) (s : Writing)
        → P x
        → IsReady s
        → Writes heap (λ t y. Q t x y) s (step x s)) where
    pub each-Writes :
        (xs : List X) (s : Writing)
        → All P xs
        → IsReady s
        → Writes heap (λ t ys. Pairwise (Q t) xs ys) s (each step xs s)
    unfolding each
    each-Writes [] s h k = record {
      result = [];
      after = s;
      ends = refl;
      adds = Adds-nothing heap s;
      sound = k.0;
      holds = both_end;
    }
    each-Writes (x ∷ xs) s (p, h) k =
        let first = ok x s p k in
        let rest = each-Writes xs first.after h (IsReady-after k first.adds first.sound) in
        record {
          result = first.result ∷ rest.result;
          after = rest.after;
          ends = each-cons step x xs _ _ s _ _ first.ends rest.ends;
          adds = Adds-more first.adds rest.adds;
          sound = rest.sound;
          holds =
              both (later first.after rest.after rest.adds x first.result first.holds) rest.holds;
        }
