-- ===== src/Queue/Codec/Read.antt =====
-- What the second pass of `decodeBody` makes of the nodes: the loops over distinct parts copy them.
use hobbyist.Base.{
  ℕ, ◌≡◌, refl, sym, ap, ◌∙◌, subst, Bool, false, ◌==◌, ==_iff, Text, text_eq, codes, List, [], ◌∷◌,
  ◌++◌, append_assoc, append-nil, All, Option, some, arith, Bool-cases, inl, inr,
}
use hobbyist.Base.TextMaps.{put}
use hobbyist.Queue.Codec.{
  Prim, Value, undefined, prim, big, ref, Cell, object, map_of, set_of, same_value, assign, map_set,
  set_add,
}
use hobbyist.Queue.Codec.Related.{Pairwise, both_end, both, FieldRel, one_key, EntryRel, entries}

-- No two of the list are the same.
abbrev pub Apart : {X : Type 0} → (X → X → Bool) → List X → Type 0
Apart same [] = Unit
Apart same (x ∷ xs) = All (λ y. same x y ≡ false) xs × Apart same xs

Apart-front :
    {X : Type 0} (same : X → X → Bool) (m : List X) (x : X) (xs : List X)
    → Apart same (m ++ x ∷ xs)
    → All (λ y. same y x ≡ false) m
Apart-front same [] x xs h = tt
Apart-front same (y ∷ m) x xs (h, d) = (middle m h, Apart-front same m x xs d)
  where
    middle : (m : List _) → All (λ z. same y z ≡ false) (m ++ x ∷ xs) → same y x ≡ false
    middle [] (e, h) = e
    middle (z ∷ m) (e, h) = middle m h

unfoldable pub insert_all : {X : Type 0} → (X → List X → List X) → List X → List X → List X
insert_all insert [] m = m
insert_all insert (x ∷ xs) m = insert_all insert xs (insert x m)

-- A loop that inserts what is not the same as anything before appends.
insert_all-append :
    {X : Type 0} (same : X → X → Bool) (P : X → Type 0) (insert : X → List X → List X)
    → ((x : X) (m : List X) → P x → All (λ y. same y x ≡ false) m → insert x m ≡ m ++ x ∷ [])
    → (xs m : List X) → All P xs
    → Apart same (m ++ xs)
    → insert_all insert xs m ≡ m ++ xs
unfolding insert_all
insert_all-append same P insert ok [] m p d = sym (append-nil m)
insert_all-append same P insert ok (x ∷ xs) m (q, p) d =
    let moved : m ++ x ∷ xs ≡ (m ++ x ∷ []) ++ xs = sym (append_assoc m (x ∷ []) xs) in
    ap (insert_all insert xs) (ok x m q (Apart-front same m x xs d))
    ∙ insert_all-append same P insert ok xs (m ++ x ∷ []) p (subst (Apart same) moved d)
    ∙ sym moved

module _ {X Y : Type 0} {R : X → Y → Type 0} (same : X → X → Bool) (same' : Y → Y → Bool)
    (f : (x x' : X) (y y' : Y) → R x y → R x' y' → same x x' ≡ same' y y') where
  each_image :
      {x : X} {y : Y} {xs : List X} {ys : List Y}
      → R x y
      → Pairwise R xs ys
      → All (λ z. same x z ≡ false) xs
      → All (λ z. same' y z ≡ false) ys
  each_image p both_end h = tt
  each_image {x} {y} p (both {x = x'} {y = y'} q qs) (e, h) =
      (sym (f x x' y y' p q) ∙ e, each_image p qs h)

  Apart-image : {xs : List X} {ys : List Y} → Pairwise R xs ys → Apart same xs → Apart same' ys
  Apart-image both_end d = tt
  Apart-image (both p h) (e, d) = (each_image p h e, Apart-image h d)

abbrev pub proto : Text
proto = codes "__proto__"

put-append :
    (x : Text × Value) (m : List (Text × Value))
    → All (λ y. text_eq y.0 x.0 ≡ false) m
    → put x.0 x.1 m ≡ m ++ x ∷ []
unfolding put
put-append x [] h = refl
put-append x (y ∷ m) (e, h) = ground (arith, e, put-append x m h)

pub assign-append :
    (x : Text × Value) (m : List (Text × Value))
    → text_eq x.0 proto ≡ false
    → All (λ y. text_eq y.0 x.0 ≡ false) m
    → assign x.0 x.1 m ≡ m ++ x ∷ []
unfolding assign
assign-append x m q h = rw q (put-append x m h)

pub map_set-append :
    (x : Value × Value) (m : List (Value × Value))
    → All (λ y. same_value y.0 x.0 ≡ false) m
    → map_set x.0 x.1 m ≡ m ++ x ∷ []
unfolding map_set
map_set-append x [] h = refl
map_set-append x (y ∷ m) (e, h) = ground (arith, e, map_set-append x m h)

pub set_add-append :
    (v : Value) (m : List Value) → All (λ w. same_value w v ≡ false) m → set_add v m ≡ m ++ v ∷ []
unfolding set_add
set_add-append v [] h = refl
set_add-append v (w ∷ m) (e, h) = ground (arith, e, set_add-append v m h)

-- What the copy has for a value: the same primitive, or the address of the copied object.
abbrev pub Means : (ℕ → Option ℕ) → Value → Value → Type 0
Means address undefined v = v ≡ undefined
Means address (prim p) v = v ≡ prim p
Means address (big t) v = v ≡ big t
Means address (ref a) v = (i : ℕ) × (address a ≡ some i) × (v ≡ ref i)

-- The parts that JavaScript keeps apart are: the keys of an object, none of which is `__proto__`, those
-- of a map, and the members of a set.
abbrev pub IsValid : Cell Value → Type 0
IsValid (object fs) = All (λ f. text_eq f.0 proto ≡ false) fs × Apart (λ f g. text_eq f.0 g.0) fs
IsValid (map_of es) = Apart (λ d e. same_value d.0 e.0) es
IsValid (set_of vs) = Apart same_value vs
IsValid _ = Unit

module _ (address : ℕ → Option ℕ)
    (apart : (a b i : ℕ) → address a ≡ some i → address b ≡ some i → a ≡ b) where
  eq_addresses : (a b i j : ℕ) → address a ≡ some i → address b ≡ some j → (a == b) ≡ (i == j)
  eq_addresses a b i j d f = elim (Bool-cases (a == b)) [
    | inl same ↦ let one : a ≡ b = (==_iff a b).0 same in ground (arith, d, f, ap address one)
    | inr other ↦ elim (Bool-cases (i == j)) [
      | inl same ↦
          let one : i ≡ j = (==_iff i j).0 same in
          absurd (ground (arith, other, apart a b j (d ∙ ap some one) f))
      | inr different ↦ other ∙ sym different
    ]
  ]

  -- Values are the same exactly when their copies are.
  pub same_lem :
      (v w v' w' : Value)
      → Means address v v'
      → Means address w w'
      → same_value v w ≡ same_value v' w'
  unfolding same_value
  same_lem undefined undefined v' w' e f = rw (e, f) refl
  same_lem undefined (prim q) v' w' e f = rw (e, f) refl
  same_lem undefined (big u) v' w' e f = rw (e, f) refl
  same_lem undefined (ref b) v' w' e (j, f, g) = rw (e, g) refl
  same_lem (prim p) undefined v' w' e f = rw (e, f) refl
  same_lem (prim p) (prim q) v' w' e f = rw (e, f) refl
  same_lem (prim p) (big u) v' w' e f = rw (e, f) refl
  same_lem (prim p) (ref b) v' w' e (j, f, g) = rw (e, g) refl
  same_lem (big t) undefined v' w' e f = rw (e, f) refl
  same_lem (big t) (prim q) v' w' e f = rw (e, f) refl
  same_lem (big t) (big u) v' w' e f = rw (e, f) refl
  same_lem (big t) (ref b) v' w' e (j, f, g) = rw (e, g) refl
  same_lem (ref a) undefined v' w' (i, d, e) f = rw (e, f) refl
  same_lem (ref a) (prim q) v' w' (i, d, e) f = rw (e, f) refl
  same_lem (ref a) (big u) v' w' (i, d, e) f = rw (e, f) refl
  same_lem (ref a) (ref b) v' w' (i, d, e) (j, f, g) = rw (e, g) (eq_addresses a b i j d f)

  pub same_key :
      (x x' : Text × Value) (y y' : Text × Value)
      → FieldRel (Means address) x y
      → FieldRel (Means address) x' y'
      → text_eq x.0 x'.0 ≡ text_eq y.0 y'.0
  same_key x x' y y' (one_key key p) (one_key key' p') = refl

  pub same_map_key :
      (x x' : Value × Value) (y y' : Value × Value)
      → EntryRel (Means address) x y
      → EntryRel (Means address) x' y'
      → same_value x.0 x'.0 ≡ same_value y.0 y'.0
  same_map_key x x' y y' (entries {k} {a} {j} {b} p q)
        (entries {k = k'} {a = a'} {j = j'} {b = b'} p' q') =
      same_lem k k' j j' p p'

  -- A loop of the second pass over the images of distinct parts copies them.
  pub copied_lem :
      {X Y : Type 0} {R : X → Y → Type 0} (same : X → X → Bool) (same' : Y → Y → Bool)
      (P : Y → Type 0) (insert : Y → List Y → List Y)
      → ((x x' : X) (y y' : Y) → R x y → R x' y' → same x x' ≡ same' y y')
      → ((y : Y) (m : List Y) → P y → All (λ z. same' z y ≡ false) m → insert y m ≡ m ++ y ∷ [])
      → {xs : List X} {ys : List Y} → Pairwise R xs ys
      → Apart same xs
      → All P ys
      → insert_all insert ys [] ≡ ys
  copied_lem same same' P insert f ok {ys} h d p =
      insert_all-append same' P insert ok ys [] p (Apart-image same same' f h d)
