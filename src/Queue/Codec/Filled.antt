-- ===== src/Queue/Codec/Filled.antt =====
-- The loops of the second pass of `decodeBody`, part by part.
use hobbyist.Base.{
  ℕ, ◌≡◌, refl, sym, ◌∙◌, subst, false, Text, text_eq, List, [], ◌∷◌, ◌++◌, map, append_assoc,
  append-nil, All, Option, some,
}
use hobbyist.Queue.Codec.{
  Value, Cell, array, object, map_of, set_of, Node, built, same_value, assign, map_set, set_add,
  push_all, assign_all, set_all, add_all, filled,
}
use hobbyist.Queue.Codec.Related.{
  Pairwise, both_end, both, FieldRel, one_key, EntryRel, entries, CellRel, dates, regexps, arrays,
  objects, maps, sets,
}
use hobbyist.Queue.Codec.Read.{
  insert_all, proto, assign-append, map_set-append, set_add-append, Means, IsValid, same_lem,
  same_key, same_map_key, copied_lem,
}

module _ (nodes : ℕ → Node) where
  abbrev field_of : Text × ℕ → Text × Value
  field_of g = (g.0, built nodes g.1)

  abbrev entry_of : ℕ × ℕ → Value × Value
  entry_of g = (built nodes g.0, built nodes g.1)

  push_all-map : (rs : List ℕ) (t : List Value) → push_all nodes rs t ≡ t ++ map (built nodes) rs
  unfolding push_all
  push_all-map [] t = sym (append-nil t)
  push_all-map (r ∷ rs) t =
      push_all-map rs (t ++ built nodes r ∷ [])
      ∙ append_assoc t (built nodes r ∷ []) (map (built nodes) rs)

  assign_all-insert_all :
      (gs : List (Text × ℕ)) (t : List (Text × Value))
      → assign_all nodes gs t ≡ insert_all (λ x. assign x.0 x.1) (map field_of gs) t
  unfolding assign_all insert_all
  assign_all-insert_all [] t = refl
  assign_all-insert_all ((key, r) ∷ gs) t = assign_all-insert_all gs (assign key (built nodes r) t)

  set_all-insert_all :
      (gs : List (ℕ × ℕ)) (t : List (Value × Value))
      → set_all nodes gs t ≡ insert_all (λ x. map_set x.0 x.1) (map entry_of gs) t
  unfolding set_all insert_all
  set_all-insert_all [] t = refl
  set_all-insert_all ((k, r) ∷ gs) t =
      set_all-insert_all gs (map_set (built nodes k) (built nodes r) t)

  add_all-insert_all :
      (rs : List ℕ) (t : List Value)
      → add_all nodes rs t ≡ insert_all set_add (map (built nodes) rs) t
  unfolding add_all insert_all
  add_all-insert_all [] t = refl
  add_all-insert_all (r ∷ rs) t = add_all-insert_all rs (set_add (built nodes r) t)

Pairwise-map :
    {X Y Z : Type 0} {P : X → Y → Type 0} {Q : X → Z → Type 0} {xs : List X} {ys : List Y}
    (f : Y → Z)
    → ((x : X) (y : Y) → P x y → Q x (f y))
    → Pairwise P xs ys
    → Pairwise Q xs (map f ys)
Pairwise-map f g both_end = both_end
Pairwise-map f g (both {x} {y} p h) = both (g x y p) (Pairwise-map f g h)

All-unit : {X : Type 0} (xs : List X) → All {0, 0} (λ x. Unit) xs
All-unit [] = tt
All-unit (x ∷ xs) = (tt, All-unit xs)

-- The keys of the copied fields are those of the fields.
keys_lem :
    {A B : Type 0} {Q : A → B → Type 0} {xs : List (Text × A)} {ys : List (Text × B)}
    (P : Text → Type 0)
    → Pairwise (FieldRel Q) xs ys
    → All (λ x. P x.0) xs
    → All (λ y. P y.0) ys
keys_lem P both_end h = tt
keys_lem P (both (one_key key q) h) (p, k) = (p, keys_lem P h k)

module _ (address : ℕ → Option ℕ) (nodes : ℕ → Node) (R : Value → ℕ → Type 0)
    (apart : (a b i : ℕ) → address a ≡ some i → address b ≡ some i → a ≡ b)
    (copy : (v : Value) (r : ℕ) → R v r → Means address v (built nodes r)) where
  field-copy :
      (x : Text × Value) (y : Text × ℕ)
      → FieldRel R x y
      → FieldRel (Means address) x (field_of nodes y)
  field-copy x y (one_key key {a} {b} p) = one_key key (copy a b p)

  entry-copy :
      (x : Value × Value) (y : ℕ × ℕ)
      → EntryRel R x y
      → EntryRel (Means address) x (entry_of nodes y)
  entry-copy x y (entries {k} {a} {j} {b} p q) = entries (copy k j p) (copy a b q)

  -- A filled object has the copies of the parts, in their order.
  pub filled_lem :
      (c : Cell Value) (d : Cell ℕ)
      → CellRel R c d
      → IsValid c
      → CellRel (Means address) c (filled nodes d)
  unfolding filled
  filled_lem c d (dates t) k = dates t
  filled_lem c d (regexps source flags) k = regexps source flags
  filled_lem c d (arrays {rs} h) k =
      subst (λ ws. CellRel (Means address) c (array ws)) (sym (push_all-map nodes rs []))
        (arrays (Pairwise-map (built nodes) copy h))
  filled_lem c d (objects {gs} h) (fine, k) =
      let image = Pairwise-map (field_of nodes) field-copy h in
      let same =
        assign_all-insert_all nodes gs []
        ∙ copied_lem address apart (λ f g. text_eq f.0 g.0) (λ f g. text_eq f.0 g.0)
            (λ f. text_eq f.0 proto ≡ false) (λ f. assign f.0 f.1) (same_key address apart)
            assign-append image k (keys_lem (λ key. text_eq key proto ≡ false) image fine) in
      subst (λ ws. CellRel (Means address) c (object ws)) (sym same) (objects image)
  filled_lem c d (maps {gs} h) k =
      let image = Pairwise-map (entry_of nodes) entry-copy h in
      let same =
        set_all-insert_all nodes gs []
        ∙ copied_lem address apart (λ f g. same_value f.0 g.0) (λ f g. same_value f.0 g.0)
            (λ f. Unit {0}) (λ f. map_set f.0 f.1) (same_map_key address apart)
            (λ y m p. map_set-append y m) image k (All-unit (map (entry_of nodes) gs)) in
      subst (λ ws. CellRel (Means address) c (map_of ws)) (sym same) (maps image)
  filled_lem c d (sets {rs} h) k =
      let image = Pairwise-map (built nodes) copy h in
      let same =
        add_all-insert_all nodes rs []
        ∙ copied_lem address apart same_value same_value (λ f. Unit {0}) set_add
            (same_lem address apart) (λ y m p. set_add-append y m) image k
            (All-unit (map (built nodes) rs)) in
      subst (λ ws. CellRel (Means address) c (set_of ws)) (sym same) (sets image)
