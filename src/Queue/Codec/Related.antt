-- ===== src/Queue/Codec/Related.antt =====
-- The cells of one graph and of another in step, part by part.
use hobbyist.Base.{Text, List, [], ◌∷◌}
use hobbyist.Queue.Codec.{Cell, date, regexp, array, object, map_of, set_of}

-- Two lists in step.
pub data Pairwise {X Y : Type 0} (Q : X → Y → Type 0) : List X → List Y → Type 0 where
  both_end : Pairwise Q [] []
  both :
      {x : X} {y : Y} {xs : List X} {ys : List Y}
      → Q x y
      → Pairwise Q xs ys
      → Pairwise Q (x ∷ xs) (y ∷ ys)

pub Pairwise-mono :
    {X Y : Type 0} {P Q : X → Y → Type 0} {xs : List X} {ys : List Y}
    → ((x : X) (y : Y) → P x y → Q x y)
    → Pairwise P xs ys
    → Pairwise Q xs ys
Pairwise-mono f both_end = both_end
Pairwise-mono f (both {x} {y} p h) = both (f x y p) (Pairwise-mono f h)

-- Fields of one key, and entries, by what they hold.
pub data FieldRel {A B : Type 0} (Q : A → B → Type 0) : Text × A → Text × B → Type 0 where
  one_key : (key : Text) {a : A} {b : B} → Q a b → FieldRel Q (key, a) (key, b)

pub data EntryRel {A B : Type 0} (Q : A → B → Type 0) : A × A → B × B → Type 0 where
  entries : {k a : A} {j b : B} → Q k j → Q a b → EntryRel Q (k, a) (j, b)

pub data CellRel {A B : Type 0} (Q : A → B → Type 0) : Cell A → Cell B → Type 0 where
  dates : (t : Text) → CellRel Q (date t) (date t)
  regexps : (source flags : Text) → CellRel Q (regexp source flags) (regexp source flags)
  arrays : {vs : List A} {rs : List B} → Pairwise Q vs rs → CellRel Q (array vs) (array rs)
  objects :
      {fs : List (Text × A)} {gs : List (Text × B)}
      → Pairwise (FieldRel Q) fs gs
      → CellRel Q (object fs) (object gs)
  maps :
      {es : List (A × A)} {gs : List (B × B)}
      → Pairwise (EntryRel Q) es gs
      → CellRel Q (map_of es) (map_of gs)
  sets : {vs : List A} {rs : List B} → Pairwise Q vs rs → CellRel Q (set_of vs) (set_of rs)

module _ {A B : Type 0} {P Q : A → B → Type 0} (f : (a : A) (b : B) → P a b → Q a b) where
  FieldRel-mono : (x : Text × A) (y : Text × B) → FieldRel P x y → FieldRel Q x y
  FieldRel-mono x y (one_key key {a} {b} p) = one_key key (f a b p)

  EntryRel-mono : (x : A × A) (y : B × B) → EntryRel P x y → EntryRel Q x y
  EntryRel-mono x y (entries {k} {a} {j} {b} p q) = entries (f k j p) (f a b q)

  pub CellRel-mono : {c : Cell A} {d : Cell B} → CellRel P c d → CellRel Q c d
  CellRel-mono (dates t) = dates t
  CellRel-mono (regexps source flags) = regexps source flags
  CellRel-mono (arrays h) = arrays (Pairwise-mono f h)
  CellRel-mono (objects h) = objects (Pairwise-mono FieldRel-mono h)
  CellRel-mono (maps h) = maps (Pairwise-mono EntryRel-mono h)
  CellRel-mono (sets h) = sets (Pairwise-mono f h)
