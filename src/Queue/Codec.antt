-- ===== src/Queue/Codec.antt =====
-- packages/queue/src/codec.ts: the body of a message as a flat list of nodes, up to the text that
-- JSON.stringify writes and JSON.parse reads back.
-- A JavaScript value is a primitive, or the address of an object in a heap. A number is its JSON
-- text, so that there are the numbers which JSON can write. The fields of an object stand in the
-- order of Object.entries; the prototype of an object is left out. The list of nodes is a function of the
-- index with a size; a map with objects for keys is a function of the address.
pub mod Related
pub mod Written
pub mod Parts
pub mod Slot
pub mod Encoded
pub mod Read
pub mod Filled
pub mod RoundTrip
mod Tests
use hobbyist.Base.{
  ℕ, zero, suc, Bool, true, false, ◌==◌, Text, text_eq, codes, List, [], ◌∷◌, ◌++◌, map, Option,
  none, some, if◌then◌else◌,
}
use hobbyist.Base.TextMaps.{put}

pub data Prim : Type 0 where
  null : Prim
  boolean : Bool → Prim
  number : Text → Prim
  string : Text → Prim

pub data Value : Type 0 where
  undefined : Value
  prim : Prim → Value
  big : Text → Value
  ref : ℕ → Value

-- What an address holds, with `R` for what it refers to.
pub data Cell (R : Type 0) : Type 0 where
  date : Text → Cell R
  regexp : Text → Text → Cell R
  array : List R → Cell R
  object : List (Text × R) → Cell R
  map_of : List (R × R) → Cell R
  set_of : List R → Cell R

abbrev pub Heap : Type 0
Heap = ℕ → Cell Value

pub data Node : Type 0 where
  prim_node : Prim → Node
  undef_node : Node
  big_node : Text → Node
  cell_node : Cell ℕ → Node

pub record Writing : Type 0 where
  pub nodes : ℕ → Node
  pub size : ℕ
  pub seen : ℕ → Option ℕ

abbrev pub set_at : ℕ → Node → (ℕ → Node) → ℕ → Node
set_at i x nodes m = if m == i then x else nodes m

-- `nodes.push(node)`; the index of the node is the size before.
unfoldable pub push : Node → Writing → Writing
push x s = record s { nodes = set_at s.size x s.nodes; size = suc s.size }

-- `seen.set(input, index)` with the push.
unfoldable pub reserve : ℕ → Node → Writing → Writing
reserve a x s = record s {
  nodes = set_at s.size x s.nodes;
  size = suc s.size;
  seen = λ b. if b == a then some s.size else s.seen b;
}

-- The slot as it is reserved: a date and a regexp are whole, the others have nothing in them yet.
abbrev pub blank : Cell Value → Cell ℕ
blank (date t) = date t
blank (regexp source flags) = regexp source flags
blank (array vs) = array []
blank (object fs) = object []
blank (map_of es) = map_of []
blank (set_of vs) = set_of []

-- What a step that may run out of fuel gives, and the nodes that are written.
abbrev pub Step : Type 0 → Type 0 → Type 0
Step X Y = X → Writing → Option (Y × Writing)

-- A loop over the parts of a container.
unfoldable pub each : {X Y : Type 0} → Step X Y → List X → Writing → Option (List Y × Writing)
each step [] s = some ([], s)
each step (x ∷ xs) s = elim (step x s) [
  | none ↦ none
  | some (y, s') ↦ elim (each step xs s') [ none ↦ none | some (ys, s'') ↦ some (y ∷ ys, s'') ]
]

unfoldable pub write_field : Step Value ℕ → Step (Text × Value) (Text × ℕ)
write_field w (key, item) s = elim (w item s) [ none ↦ none | some (r, s') ↦ some ((key, r), s') ]

unfoldable pub write_entry : Step Value ℕ → Step (Value × Value) (ℕ × ℕ)
write_entry w (key, item) s = elim (w key s) [
  | none ↦ none
  | some (r, s') ↦ elim (w item s') [ none ↦ none | some (q, s'') ↦ some ((r, q), s'') ]
]

abbrev pub made : {X Y : Type 0} → (X → Y) → Option (X × Writing) → Option (Y × Writing)
made f none = none
made f (some (x, s)) = some (f x, s)

-- The content of a slot: the loop over the parts of the object. The source pushes each reference
-- into the node at once; nobody reads it meanwhile.
unfoldable pub write_parts : Step Value ℕ → Step (Cell Value) (Cell ℕ)
write_parts w (date t) s = some (date t, s)
write_parts w (regexp source flags) s = some (regexp source flags, s)
write_parts w (array vs) s = made array (each w vs s)
write_parts w (object fs) s = made object (each (write_field w) fs s)
write_parts w (map_of es) s = made map_of (each (write_entry w) es s)
write_parts w (set_of vs) s = made set_of (each w vs s)

abbrev pub fill : ℕ → Option (Cell ℕ × Writing) → Option (ℕ × Writing)
fill i none = none
fill i (some (c, s)) = some (i, record s { nodes = set_at i (cell_node c) s.nodes })

unfoldable pub write_object : Step Value ℕ → ℕ → Cell Value → Writing → Option (ℕ × Writing)
write_object w a c s = fill s.size (write_parts w c (reserve a (cell_node (blank c)) s))

-- `write`, on fuel: a call goes deeper only into an object that was not seen before.
unfoldable pub write : Heap → ℕ → Step Value ℕ
write heap fuel undefined s = some (s.size, push undef_node s)
write heap fuel (prim p) s = some (s.size, push (prim_node p) s)
write heap fuel (big t) s = some (s.size, push (big_node t) s)
write heap zero (ref a) s = none
write heap (suc fuel) (ref a) s = elim (s.seen a) [
  | some i ↦ some (i, s)
  | none ↦ write_object (write heap fuel) a (heap a) s
]

abbrev pub nothing_written : Writing
nothing_written = record { nodes = λ i. undef_node; size = 0; seen = λ a. none }

-- `encodeBody`, up to JSON.stringify. There are `bound` objects, so that their number and one is
-- fuel enough.
unfoldable pub encode_body : Heap → ℕ → Value → Option Writing
encode_body heap bound v = elim (write heap (suc bound) v nothing_written) [
  | none ↦ none
  | some (r, s) ↦ some s
]

-- What the first pass of `decodeBody` builds at an index: a leaf, or a new object, whose address is
-- the index.
unfoldable pub built : (ℕ → Node) → ℕ → Value
built nodes i = elim (nodes i) [
  | prim_node p ↦ prim p
  | undef_node ↦ undefined
  | big_node t ↦ big t
  | cell_node c ↦ ref i
]

unfoldable pub prim_eq : Prim → Prim → Bool
prim_eq null null = true
prim_eq (boolean true) (boolean true) = true
prim_eq (boolean false) (boolean false) = true
prim_eq (number t) (number u) = text_eq t u
prim_eq (string t) (string u) = text_eq t u
prim_eq p q = false

-- SameValueZero: primitives by their content, objects by their address.
unfoldable pub same_value : Value → Value → Bool
same_value undefined undefined = true
same_value (prim p) (prim q) = prim_eq p q
same_value (big t) (big u) = text_eq t u
same_value (ref a) (ref b) = a == b
same_value v w = false

-- `target[key] = v` on an ordinary object: what is assigned to `__proto__` is no property.
unfoldable pub assign : Text → Value → List (Text × Value) → List (Text × Value)
assign key v fields = if text_eq key (codes "__proto__") then fields else put key v fields

-- `Map.set` and `Set.add`.
unfoldable pub map_set : Value → Value → List (Value × Value) → List (Value × Value)
map_set k v [] = (k, v) ∷ []
map_set k v ((j, w) ∷ m) = if same_value j k then (j, v) ∷ m else (j, w) ∷ map_set k v m

unfoldable pub set_add : Value → List Value → List Value
set_add v [] = v ∷ []
set_add v (w ∷ m) = if same_value w v then w ∷ m else w ∷ set_add v m

module _ (nodes : ℕ → Node) where
  -- The loops of the second pass.
  unfoldable pub push_all : List ℕ → List Value → List Value
  push_all [] target = target
  push_all (r ∷ rs) target = push_all rs (target ++ built nodes r ∷ [])

  unfoldable pub assign_all : List (Text × ℕ) → List (Text × Value) → List (Text × Value)
  assign_all [] target = target
  assign_all ((key, r) ∷ fs) target = assign_all fs (assign key (built nodes r) target)

  unfoldable pub set_all : List (ℕ × ℕ) → List (Value × Value) → List (Value × Value)
  set_all [] target = target
  set_all ((k, r) ∷ es) target = set_all es (map_set (built nodes k) (built nodes r) target)

  unfoldable pub add_all : List ℕ → List Value → List Value
  add_all [] target = target
  add_all (r ∷ rs) target = add_all rs (set_add (built nodes r) target)

  unfoldable pub filled : Cell ℕ → Cell Value
  filled (date t) = date t
  filled (regexp source flags) = regexp source flags
  filled (array rs) = array (push_all rs [])
  filled (object fs) = object (assign_all fs [])
  filled (map_of es) = map_of (set_all es [])
  filled (set_of rs) = set_of (add_all rs [])

  -- The heap that `decodeBody` leaves, at the indices of objects; an index of a leaf holds nothing,
  -- and no value refers to it.
  unfoldable pub decoded_heap : Heap
  decoded_heap i = elim (nodes i) [ cell_node c ↦ filled c | _ ↦ array [] ]

  unfoldable pub decode_body : Heap × Value
  decode_body = (decoded_heap, built nodes 0)
