-- ===== src/Queue/Table.antt =====
-- The statements of packages/queue/src/broker.ts as operations on the table `messages`, a list of
-- rows in sqlite's own order.
pub mod Edits
pub mod Select
use hobbyist.Base.{
  ℕ, Bool, true, false, ◌||◌, ◌≡◌, Text, text_eq, text_lt, List, [], ◌∷◌, ◌++◌, Option, none, some,
  ltb, leb, if◌then◌else◌, any, All,
}
use hobbyist.Queue.Message.{Row}

abbrev pub Table : Type 0
Table = List Row

abbrev pub has_id : Text → Table → Bool
has_id id = any (λ r. text_eq r.id id)

-- `SELECT … WHERE id = ?`.
unfoldable pub find_row : Text → Table → Option Row
find_row id [] = none
find_row id (r ∷ t) = if text_eq r.id id then some r else find_row id t

-- `UPDATE messages SET … WHERE id = ?`.
unfoldable pub update_where : Text → (Row → Row) → Table → Table
update_where id f [] = []
update_where id f (r ∷ t) = (if text_eq r.id id then f r else r) ∷ update_where id f t

-- `DELETE FROM messages WHERE id = ?`.
unfoldable pub delete_where : Text → Table → Table
delete_where id [] = []
delete_where id (r ∷ t) = if text_eq r.id id then delete_where id t else r ∷ delete_where id t

-- `INSERT INTO messages`: `none` is the refusal of a second row with the primary key.
unfoldable pub insert_row : Row → Table → Option Table
insert_row r t = if has_id r.id t then none else some (t ++ r ∷ [])

-- `INSERT OR IGNORE INTO messages`.
unfoldable pub insert_or_ignore : Row → Table → Table
insert_or_ignore r t = if has_id r.id t then t else t ++ r ∷ []

unfoldable pub insert_by_id : Row → Table → Table
insert_by_id r [] = r ∷ []
insert_by_id r (s ∷ t) = if text_lt r.id s.id then r ∷ s ∷ t else s ∷ insert_by_id r t

-- `ORDER BY id`.
unfoldable pub order_by_id : Table → Table
order_by_id [] = []
order_by_id (r ∷ t) = insert_by_id r (order_by_id t)

-- A comparison with a column that is NULL selects nothing.
abbrev pub is_after : Option ℕ → ℕ → Bool
is_after none now = false
is_after (some at) now = ltb now at

abbrev pub is_by : Option ℕ → ℕ → Bool
is_by none now = false
is_by (some at) now = leb at now

abbrev pub is_lease : Option Text → Text → Bool
is_lease none lease = false
is_lease (some l) lease = text_eq l lease

-- The primary key.
abbrev pub HasDistinctIds : Table → Type 0
HasDistinctIds [] = Unit
HasDistinctIds (r ∷ t) = (has_id r.id t ≡ false) × HasDistinctIds t
