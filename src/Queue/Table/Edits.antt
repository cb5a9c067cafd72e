-- ===== src/Queue/Table/Edits.antt =====
-- Statements that change rows one by one, as one pass over the table.
use hobbyist.Base.{
  true, false, ◌≡◌, refl, sym, ◌∙◌, Text, text_eq, text_eq_iff, [], ◌∷◌, Option, none, some, arith,
  inl, inr, ◌⊎◌, Bool-cases, Option-cases,
}
use hobbyist.Queue.Message.{Row}
use hobbyist.Queue.Table.{Table, has_id, find_row, update_where, delete_where, HasDistinctIds}

-- What a statement makes of a row: `none` deletes it.
abbrev pub Edit : Type 0
Edit = Row → Option Row

-- One pass over the table.
unfoldable pub pass : Edit → Table → Table
pass f [] = []
pass f (r ∷ t) = elim (f r) [ none ↦ pass f t | some r' ↦ r' ∷ pass f t ]

-- The rows with one id alone.
abbrev pub only : Text → Edit → Edit
only id f r = elim (text_eq r.id id) [ true ↦ f r | false ↦ some r ]

pub update_where-pass :
    (id : Text) (f : Row → Row) (t : Table)
    → update_where id f t ≡ pass (only id (λ r. some (f r))) t
unfolding update_where pass
update_where-pass id f [] = refl
update_where-pass id f (r ∷ t) = ground (arith, update_where-pass id f t)

pub delete_where-pass : (id : Text) (t : Table) → delete_where id t ≡ pass (only id (λ _. none)) t
unfolding delete_where pass
delete_where-pass id [] = refl
delete_where-pass id (r ∷ t) = ground (arith, delete_where-pass id t)

-- The edits of the rows in the first list, by id, one after the other.
unfoldable pub edit_all : (Row → Edit) → Table → Table → Table
edit_all act [] t = t
edit_all act (s ∷ rows) t = edit_all act rows (pass (only s.id (act s)) t)

-- The same in one pass: each row is edited by the row of the list that has its id.
unfoldable pub edit_found : (Row → Edit) → Table → Edit
edit_found act rows r = elim (find_row r.id rows) [ none ↦ some r | some s ↦ act s r ]

-- An edit leaves the id of a row that it keeps.
abbrev pub KeepsIds : (Row → Edit) → Type 0
KeepsIds act = (s r r' : Row) → act s r ≡ some r' → r'.id ≡ r.id

pub find_row-none : (id : Text) (t : Table) → has_id id t ≡ false → find_row id t ≡ none
unfolding find_row
find_row-none id [] h = refl
find_row-none id (r ∷ t) h = ground (arith, find_row-none id t)

pass-cong : (f g : Edit) (t : Table) → ((r : Row) → f r ≡ g r) → pass f t ≡ pass g t
unfolding pass
pass-cong f g [] h = refl
pass-cong f g (r ∷ t) h = ground (arith, h r, pass-cong f g t h)

-- The first edit, then the second on what it keeps.
abbrev then_edit : Edit → Edit → Edit
then_edit f g r = elim (f r) [ none ↦ none | some r' ↦ g r' ]

pass-pass : (f g : Edit) (t : Table) → pass g (pass f t) ≡ pass (then_edit f g) t
unfolding pass
pass-pass f g [] = refl
pass-pass f g (r ∷ t) = ground (arith, pass-pass f g t)

pass_none : (t : Table) → pass (λ r. some r) t ≡ t
unfolding pass
pass_none [] = refl
pass_none (r ∷ t) = ground (arith, pass_none t)

edit_found-cons :
    (act : Row → Edit) (s : Row) (rows : Table) (r : Row)
    → KeepsIds act
    → has_id s.id rows ≡ false
    → then_edit (only s.id (act s)) (edit_found act rows) r ≡ edit_found act (s ∷ rows) r
unfolding edit_found find_row
edit_found-cons act s rows r k h = elim (Bool-cases (text_eq r.id s.id)) [
  | inl hit ↦ found (Option-cases (act s r)) ((text_eq_iff _ _).0 hit)
  | inr miss ↦ ground (arith, text_eq_iff r.id s.id, text_eq_iff s.id r.id)
]
  where
    found :
        (act s r ≡ none) ⊎ ((r' : Row) × (act s r ≡ some r'))
        → r.id ≡ s.id
        → then_edit (only s.id (act s)) (edit_found act rows) r ≡ edit_found act (s ∷ rows) r
    found (inl gone) e = ground (arith, text_eq_iff r.id s.id, text_eq_iff s.id r.id)
    found (inr (r', kept)) e = ground (
      arith,
      text_eq_iff r.id s.id,
      text_eq_iff s.id r.id,
      k s r r' kept,
      find_row-none s.id rows h,
    )

-- Row by row, or in one pass.
pub edit_all-pass :
    (act : Row → Edit) (rows t : Table)
    → KeepsIds act
    → HasDistinctIds rows
    → edit_all act rows t ≡ pass (edit_found act rows) t
unfolding edit_all
edit_all-pass act [] t k d = sym (empty t)
  where
    empty : (t : Table) → pass (edit_found act []) t ≡ t
    empty t = pass-cong (edit_found act []) (λ r. some r) t (λ r. none_found r) ∙ pass_none t
      where
        none_found : (r : Row) → edit_found act [] r ≡ some r
        none_found r = unfold edit_found find_row in refl
edit_all-pass act (s ∷ rows) t k (h, d) =
    edit_all-pass act rows (pass (only s.id (act s)) t) k d
    ∙ pass-pass (only s.id (act s)) (edit_found act rows) t
    ∙ pass-cong _ _ t (λ r. edit_found-cons act s rows r k h)
