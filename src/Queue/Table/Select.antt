-- ===== src/Queue/Table/Select.antt =====
-- What a SELECT returns, and the statements that change the rows it returned.
use hobbyist.Base.{
  suc, Bool, true, false, ◌≡◌, refl, sym, ap, ◌∙◌, subst, Text, text_eq, text_eq_iff, text_eq_self,
  text_eq_comm, [], ◌∷◌, none, some, if◌then◌else◌, All, All-mono, arith, keep, inl, inr,
  Bool-cases, length, ◌||◌,
}
use hobbyist.Queue.Message.{Row}
use hobbyist.Queue.Table.{Table, has_id, find_row, insert_by_id, order_by_id, HasDistinctIds}
use hobbyist.Queue.Table.Edits.{
  Edit, pass, edit_all, edit_found, KeepsIds, edit_all-pass, find_row-none,
}

pass-cong_all : (f g : Edit) (t : Table) → All (λ r. f r ≡ g r) t → pass f t ≡ pass g t
unfolding pass
pass-cong_all f g [] h = refl
pass-cong_all f g (r ∷ t) (e, h) = ground (arith, pass-cong_all f g t h)

pub has_id-keep :
    (id : Text) (p : Row → Bool) (t : Table) → has_id id t ≡ false → has_id id (keep p t) ≡ false
has_id-keep id p [] h = refl
has_id-keep id p (r ∷ t) h = ground (arith, has_id-keep id p t)

pub keep-HasDistinctIds :
    (p : Row → Bool) (t : Table) → HasDistinctIds t → HasDistinctIds (keep p t)
keep-HasDistinctIds p [] d = tt
keep-HasDistinctIds p (r ∷ t) (h, d) =
    ground (arith, keep-HasDistinctIds p t d, has_id-keep r.id p t h)

has_id-insert_by_id :
    (id : Text) (r : Row) (t : Table)
    → has_id id (insert_by_id r t) ≡ (text_eq r.id id || has_id id t)
unfolding insert_by_id
has_id-insert_by_id id r [] = refl
has_id-insert_by_id id r (s ∷ t) = ground (arith, has_id-insert_by_id id r t)

pub has_id-order_by_id : (id : Text) (t : Table) → has_id id (order_by_id t) ≡ has_id id t
unfolding order_by_id
has_id-order_by_id id [] = refl
has_id-order_by_id id (r ∷ t) =
    ground (arith, has_id-insert_by_id id r (order_by_id t), has_id-order_by_id id t)

insert_by_id-HasDistinctIds :
    (r : Row) (t : Table)
    → has_id r.id t ≡ false
    → HasDistinctIds t
    → HasDistinctIds (insert_by_id r t)
unfolding insert_by_id
insert_by_id-HasDistinctIds r [] h d = (refl, tt)
insert_by_id-HasDistinctIds r (s ∷ t) h (k, d) =
    ground
      (arith, insert_by_id-HasDistinctIds r t, has_id-insert_by_id s.id r t, text_eq_comm r.id s.id)

pub order_by_id-HasDistinctIds : (t : Table) → HasDistinctIds t → HasDistinctIds (order_by_id t)
unfolding order_by_id
order_by_id-HasDistinctIds [] d = tt
order_by_id-HasDistinctIds (r ∷ t) (h, d) =
    insert_by_id-HasDistinctIds r (order_by_id t) (has_id-order_by_id r.id t ∙ h)
      (order_by_id-HasDistinctIds t d)

find_row-insert_by_id :
    (id : Text) (r : Row) (t : Table)
    → has_id r.id t ≡ false
    → find_row id (insert_by_id r t) ≡ (if text_eq r.id id then some r else find_row id t)
unfolding insert_by_id find_row
find_row-insert_by_id id r [] h = refl
find_row-insert_by_id id r (s ∷ t) h = ground (
  arith,
  find_row-insert_by_id id r t,
  text_eq_iff r.id id,
  text_eq_iff s.id id,
  text_eq_iff s.id r.id,
)

-- Sorting changes no row.
pub find_row-order_by_id :
    (id : Text) (t : Table) → HasDistinctIds t → find_row id (order_by_id t) ≡ find_row id t
unfolding order_by_id find_row
find_row-order_by_id id [] d = refl
find_row-order_by_id id (r ∷ t) (h, d) =
    find_row-insert_by_id id r (order_by_id t) (has_id-order_by_id r.id t ∙ h)
    ∙ ap (λ o. if text_eq r.id id then some r else o) (find_row-order_by_id id t d)

length-insert_by_id : (r : Row) (t : Table) → length (insert_by_id r t) ≡ suc (length t)
unfolding insert_by_id
length-insert_by_id r [] = refl
length-insert_by_id r (s ∷ t) = ground (arith, length-insert_by_id r t)

pub length-order_by_id : (t : Table) → length (order_by_id t) ≡ length t
unfolding order_by_id
length-order_by_id [] = refl
length-order_by_id (r ∷ t) =
    omega (arith, length-insert_by_id r (order_by_id t), length-order_by_id t)

-- No row has an id that the table lacks.
All-not_id : (id : Text) (t : Table) → has_id id t ≡ false → All (λ x. text_eq x.id id ≡ false) t
All-not_id id [] h = tt
All-not_id id (r ∷ t) h = (ground arith, All-not_id id t (ground arith))

abbrev pub FoundBy : (Row → Bool) → Table → Row → Type 0
FoundBy p sel x = find_row x.id sel ≡ (if p x then some x else none)

FoundBy-cons :
    (p : Row → Bool) (r : Row) (sel : Table) (t : Table)
    → All (λ x. text_eq x.id r.id ≡ false) t
    → All (FoundBy p sel) t
    → All (FoundBy p (r ∷ sel)) t
unfolding find_row
FoundBy-cons p r sel [] n h = tt
FoundBy-cons p r sel (x ∷ t) (m, n) (e, h) =
    (ground (arith, text_eq_comm x.id r.id), FoundBy-cons p r sel t n h)

-- A row is found among those selected exactly when the condition holds of it.
pub find_row-keep : (p : Row → Bool) (t : Table) → HasDistinctIds t → All (FoundBy p (keep p t)) t
unfolding find_row
find_row-keep p [] d = tt
find_row-keep p (r ∷ t) (h, d) = elim (Bool-cases (p r)) [
  | inl hit ↦
      let selected : keep p (r ∷ t) ≡ r ∷ keep p t = rw hit in
      subst (λ sel. FoundBy p sel r × All (FoundBy p sel) t) (sym selected)
        (
          rw (hit, text_eq_self r.id),
          FoundBy-cons p r (keep p t) t (All-not_id r.id t h) (find_row-keep p t d),
        )
  | inr miss ↦
      let skipped : keep p (r ∷ t) ≡ keep p t = rw miss in
      subst (λ sel. FoundBy p sel r × All (FoundBy p sel) t) (sym skipped)
        (rw miss (find_row-none r.id (keep p t) (has_id-keep r.id p t h)), find_row-keep p t d)
]

-- What the statements make of a row that the condition selects, and of one that it does not.
abbrev pub edit_if : (Row → Bool) → (Row → Edit) → Edit
edit_if p act r = elim (p r) [ true ↦ act r r | false ↦ some r ]

found-edit_if :
    (p : Row → Bool) (act : Row → Edit) (sel t : Table)
    → All (FoundBy p sel) t
    → All (λ r. edit_found act sel r ≡ edit_if p act r) t
unfolding edit_found
found-edit_if p act sel [] h = tt
found-edit_if p act sel (r ∷ t) (e, h) = (ground arith, found-edit_if p act sel t h)

pub edit_all-keep :
    (p : Row → Bool) (act : Row → Edit) (t : Table)
    → KeepsIds act
    → HasDistinctIds t
    → edit_all act (keep p t) t ≡ pass (edit_if p act) t
edit_all-keep p act t k d =
    edit_all-pass act (keep p t) t k (keep-HasDistinctIds p t d)
    ∙ pass-cong_all _ _ t (found-edit_if p act (keep p t) t (find_row-keep p t d))

pub edit_all-order_by_id :
    (p : Row → Bool) (act : Row → Edit) (t : Table)
    → KeepsIds act
    → HasDistinctIds t
    → edit_all act (order_by_id (keep p t)) t ≡ pass (edit_if p act) t
edit_all-order_by_id p act t k d =
    edit_all-pass act (order_by_id (keep p t)) t k
      (order_by_id-HasDistinctIds _ (keep-HasDistinctIds p t d))
    ∙ pass-cong_all _ _ t (
        found-edit_if p act (order_by_id (keep p t)) t (
          All-mono (λ x e. find_row-order_by_id x.id (keep p t) (keep-HasDistinctIds p t d) ∙ e) t
            (find_row-keep p t d)))
