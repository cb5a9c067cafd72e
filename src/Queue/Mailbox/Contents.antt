-- ===== src/Queue/Mailbox/Contents.antt =====
-- The mailbox that a table holds, under the statements of the broker.
use hobbyist.Base.{
  ◌≡◌, refl, subst, Bool, true, false, Text, text_eq, text_eq_iff, [], ◌∷◌, ◌++◌, Option, none,
  some, is_some, if◌then◌else◌, keep, arith, Bool-cases, inl, inr, ◌⊎◌,
}
use hobbyist.Queue.Message.{Row}
use hobbyist.Queue.Table.{Table, has_id, find_row, HasDistinctIds}
use hobbyist.Queue.Table.Edits.{Edit, pass, find_row-none}
use hobbyist.Queue.WellFormed.{Keeps, has_id-pass_absent}
use hobbyist.Queue.Mailbox.{Mailbox, edited, put}

abbrev pub contents : Table → Mailbox
contents t id = find_row id t

pub find_row-pass :
    (f : Edit) (id : Text) (t : Table)
    → Keeps f
    → HasDistinctIds t
    → find_row id (pass f t) ≡ edited f (find_row id t)
unfolding find_row pass
find_row-pass f id [] k d = refl
find_row-pass f id (r ∷ t) k (h, d) =
    go (f r) refl (Bool-cases (text_eq r.id id)) (find_row-pass f id t k d)
  where
    absent_here : text_eq r.id id ≡ true → has_id id t ≡ false
    absent_here hit = subst (λ i. has_id i t ≡ false) ((text_eq_iff r.id id).0 hit) h

    go :
        (x : Option Row)
        → f r ≡ x
        → (text_eq r.id id ≡ true) ⊎ (text_eq r.id id ≡ false)
        → find_row id (pass f t) ≡ edited f (find_row id t)
        → find_row id (pass f (r ∷ t)) ≡ edited f (find_row id (r ∷ t))
    go none q (inl hit) rest =
        rw (hit, q, pass)
          (find_row-none id (pass f t) (has_id-pass_absent f id t k (absent_here hit)))
    go none q (inr miss) rest = rw (miss, q, pass) rest
    go (some r') q (inl hit) rest = rw (hit, q, pass) (rw ((k r r' q).0, hit) refl)
    go (some r') q (inr miss) rest = rw (miss, q, pass) (rw ((k r r' q).0, miss) rest)

pub find_row-keep_iff :
    (p : Row → Bool) (id : Text) (t : Table)
    → HasDistinctIds t
    → find_row id (keep p t) ≡ edited (λ r. if p r then some r else none) (find_row id t)
unfolding find_row
find_row-keep_iff p id [] d = refl
find_row-keep_iff p id (r ∷ t) (h, d) = elim (Bool-cases (text_eq r.id id)) [
  | inl hit ↦
      let absent : has_id id t ≡ false =
        subst (λ i. has_id i t ≡ false) ((text_eq_iff r.id id).0 hit) h in
      ground (arith, hit, absent, find_row-none id t absent, find_row-keep_iff p id t d)
  | inr miss ↦ ground (arith, miss, find_row-keep_iff p id t d)
]

pub find_row-concat :
    (id : Text) (t : Table) (r : Row)
    → has_id r.id t ≡ false
    → find_row id (t ++ r ∷ []) ≡ put r (contents t) id
unfolding find_row
find_row-concat id [] r h = refl
find_row-concat id (s ∷ t) r h =
    ground (
      arith,
      find_row-concat id t r,
      text_eq_iff s.id id,
      text_eq_iff r.id id,
      text_eq_iff s.id r.id,
    )

pub is_some-find_row : (id : Text) (t : Table) → is_some (find_row id t) ≡ has_id id t
unfolding find_row
is_some-find_row id [] = refl
is_some-find_row id (r ∷ t) = ground (arith, is_some-find_row id t)
