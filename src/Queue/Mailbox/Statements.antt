-- ===== src/Queue/Mailbox/Statements.antt =====
-- What each statement of the broker does to the mailbox that its table holds.
use hobbyist.Base.{
  ℕ, ◌≡◌, refl, sym, ◌∙◌, fun_ext, Bool, true, not, Text, [], ◌∷◌, ◌++◌, Option, none, some,
  is_some, if◌then◌else◌, keep, length, ◌==◌, arith, Bool-cases, inl, inr,
}
use hobbyist.Queue.Message.{Row, LeasedMessage}
use hobbyist.Queue.Table.{Table, has_id, find_row, HasDistinctIds, insert_row, insert_or_ignore}
use hobbyist.Queue.Table.Edits.{find_row-none}
use hobbyist.Queue.Lease.{is_ready}
use hobbyist.Queue.Retain.{is_doomed, sweep_retention, insert_dead_letter, dead_row}
use hobbyist.Queue.Mailbox.{edited, put, IsReady}
use hobbyist.Queue.Mailbox.Contents.{contents, find_row-keep_iff, find_row-concat, is_some-find_row}

pub contents-insert_row :
    (r : Row) (t t' : Table)
    → insert_row r t ≡ some t'
    → (contents t r.id ≡ none) × (contents t' ≡ put r (contents t))
unfolding insert_row
contents-insert_row r t t' e = elim (Bool-cases (has_id r.id t)) [
  | inl used ↦ absurd (ground arith)
  | inr free ↦
      let same : t ++ r ∷ [] ≡ t' = ground arith in
      (find_row-none r.id t free, rw (← same) (fun_ext (λ id. find_row-concat id t r free)))
]

pub insert_row-used :
    (r : Row) (t : Table) → insert_row r t ≡ none → is_some (contents t r.id) ≡ true
unfolding insert_row
insert_row-used r t e = elim (Bool-cases (has_id r.id t)) [
  | inl used ↦ is_some-find_row r.id t ∙ used
  | inr free ↦ absurd (ground (arith, e, free))
]

find_row-nothing : (id : Text) (t : Table) → (length t == 0) ≡ true → find_row id t ≡ none
unfolding find_row
find_row-nothing id [] h = refl
find_row-nothing id (r ∷ t) h = absurd (ground (arith, h))

turned :
    (p : Row → Bool) (o : Option Row)
    → edited (λ r. if not (p r) then some r else none) o
      ≡ edited (λ r. if p r then none else some r) o
turned p none = refl
turned p (some r) = ground arith

kept :
    (p : Row → Bool) (o : Option Row)
    → edited (λ r. if p r then some r else none) o ≡ none
    → o ≡ edited (λ r. if p r then none else some r) o
kept p none h = refl
kept p (some r) h = ground (arith, h)

-- Nothing is doomed, or the rows that are not are kept.
pub sweep_retention-contents :
    (t : Table) (seconds now : ℕ) (id : Text)
    → HasDistinctIds t
    → contents (sweep_retention t seconds now).1 id
      ≡ edited (λ r. if is_doomed seconds now r then none else some r) (contents t id)
unfolding sweep_retention
sweep_retention-contents t seconds now id d =
    elim (Bool-cases (length (keep (is_doomed seconds now) t) == 0)) [
      | inl nothing ↦ rw nothing (
          kept _ (contents t id) (sym (find_row-keep_iff _ id t d) ∙ find_row-nothing id _ nothing))
      | inr doomed ↦
          rw doomed (
            find_row-keep_iff (λ r. not (is_doomed seconds now r)) id t d
            ∙ turned _ (find_row id t))
    ]

pub insert_dead_letter-contents :
    (t : Table) (m : LeasedMessage) (now : ℕ) (id : Text)
    → contents (insert_dead_letter t m now) id
      ≡ (if is_some (contents t m.id) then contents t id else put (dead_row m now) (contents t) id)
unfolding insert_dead_letter insert_or_ignore
insert_dead_letter-contents t m now id = elim (Bool-cases (has_id m.id t)) [
  | inl used ↦ rw (used, is_some-find_row m.id t, used) refl
  | inr free ↦ rw (free, is_some-find_row m.id t, free) (find_row-concat id t (dead_row m now) free)
]

pub kept-IsReady :
    (now : ℕ) (o : Option Row)
    → is_some (edited (λ r. if is_ready now r then some r else none) o) ≡ true
    → IsReady now o
kept-IsReady now none h = absurd (ground (arith, h))
kept-IsReady now (some r) h = ground (arith, h)
