-- ===== src/Queue/WellFormed.antt =====
-- The invariant of a queue's table under every operation of packages/queue/src/broker.ts.
pub mod Reachable
use hobbyist.Base.{
  ℕ, ◌+◌, ◌≡◌, refl, sym, ap, ◌∙◌, Bool, true, false, not, Text, text_eq, text_eq_iff, text_eq_comm,
  List, [], ◌∷◌, ◌++◌, Option, none, some, is_some, keep, any, All, All-append, arith, Bool-cases,
  Option-cases, inl, inr, ◌⊎◌, ◌||◌, if◌then◌else◌, ◌==◌, length,
}
use hobbyist.Queue.Ids.{Ids, new_message_id}
use hobbyist.Queue.Message.{
  Row, ConsumerOptions, LeasedMessage, DeliveryResult, EnqueueInput, body_bytes, Refusal, Result,
}
use hobbyist.Queue.Table.{Table, has_id, find_row, insert_row, insert_or_ignore, HasDistinctIds}
use hobbyist.Queue.Table.Edits.{Edit, pass, edit_found}
use hobbyist.Queue.Table.Select.{edit_if, keep-HasDistinctIds}
use hobbyist.Queue.Enqueue.{fresh_row, Enqueued, insert_all, check_batch, enqueue, purge}
use hobbyist.Queue.Lease.{ready_rows, lease_batch, claim}
use hobbyist.Queue.Lease.Exclusive.{claims, lease_batch-table}
use hobbyist.Queue.Settle.{Reply, requeued_at, apply_result, expire_leases, Applied}
use hobbyist.Queue.Settle.OnePass.{Fate, acks, dies, requeues, after}
use hobbyist.Queue.Settle.Committed.{Commits, apply_result-Commits, expire_leases-Commits}
use hobbyist.Queue.Retain.{is_doomed, sweep_retention, dead_row, insert_dead_letter}

-- A lease has an end, an end belongs to a lease, and the size is the body's.
abbrev pub IsRow : Row → Type 0
IsRow r = (is_some r.lease_id ≡ is_some r.lease_expires_at) × (r.bytes ≡ body_bytes r.body)

pub record IsWellFormed (t : Table) : Type 0 where
  pub distinct : HasDistinctIds t
  pub rows : All IsRow t

-- An edit that leaves ids alone and rows well formed.
abbrev pub Keeps : Edit → Type 0
Keeps f = (r r' : Row) → f r ≡ some r' → (r'.id ≡ r.id) × (IsRow r → IsRow r')

pub has_id-pass_absent :
    (f : Edit) (id : Text) (t : Table)
    → Keeps f
    → has_id id t ≡ false
    → has_id id (pass f t) ≡ false
unfolding pass
has_id-pass_absent f id [] k h = refl
has_id-pass_absent f id (r ∷ t) k h = go (f r) refl (has_id-pass_absent f id t k (ground arith))
  where
    go :
        (x : Option Row)
        → f r ≡ x
        → has_id id (pass f t) ≡ false
        → has_id id (pass f (r ∷ t)) ≡ false
    go none q rest = rw (q, pass) rest
    go (some r') q rest = ground (arith, ap (λ i. text_eq i id) (k r r' q).0)

pub pass-IsWellFormed : (f : Edit) (t : Table) → Keeps f → IsWellFormed t → IsWellFormed (pass f t)
unfolding pass
pass-IsWellFormed f [] k w = w
pass-IsWellFormed f (r ∷ t) k w =
    go (f r) refl (pass-IsWellFormed f t k (record { distinct = w.distinct.1; rows = w.rows.1 }))
  where
    go : (x : Option Row) → f r ≡ x → IsWellFormed (pass f t) → IsWellFormed (pass f (r ∷ t))
    go none q rest = rw (q, pass) rest
    go (some r') q rest =
        let (same, row) = k r r' q in
        rw (q, pass)
          (record {
            distinct = (rw same (has_id-pass_absent f r.id t k w.distinct.0), rest.distinct);
            rows = (row w.rows.0, rest.rows);
          })

pub claims-Keeps : (lease : Text) (expires : ℕ) (rows : Table) → Keeps (claims lease expires rows)
unfolding edit_found
claims-Keeps lease expires rows r r' e = ground (arith, Option-cases (find_row r.id rows))

pub fates-Keeps : (p : Row → Bool) (fate : Row → Fate) → Keeps (edit_if p (λ r. after (fate r)))
fates-Keeps p fate r r' e = go (fate r) refl (Bool-cases (p r))
  where
    go :
        (x : Fate)
        → fate r ≡ x
        → (p r ≡ true) ⊎ (p r ≡ false)
        → (r'.id ≡ r.id) × (IsRow r → IsRow r')
    go acks q b = ground arith
    go dies q b = ground arith
    go (requeues at) q b = ground arith

keep-IsRow : (p : Row → Bool) (t : Table) → All IsRow t → All IsRow (keep p t)
keep-IsRow p [] h = tt
keep-IsRow p (r ∷ t) (x, h) = ground (arith, keep-IsRow p t h)

pub sweep_retention-IsWellFormed :
    (t : Table) (seconds now : ℕ) → IsWellFormed t → IsWellFormed (sweep_retention t seconds now).1
unfolding sweep_retention
sweep_retention-IsWellFormed t seconds now w =
    elim (Bool-cases (length (keep (is_doomed seconds now) t) == 0)) [
      | inl none_doomed ↦ rw none_doomed w
      | inr doomed ↦
          rw doomed
            (record { distinct = keep-HasDistinctIds _ t w.distinct; rows = keep-IsRow _ t w.rows })
    ]

has_id-concat :
    (id : Text) (t : Table) (r : Row) → has_id id (t ++ r ∷ []) ≡ (has_id id t || text_eq r.id id)
has_id-concat id [] r = ground arith
has_id-concat id (s ∷ t) r = ground (arith, has_id-concat id t r)

concat-HasDistinctIds :
    (t : Table) (r : Row) → has_id r.id t ≡ false → HasDistinctIds t → HasDistinctIds (t ++ r ∷ [])
concat-HasDistinctIds [] r h d = (refl, tt)
concat-HasDistinctIds (s ∷ t) r h (k, d) =
    ground (arith, concat-HasDistinctIds t r, has_id-concat s.id t r, text_eq_comm r.id s.id)

pub concat-IsWellFormed :
    (t : Table) (r : Row)
    → has_id r.id t ≡ false
    → IsRow r
    → IsWellFormed t
    → IsWellFormed (t ++ r ∷ [])
concat-IsWellFormed t r h x w = record {
  distinct = concat-HasDistinctIds t r h w.distinct;
  rows = All-append IsRow t (r ∷ []) w.rows (x, tt);
}
