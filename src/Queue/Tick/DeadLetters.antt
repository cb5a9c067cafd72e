-- ===== src/Queue/Tick/DeadLetters.antt =====
-- The callback that the tick passes keeps dead letters: what it was called with stays in the file of
-- the dead letter queue.
use hobbyist.Base.{
  ℕ, ◌≡◌, refl, subst, true, false, ◌||◌, String, str_eq, str_eq_iff, Text, text_eq, text_eq_self,
  text_eq_iff, [], ◌∷◌, ◌++◌, some, arith, Bool-cases, inl, inr, ◌⊎◌,
}
use hobbyist.Queue.Message.{Row, LeasedMessage, LeasedBatch, DeliveryResult}
use hobbyist.Queue.Table.{Table, has_id, find_row, insert_or_ignore, HasDistinctIds}
use hobbyist.Queue.Settle.{done, is_under, Applied, apply_result, expire_leases}
use hobbyist.Queue.Settle.NoLoss.{DeadLetters, apply_result-no_loss, expire_leases-no_loss}
use hobbyist.Queue.Settle.OnePass.{is_acked}
use hobbyist.Queue.Retain.{dead_row, insert_dead_letter}
use hobbyist.Queue.Tick.{
  Files, write, table_at, route_dead_letter, DrainableQueue, expire_step, apply_step,
}

has_id-append :
    (id : Text) (t : Table) (r : Row) → has_id id (t ++ r ∷ []) ≡ (has_id id t || text_eq r.id id)
has_id-append id [] r = ground arith
has_id-append id (s ∷ t) r = ground (arith, has_id-append id t r)

insert_dead_letter-has_id :
    (t : Table) (m : LeasedMessage) (now : ℕ) (id : Text)
    → has_id id (insert_dead_letter t m now) ≡ (has_id id t || text_eq m.id id)
unfolding insert_dead_letter insert_or_ignore
insert_dead_letter-has_id t m now id = elim (Bool-cases (has_id m.id t)) [
  | inr free ↦ rw free (has_id-append id t (dead_row m now))
  | inl used ↦ rw used (elim (Bool-cases (text_eq m.id id)) [
    | inl same ↦
        let there : has_id id t ≡ true =
          subst (λ i. has_id i t ≡ true) ((text_eq_iff m.id id).0 same) used in
        rw (same, there) refl
    | inr other ↦ rw other (ground arith)
  ])
]

table_at-write :
    (files : Files) (path : String) (t : Table) → table_at (write files path t) path ≡ t
table_at-write files path t = ground (arith, str_eq_iff path path)

abbrev pub HasLetter : String → Files → Text → Type 0
HasLetter path files id = has_id id (table_at files path) ≡ true

pub routed-stores :
    (path : String) (now : ℕ) (w w' : Files) (m : LeasedMessage)
    → route_dead_letter (some path) now w m ≡ done w'
    → HasLetter path w' m.id
unfolding route_dead_letter
routed-stores path now w w' m e =
    let same : write w path (insert_dead_letter (table_at w path) m now) ≡ w' = ground arith in
    rw
      (
        ← same,
        table_at-write w path (insert_dead_letter (table_at w path) m now),
        insert_dead_letter-has_id (table_at w path) m now m.id,
        text_eq_self m.id,
      )
      (ground arith)

pub routed-keeps :
    (path : String) (now : ℕ) (w w' : Files) (m : LeasedMessage) (id : Text)
    → route_dead_letter (some path) now w m ≡ done w'
    → HasLetter path w id
    → HasLetter path w' id
unfolding route_dead_letter
routed-keeps path now w w' m id e h =
    let same : write w path (insert_dead_letter (table_at w path) m now) ≡ w' = ground arith in
    rw
      (
        ← same,
        table_at-write w path (insert_dead_letter (table_at w path) m now),
        insert_dead_letter-has_id (table_at w path) m now id,
        h,
      )
      refl

abbrev pub routed : (path : String) (now : ℕ) → DeadLetters (route_dead_letter (some path) now)
routed path now = record {
  Holds = HasLetter path;
  stores = routed-stores path now;
  keeps = routed-keeps path now;
}

table_at-write_other :
    (files : Files) (path other : String) (t : Table)
    → str_eq other path ≡ false
    → table_at (write files path t) other ≡ table_at files other
table_at-write_other files path other t e = rw e refl

written-no_loss :
    (a : Applied Files) (db path : String) (id : Text)
    → str_eq path db ≡ false
    → (has_id id a.table ≡ true) ⊎ HasLetter path a.world id
    → (has_id id (table_at (write a.world db a.table) db) ≡ true)
      ⊎ (has_id id (table_at (write a.world db a.table) path) ≡ true)
written-no_loss a db path id apart (inl kept) = inl (rw (table_at-write a.world db a.table) kept)
written-no_loss a db path id apart (inr letter) =
    inr (rw (table_at-write_other a.world db path a.table apart) letter)

-- Step 1 of the tick loses no message, for a queue with distinct ids and with a dead letter queue
-- in another file: a message that was in the queue's file is there after it, or is in the dead
-- letter queue's file.
pub expire_step-no_loss :
    (q : DrainableQueue) (path : String) (now : ℕ) (files : Files) (r : Row)
    → q.dead_letter_db_path ≡ some path
    → str_eq path q.db_path ≡ false
    → HasDistinctIds (table_at files q.db_path)
    → find_row r.id (table_at files q.db_path) ≡ some r
    → let later = expire_step q now files in
      (has_id r.id (table_at later q.db_path) ≡ true) ⊎ (has_id r.id (table_at later path) ≡ true)
unfolding expire_step
expire_step-no_loss q path now files r dlq apart distinct found = rw dlq (
    written-no_loss
      (expire_leases (some (route_dead_letter (some path) now)) (table_at files q.db_path) files
        q.options now)
      q.db_path path r.id apart
      (expire_leases-no_loss (routed path now) (table_at files q.db_path) files q.options now r
        distinct found))

-- Step 7 of the tick loses no message, for a queue with distinct ids and with a dead letter queue
-- in another file: a message that was in the queue's file is there after it, or was under the
-- batch's lease and acknowledged, or is in the dead letter queue's file.
pub apply_step-no_loss :
    (q : DrainableQueue) (b : LeasedBatch) (result : DeliveryResult) (path : String) (at : ℕ)
    (files : Files) (r : Row)
    → q.dead_letter_db_path ≡ some path
    → str_eq path q.db_path ≡ false
    → HasDistinctIds (table_at files q.db_path)
    → find_row r.id (table_at files q.db_path) ≡ some r
    → let later = apply_step q b result at files in
      ((has_id r.id (table_at later q.db_path) ≡ true) ⊎ (has_id r.id (table_at later path) ≡ true))
      ⊎ ((is_under b.lease_id r ≡ true) × (is_acked result r.id ≡ true))
unfolding apply_step
apply_step-no_loss q b result path at files r dlq apart distinct found = rw dlq (
    go
      (apply_result (some (route_dead_letter (some path) at)) (table_at files q.db_path) files
        b.lease_id result q.options at)
      (apply_result-no_loss (routed path at) (table_at files q.db_path) files b.lease_id result
        q.options at r distinct found))
  where
    go :
        {U : Type 0} (a : Applied Files)
        → (has_id r.id a.table ≡ true) ⊎ (U ⊎ HasLetter path a.world r.id)
        → ((has_id r.id (table_at (write a.world q.db_path a.table) q.db_path) ≡ true)
            ⊎ (has_id r.id (table_at (write a.world q.db_path a.table) path) ≡ true))
          ⊎ U
    go a (inl kept) = inl (written-no_loss a q.db_path path r.id apart (inl kept))
    go a (inr (inl acked)) = inr acked
    go a (inr (inr letter)) = inl (written-no_loss a q.db_path path r.id apart (inr letter))
