-- ===== src/Queue/WellFormed/Reachable.antt =====
-- Every table that the operations of the broker reach from an empty one is well formed.
use hobbyist.Base.{
  ℕ, ◌≡◌, refl, Bool, Text, List, [], ◌∷◌, ◌++◌, Option, none, some, arith, Bool-cases, inl, inr,
}
use hobbyist.Queue.Ids.{Ids, new_message_id}
use hobbyist.Queue.Message.{
  Row, ConsumerOptions, LeasedMessage, DeliveryResult, EnqueueInput, Refusal,
}
use hobbyist.Queue.Table.{Table, has_id, insert_row, insert_or_ignore}
use hobbyist.Queue.Enqueue.{fresh_row, insert_all, check_batch, enqueue, purge}
use hobbyist.Queue.Lease.{lease_batch}
use hobbyist.Queue.Lease.Exclusive.{lease_batch-table}
use hobbyist.Queue.Settle.{Reply, apply_result, expire_leases, Applied}
use hobbyist.Queue.Settle.OnePass.{Fate}
use hobbyist.Queue.Settle.Committed.{Commits, apply_result-Commits, expire_leases-Commits}
use hobbyist.Queue.Retain.{sweep_retention, dead_row, insert_dead_letter}
use hobbyist.Queue.WellFormed.{
  IsRow, IsWellFormed, pass-IsWellFormed, claims-Keeps, fates-Keeps, sweep_retention-IsWellFormed,
  concat-IsWellFormed,
}

insert_row-IsWellFormed :
    (r : Row) (t t' : Table) → IsRow r → insert_row r t ≡ some t' → IsWellFormed t → IsWellFormed t'
unfolding insert_row
insert_row-IsWellFormed r t t' x e w = elim (Bool-cases (has_id r.id t)) [
  | inl used ↦ absurd (ground arith)
  | inr free ↦
      let same : t ++ r ∷ [] ≡ t' = ground arith in rw (← same) (concat-IsWellFormed t r free x w)
]

pub insert_dead_letter-IsWellFormed :
    (t : Table) (m : LeasedMessage) (now : ℕ)
    → IsWellFormed t
    → IsWellFormed (insert_dead_letter t m now)
unfolding insert_dead_letter insert_or_ignore
insert_dead_letter-IsWellFormed t m now w = elim (Bool-cases (has_id m.id t)) [
  | inl used ↦ rw used w
  | inr free ↦ rw free (concat-IsWellFormed t (dead_row m now) free (refl, refl) w)
]

pub Commits-IsWellFormed :
    {World : Type 0} (f : Option (World → LeasedMessage → Reply World)) (p : Row → Bool)
    (fate : Row → Fate) (rows t : Table) (w : World) (a : Applied World)
    → Commits f p fate rows t w a
    → IsWellFormed t
    → IsWellFormed a.table
Commits-IsWellFormed f p fate rows t w a (inl (rolled, same)) v = rw same v
Commits-IsWellFormed f p fate rows t w a (inr (c, committed, done_so)) v =
    rw done_so.table (pass-IsWellFormed _ t (fates-Keeps p fate) v)

module _ (random_int : ℕ → ℕ) where
  insert_all-IsWellFormed :
      (s : Ids) (t : Table) (inputs : List EnqueueInput) (now : ℕ) (out : List Text)
      → IsWellFormed t
      → IsWellFormed (insert_all random_int s t inputs now out).table
  unfolding insert_all
  insert_all-IsWellFormed s t [] now out w = w
  insert_all-IsWellFormed s t (input ∷ inputs) now out w =
      go (insert_row (fresh_row (new_message_id random_int s now).0 input now) t) refl (λ t'.
        insert_all-IsWellFormed (new_message_id random_int s now).1 t' inputs now
          (out ++ (new_message_id random_int s now).0 ∷ []))
    where
      go :
          (x : Option Table)
          → insert_row (fresh_row (new_message_id random_int s now).0 input now) t ≡ x
          → ((t' : Table)
              → IsWellFormed t'
              → IsWellFormed
                  (insert_all random_int
                    (new_message_id random_int s now).1
                    t'
                    inputs
                    now
                    (out ++ (new_message_id random_int s now).0 ∷ [])).table)
          → IsWellFormed (insert_all random_int s t (input ∷ inputs) now out).table
      go none q ih = rw (q, insert_all) w
      go (some t') q ih =
          rw (q, insert_all) (ih t' (insert_row-IsWellFormed _ t t' (refl, refl) q w))

  enqueue-IsWellFormed :
      (s : Ids) (t : Table) (inputs : List EnqueueInput) (now : ℕ)
      → IsWellFormed t
      → IsWellFormed (enqueue random_int s t inputs now).table
  unfolding enqueue
  enqueue-IsWellFormed s t inputs now w = go (check_batch inputs) refl
    where
      go :
          (x : Option Refusal)
          → check_batch inputs ≡ x
          → IsWellFormed (enqueue random_int s t inputs now).table
      go none q = rw (q, enqueue) (insert_all-IsWellFormed s t inputs now [] w)
      go (some e) q = rw (q, enqueue) w

  -- One operation of the broker, with any arguments, any state of the ids and any callback.
  pub data BrokerStep (World : Type 0) : Table → Table → Type 0 where
    enqueues :
        (s : Ids) (t : Table) (inputs : List EnqueueInput) (now : ℕ)
        → BrokerStep World t (enqueue random_int s t inputs now).table
    leases :
        (s : Ids) (t : Table) (opts : ConsumerOptions) (now lease : ℕ)
        → BrokerStep World t (lease_batch random_int s t opts now lease).table
    applies :
        (f : Option (World → LeasedMessage → Reply World)) (t : Table) (w : World) (lease : Text)
        (result : DeliveryResult) (opts : ConsumerOptions) (now : ℕ)
        → BrokerStep World t (apply_result f t w lease result opts now).table
    expires :
        (f : Option (World → LeasedMessage → Reply World)) (t : Table) (w : World)
        (opts : ConsumerOptions) (now : ℕ)
        → BrokerStep World t (expire_leases f t w opts now).table
    sweeps : (t : Table) (seconds now : ℕ) → BrokerStep World t (sweep_retention t seconds now).1
    dead_letters :
        (t : Table) (m : LeasedMessage) (now : ℕ) → BrokerStep World t (insert_dead_letter t m now)
    purges : (t : Table) → BrokerStep World t (purge t).1

  pub data Reach (World : Type 0) (t : Table) : Table → Type 0 where
    here : Reach World t t
    next : {u v : Table} → Reach World t u → BrokerStep World u v → Reach World t v

  pub BrokerStep-IsWellFormed :
      {World : Type 0} {t u : Table} → BrokerStep World t u → IsWellFormed t → IsWellFormed u
  unfolding purge
  BrokerStep-IsWellFormed (enqueues s t inputs now) w = enqueue-IsWellFormed s t inputs now w
  BrokerStep-IsWellFormed (leases s t opts now lease) w =
      rw (lease_batch-table random_int s t opts now lease w.distinct)
        (pass-IsWellFormed _ t (claims-Keeps _ _ _) w)
  BrokerStep-IsWellFormed (applies f t v lease result opts now) w =
      Commits-IsWellFormed f _ _ _ t v _
        (apply_result-Commits f t v lease result opts now w.distinct) w
  BrokerStep-IsWellFormed (expires f t v opts now) w =
      Commits-IsWellFormed f _ _ _ t v _ (expire_leases-Commits f t v opts now w.distinct) w
  BrokerStep-IsWellFormed (sweeps t seconds now) w = sweep_retention-IsWellFormed t seconds now w
  BrokerStep-IsWellFormed (dead_letters t m now) w = insert_dead_letter-IsWellFormed t m now w
  BrokerStep-IsWellFormed (purges t) w = record { distinct = tt; rows = tt }

  -- From an empty table, no sequence of operations, callbacks that throw and rollbacks included,
  -- puts two rows under one id, a lease without its end, an end without its lease, or a size that
  -- is not the body's into the table.
  pub Reach-IsWellFormed : {World : Type 0} {t : Table} → Reach World [] t → IsWellFormed t
  Reach-IsWellFormed here = record { distinct = tt; rows = tt }
  Reach-IsWellFormed (next r st) = BrokerStep-IsWellFormed st (Reach-IsWellFormed r)
