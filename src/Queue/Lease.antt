-- ===== src/Queue/Lease.antt =====
-- packages/queue/src/broker.ts, `readyRows`, `isBatchReady`, `leaseBatch` and `hasOutstandingLease`.
pub mod Exclusive
pub mod Progress
use hobbyist.Base.{
  ℕ, ◌+◌, ◌-◌, ◌*◌, Bool, true, false, not, ◌&&◌, Text, List, [], ◌∷◌, map, Option, none, some, min,
  leb, ◌==◌, if◌then◌else◌, is_some, length, keep, any, take,
}
use hobbyist.Queue.Ids.{Ids, new_message_id}
use hobbyist.Queue.Message.{Row, ConsumerOptions, LeasedMessage, LeasedBatch}
use hobbyist.Queue.Table.{Table, update_where, order_by_id, is_after}

-- `WHERE lease_id IS NULL AND visible_at <= ?`.
abbrev pub is_ready : ℕ → Row → Bool
is_ready now r = not (is_some r.lease_id) && leb r.visible_at now

unfoldable pub ready_rows : Table → ℕ → ℕ → Table
ready_rows t now limit = take limit (order_by_id (keep (is_ready now) t))

-- `min(column)`, NULL over no rows.
unfoldable pub min_of : (Row → ℕ) → Table → Option ℕ
min_of column [] = none
min_of column (r ∷ t) = elim (min_of column t) [
  | none ↦ some (column r)
  | some m ↦ some (min (column r) m)
]

-- `coalesce(sum(bytes), 0)`.
unfoldable pub sum_bytes : Table → ℕ
sum_bytes [] = 0
sum_bytes (r ∷ t) = r.bytes + sum_bytes t

-- A ready row is visible by `now`, so the subtraction is exact.
unfoldable pub is_batch_ready : Table → ConsumerOptions → ℕ → Bool
is_batch_ready t opts now =
    let rows = keep (is_ready now) t in
    if length rows == 0
    then false
    else if leb opts.max_batch_size (length rows)
    then true
    else elim (min_of (λ r. r.visible_at) rows) [
      | none ↦ false
      | some oldest ↦ leb (opts.max_batch_timeout_seconds * 1000) (now - oldest)
    ]

abbrev pub claim : Text → ℕ → Row → Row
claim lease expires r = record r {
  lease_id = some lease;
  lease_expires_at = some expires;
  attempts = r.attempts + 1;
}

-- The loop over the rows of the batch.
unfoldable pub claim_all : Text → ℕ → Table → Table → Table
claim_all lease expires [] t = t
claim_all lease expires (r ∷ rows) t =
    claim_all lease expires rows (update_where r.id (claim lease expires) t)

-- A message of the batch, with the attempt that the claim counted.
abbrev pub delivered : Row → LeasedMessage
delivered r = record {
  id = r.id;
  body = r.body;
  content_type = r.content_type;
  timestamp_ms = r.enqueued_at;
  attempts = r.attempts + 1;
}

-- `WHERE lease_id IS NULL`.
abbrev pub is_unleased : Row → Bool
is_unleased r = not (is_some r.lease_id)

pub record Leased : Type 0 where
  pub batch : Option LeasedBatch
  pub table : Table
  pub ids : Ids

-- The backlog is read after the claim.
unfoldable pub batch_of : Text → Table → Table → LeasedBatch
batch_of lease rows t = record {
  lease_id = lease;
  messages = map delivered rows;
  backlog_count = length (keep is_unleased t);
  backlog_bytes = sum_bytes (keep is_unleased t);
  oldest_message_timestamp_ms = min_of (λ r. r.enqueued_at) (keep is_unleased t);
}

-- `lease` is `leaseMs`.
unfoldable pub lease_batch : (random_int : ℕ → ℕ) → Ids → Table → ConsumerOptions → ℕ → ℕ → Leased
lease_batch random_int s t opts now lease = elim (ready_rows t now opts.max_batch_size) [
  | [] ↦ record { batch = none; table = t; ids = s }
  | r ∷ rows ↦
      let (lease_id, s') = new_message_id random_int s now in
      let t' = claim_all lease_id (now + lease) (r ∷ rows) t in
      record { batch = some (batch_of lease_id (r ∷ rows) t'); table = t'; ids = s' }
]

-- `WHERE lease_id IS NOT NULL AND lease_expires_at > ?`.
abbrev pub is_outstanding : ℕ → Row → Bool
is_outstanding now r = is_some r.lease_id && is_after r.lease_expires_at now

unfoldable pub has_outstanding_lease : Table → ℕ → Bool
has_outstanding_lease t now = not (length (keep (is_outstanding now) t) == 0)
