-- ===== src/Queue/Settle.antt =====
-- packages/queue/src/broker.ts, `applyResult` and `expireLeases`.
-- `onDeadLetter` writes somewhere else, the state `World`, and may throw; a rollback undoes what
-- this database did, and nothing of that.
pub mod OnePass
pub mod Committed
pub mod NoLoss
use hobbyist.Base.{
  ℕ, ◌+◌, ◌*◌, Bool, true, false, ◌&&◌, ◌||◌, Text, text_eq, List, [], ◌∷◌, ◌++◌, Option, none,
  some, ltb, if◌then◌else◌, is_some, get_or_else, keep,
}
use hobbyist.Queue.Message.{
  Row, ConsumerOptions, LeasedMessage, DeliveryResult, Outcome, ok_outcome, exception,
}
use hobbyist.Queue.Table.{Table, update_where, delete_where, order_by_id, is_by, is_lease}

-- `new Map(entries)` and a look at it: of two entries with one key the later one counts.
unfoldable pub map_get : Text → List (Text × Option ℕ) → Option (Option ℕ)
map_get id [] = none
map_get id ((key, delay) ∷ entries) = elim (map_get id entries) [
  | some later ↦ some later
  | none ↦ if text_eq key id then some delay else none
]

-- `outcome !== 'ok'`.
abbrev pub is_not_ok : Outcome → Bool
is_not_ok ok_outcome = false
is_not_ok exception = true

-- `retryAll || perMessage.has(id)`.
abbrev pub is_retry : DeliveryResult → Text → Bool
is_retry result id =
    (result.retry || is_not_ok result.outcome) || is_some (map_get id result.retry_messages)

-- `perMessage.get(id) ?? retryBatch.delaySeconds ?? opts.retryDelaySeconds`.
unfoldable pub retry_delay : DeliveryResult → ConsumerOptions → Text → ℕ
retry_delay result opts id = elim (map_get id result.retry_messages) [
  | some (some delay) ↦ delay
  | _ ↦ get_or_else result.delay_seconds opts.retry_delay_seconds
]

abbrev pub requeued_at : ℕ → Row → Row
requeued_at at r = record r { lease_id = none; lease_expires_at = none; visible_at = at }

abbrev pub message_of : Row → LeasedMessage
message_of r = record {
  id = r.id;
  body = r.body;
  content_type = r.content_type;
  timestamp_ms = r.enqueued_at;
  attempts = r.attempts;
}

pub data Reply (World : Type 0) : Type 0 where
  done : World → Reply World
  threw : World → Reply World

-- The variables of the two loops; `retried` is also `requeued`.
pub record Settling (World : Type 0) : Type 0 where
  pub table : Table
  pub world : World
  pub acked : ℕ
  pub retried : ℕ
  pub dead_lettered : List LeasedMessage

pub data Settled (World : Type 0) : Type 0 where
  settled : Settling World → Settled World
  failed : World → Settled World

pub record Counts : Type 0 where
  pub acked : ℕ
  pub retried : ℕ
  pub dead_lettered : List LeasedMessage

-- `none` as the outcome is the callback's error, thrown on.
pub record Applied (World : Type 0) : Type 0 where
  pub table : Table
  pub world : World
  pub outcome : Option Counts

module _ {World : Type 0} (on_dead_letter : Option (World → LeasedMessage → Reply World)) where
  unfoldable pub notify : World → LeasedMessage → Reply World
  notify w m = elim on_dead_letter [ none ↦ done w | some f ↦ f w m ]

  -- The branch that both loops share: push, call back, and only then delete.
  unfoldable pub dead_letter : Row → Settling World → Settled World
  dead_letter r s = elim (notify s.world (message_of r)) [
    | threw w ↦ failed w
    | done w ↦ settled (record s {
      table = delete_where r.id s.table;
      world = w;
      dead_lettered = s.dead_lettered ++ message_of r ∷ [];
    })
  ]

  -- One round of the loop of `applyResult`.
  unfoldable pub apply_row :
      DeliveryResult → ConsumerOptions → ℕ → Row → Settling World → Settled World
  apply_row result opts now r s =
      if is_retry result r.id
      then (if ltb opts.max_retries r.attempts
          then dead_letter r s
          else settled (record s {
            table =
                update_where r.id (requeued_at (now + retry_delay result opts r.id * 1000)) s.table;
            retried = s.retried + 1;
          }))
      else settled (record s { table = delete_where r.id s.table; acked = s.acked + 1 })

  -- One round of the loop of `expireLeases`.
  unfoldable pub expire_row : ConsumerOptions → ℕ → Row → Settling World → Settled World
  expire_row opts now r s =
      if ltb opts.max_retries r.attempts
      then dead_letter r s
      else settled (record s {
        table = update_where r.id (requeued_at now) s.table;
        retried = s.retried + 1;
      })

-- The loops: the first callback that throws ends them.
unfoldable pub settle_rows :
    {World : Type 0}
    → (Row → Settling World → Settled World)
    → Table
    → Settling World
    → Settled World
settle_rows act [] s = settled s
settle_rows act (r ∷ rows) s = elim (act r s) [
  | failed w ↦ failed w
  | settled s' ↦ settle_rows act rows s'
]

abbrev pub start : {World : Type 0} → Table → World → Settling World
start t w = record { table = t; world = w; acked = 0; retried = 0; dead_lettered = [] }

-- `COMMIT`, or `ROLLBACK` and the error thrown on.
unfoldable pub commit : {World : Type 0} → Table → Settled World → Applied World
commit t (settled s) = record {
  table = s.table;
  world = s.world;
  outcome = some (record { acked = s.acked; retried = s.retried; dead_lettered = s.dead_lettered });
}
commit t (failed w) = record { table = t; world = w; outcome = none }

-- `WHERE lease_id = ?`.
abbrev pub is_under : Text → Row → Bool
is_under lease r = is_lease r.lease_id lease

-- `WHERE lease_id IS NOT NULL AND lease_expires_at <= ?`.
abbrev pub is_expired : ℕ → Row → Bool
is_expired now r = is_some r.lease_id && is_by r.lease_expires_at now

module _ {World : Type 0} (on_dead_letter : Option (World → LeasedMessage → Reply World)) where
  -- No rows: the loop makes no round, and commits nothing.
  unfoldable pub apply_result :
      Table → World → Text → DeliveryResult → ConsumerOptions → ℕ → Applied World
  apply_result t w lease result opts now = commit t (
      settle_rows (apply_row on_dead_letter result opts now) (order_by_id (keep (is_under lease) t))
        (start t w))

  unfoldable pub expire_leases : Table → World → ConsumerOptions → ℕ → Applied World
  expire_leases t w opts now =
      commit t
        (settle_rows (expire_row on_dead_letter opts now) (keep (is_expired now) t) (start t w))
