-- ===== src/Queue/Retain.antt =====
-- packages/queue/src/broker.ts, `sweepRetention`, `peek` and `insertDeadLetter`.
pub mod Retention
use hobbyist.Base.{
  ℕ, ◌+◌, ◌*◌, Bool, true, false, not, ◌&&◌, List, map, Option, none, some, ltb, leb, ◌==◌,
  if◌then◌else◌, is_some, get_or_else, length, keep, take,
}
use hobbyist.Queue.Message.{
  Row, LeasedMessage, PeekedMessage, PeekedState, ready, leased, delayed, body_bytes,
}
use hobbyist.Queue.Table.{Table, insert_or_ignore, order_by_id, is_after}
use hobbyist.Queue.Settle.{message_of}

-- `coalesce(dead_lettered_at, enqueued_at)`.
abbrev pub retained_since : Row → ℕ
retained_since r = get_or_else r.dead_lettered_at r.enqueued_at

-- `… <= nowMs - retentionSeconds * 1000`, where the source may go below 0.
abbrev pub is_doomed : ℕ → ℕ → Row → Bool
is_doomed seconds now r = leb (retained_since r + seconds * 1000) now

unfoldable pub sweep_retention : Table → ℕ → ℕ → ℕ × Table
sweep_retention t seconds now =
    let doomed = length (keep (is_doomed seconds now) t) in
    if doomed == 0 then (0, t) else (doomed, keep (λ r. not (is_doomed seconds now r)) t)

unfoldable pub peeked_state : ℕ → Row → PeekedState
peeked_state now r =
    if is_some r.lease_id && is_after r.lease_expires_at now
    then leased
    else if ltb now r.visible_at
    then delayed
    else ready

abbrev pub peeked : ℕ → Row → PeekedMessage
peeked now r = record {
  message = message_of r;
  state = peeked_state now r;
  visible_at_ms = r.visible_at;
  dead_lettered_at_ms = r.dead_lettered_at;
  failed_attempts = r.failed_attempts;
}

unfoldable pub peek : Table → ℕ → ℕ → List PeekedMessage
peek t limit now = map (peeked now) (take limit (order_by_id t))

abbrev pub dead_row : LeasedMessage → ℕ → Row
dead_row m now = record {
  id = m.id;
  body = m.body;
  content_type = m.content_type;
  bytes = body_bytes m.body;
  enqueued_at = m.timestamp_ms;
  visible_at = now;
  attempts = 0;
  lease_id = none;
  lease_expires_at = none;
  dead_lettered_at = some now;
  failed_attempts = some m.attempts;
}

unfoldable pub insert_dead_letter : Table → LeasedMessage → ℕ → Table
insert_dead_letter t m now = insert_or_ignore (dead_row m now) t
