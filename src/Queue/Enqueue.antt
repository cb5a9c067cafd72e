-- ===== src/Queue/Enqueue.antt =====
-- packages/queue/src/broker.ts, `enqueue`, `depth` and `purge`.
pub mod AllOrNothing
use hobbyist.Base.{
  ℕ, ◌+◌, ◌*◌, Text, List, [], ◌∷◌, ◌++◌, Option, none, some, ltb, if◌then◌else◌, length,
}
use hobbyist.Queue.Ids.{Ids, new_message_id}
use hobbyist.Queue.Message.{
  EnqueueInput, JsNumber, whole, below_zero, not_whole, Row, Result, ok, err, Refusal,
  too_many_messages, message_too_big, batch_too_big, bad_delay, primary_key, max_batch_count,
  max_batch_bytes, max_message_bytes, max_delay_seconds, body_bytes,
}
use hobbyist.Queue.Table.{Table, insert_row}

-- The check of `delaySeconds ?? 0`: the delay in seconds, if it may be used.
unfoldable pub delay_of : Option JsNumber → Option ℕ
delay_of none = some 0
delay_of (some (whole d)) = if ltb max_delay_seconds d then none else some d
delay_of (some (below_zero d)) = none
delay_of (some not_whole) = none

-- The checks of the first loop, with the total of the bytes so far; `ok` is the total.
unfoldable pub check_inputs : List EnqueueInput → ℕ → Result ℕ
check_inputs [] total = ok total
check_inputs (input ∷ inputs) total =
    let rest = check_inputs inputs (total + body_bytes input.body) in
    if ltb max_message_bytes (body_bytes input.body)
    then err message_too_big
    else elim (delay_of input.delay_seconds) [ none ↦ err bad_delay | some d ↦ rest ]

-- Every check that runs before an insert.
unfoldable pub check_batch : List EnqueueInput → Option Refusal
check_batch inputs =
    if ltb max_batch_count (length inputs)
    then some too_many_messages
    else elim (check_inputs inputs 0) [
      | err e ↦ some e
      | ok total ↦ if ltb max_batch_bytes total then some batch_too_big else none
    ]

-- `(input.delaySeconds ?? 0) * 1000`; what the checks refuse never gets here.
abbrev pub delay_ms : Option JsNumber → ℕ
delay_ms (some (whole d)) = d * 1000
delay_ms _ = 0

abbrev pub fresh_row : Text → EnqueueInput → ℕ → Row
fresh_row id input now = record {
  id = id;
  body = input.body;
  content_type = input.content_type;
  bytes = body_bytes input.body;
  enqueued_at = now;
  visible_at = now + delay_ms input.delay_seconds;
  attempts = 0;
  lease_id = none;
  lease_expires_at = none;
  dead_lettered_at = none;
  failed_attempts = none;
}

pub record Enqueued : Type 0 where
  pub ids : Ids
  pub table : Table
  pub result : Result (List Text)

abbrev pub depth : Table → ℕ
depth t = length t

unfoldable pub purge : Table → ℕ × Table
purge t = (depth t, [])

module _ (random_int : ℕ → ℕ) where
  -- The second loop. Each insert is committed on its own.
  unfoldable pub insert_all : Ids → Table → List EnqueueInput → ℕ → List Text → Enqueued
  insert_all s t [] now out = record { ids = s; table = t; result = ok out }
  insert_all s t (input ∷ inputs) now out =
      let (id, s') = new_message_id random_int s now in
      elim (insert_row (fresh_row id input now) t) [
        | none ↦ record { ids = s'; table = t; result = err primary_key }
        | some t' ↦ insert_all s' t' inputs now (out ++ id ∷ [])
      ]

  unfoldable pub enqueue : Ids → Table → List EnqueueInput → ℕ → Enqueued
  enqueue s t inputs now = elim (check_batch inputs) [
    | some e ↦ record { ids = s; table = t; result = err e }
    | none ↦ insert_all s t inputs now []
  ]
