-- ===== src/Queue/Deliver/Retried.antt =====
-- What becomes of a batch whose delivery failed, through deliverBatch, applyResult and the tick.
use hobbyist.Base.{
  ℕ, ◌≡◌, ◌⊎◌, inl, inr, refl, ap, sym, ◌∙◌, Bool, true, false, ◌&&◌, String, str_eq, Text, List,
  [], ◌∷◌, Option, none, some, is_some, arith, Bool-cases,
}
use hobbyist.Queue.Message.{JsNumber, whole, Row, LeasedBatch, DeliveryResult, exception}
use hobbyist.Queue.Table.{has_id, find_row, HasDistinctIds}
use hobbyist.Queue.Settle.OnePass.{is_acked}
use hobbyist.Queue.Tick.{DrainableQueue, Files, table_at, apply_step}
use hobbyist.Queue.Tick.DeadLetters.{apply_step-no_loss}
use hobbyist.Queue.Deliver.{
  Failure, timed_out, unreachable, answered_status, not_json, not_queue_response, Delivery,
  exception_result, parse_delivery_result, Fetched, timeout_error, rejected, response, is_ok_status,
  read_response, result_of, deliver_batch, QueueRequestBody, request_body,
}

-- The whole delays, as the broker's model takes them.
unfoldable pub whole_delay : Option JsNumber → Option (Option ℕ)
whole_delay none = some none
whole_delay (some (whole n)) = some (some n)
whole_delay (some _) = none

unfoldable pub whole_delays : List (Text × Option JsNumber) → Option (List (Text × Option ℕ))
whole_delays [] = some []
whole_delays ((id, delay) ∷ ms) = elim (whole_delay delay) [
  | none ↦ none
  | some d ↦ elim (whole_delays ms) [ none ↦ none | some ds ↦ some ((id, d) ∷ ds) ]
]

-- The result that the broker gets, if its delays are whole numbers.
unfoldable pub broker_result : Delivery → Option DeliveryResult
broker_result d = elim (whole_delay d.delay_seconds) [
  | none ↦ none
  | some delay ↦ elim (whole_delays d.retry_messages) [
    | none ↦ none
    | some ms ↦ some (record {
      outcome = d.outcome;
      retry = d.retry;
      delay_seconds = delay;
      retry_messages = ms;
    })
  ]
]

-- An answer that the contract asks for: a status of success, and a QueueResponse.
abbrev pub is_queue_answer : Fetched → Bool
is_queue_answer (response status (some body)) =
    is_ok_status status && is_some (parse_delivery_result body)
is_queue_answer _ = false

failed_lem :
    (timeout_ms : ℕ) (f : Fetched)
    → is_queue_answer f ≡ false
    → (failure : Failure) × (result_of timeout_ms f ≡ exception_result failure)
unfolding result_of read_response
failed_lem timeout_ms timeout_error h = (timed_out timeout_ms, refl)
failed_lem timeout_ms (rejected error) h = (unreachable error, refl)
failed_lem timeout_ms (response status none) h = elim (Bool-cases (is_ok_status status)) [
  | inl success ↦ (not_json, rw success refl)
  | inr failed ↦ (answered_status status, rw failed refl)
]
failed_lem timeout_ms (response status (some body)) h = elim (Bool-cases (is_ok_status status)) [
  | inl success ↦ (not_queue_response, ground (arith, h, success))
  | inr failed ↦ (answered_status status, rw failed refl)
]

exception_lem :
    (failure : Failure) (result : DeliveryResult)
    → broker_result (exception_result failure) ≡ some result
    → result.outcome ≡ exception
unfolding broker_result whole_delay whole_delays
exception_lem failure result e = ground (arith, e)

not_acked_lem :
    (result : DeliveryResult) (id : Text) → result.outcome ≡ exception → is_acked result id ≡ false
not_acked_lem result id e = ground (arith, e)

module _ {Env : Type 0} (fetch : ℕ → QueueRequestBody → ℕ → Env → Fetched × Env) where
  -- A delivery that was not answered with a status of success and a QueueResponse loses no message:
  -- once the tick has applied what deliverBatch made of it, each message that was in the queue's
  -- file is still there, or is in the dead letter queue's file, for a queue with distinct ids whose
  -- dead letter queue is another file.
  pub failed_delivery-no_loss :
      (q : DrainableQueue) (b : LeasedBatch) (port timeout_ms : ℕ) (env : Env)
      (result : DeliveryResult) (path : String) (at : ℕ) (files : Files) (r : Row)
      → is_queue_answer (fetch port (request_body b q.queue_name) timeout_ms env).0 ≡ false
      → broker_result (deliver_batch fetch port b q.queue_name timeout_ms env).0 ≡ some result
      → q.dead_letter_db_path ≡ some path
      → str_eq path q.db_path ≡ false
      → HasDistinctIds (table_at files q.db_path)
      → find_row r.id (table_at files q.db_path) ≡ some r
      → let later = apply_step q b result at files in
        (has_id r.id (table_at later q.db_path) ≡ true) ⊎ (has_id r.id (table_at later path) ≡ true)
  unfolding deliver_batch
  failed_delivery-no_loss q b port timeout_ms env result path at files r unanswered given dlq apart
        distinct found =
      let (failure, e) =
        failed_lem timeout_ms (fetch port (request_body b q.queue_name) timeout_ms env).0
          unanswered in
      let denied : is_acked result r.id ≡ false =
        not_acked_lem result r.id
          (exception_lem failure result (sym (ap broker_result e) ∙ given)) in
      elim (apply_step-no_loss q b result path at files r dlq apart distinct found) [
        | inl kept ↦ kept
        | inr (under, acked) ↦ absurd (ground (arith, acked, denied))
      ]
