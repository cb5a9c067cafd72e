-- ===== src/Queue/Deliver.antt =====
-- packages/queue/src/deliver.ts: a leased batch on its way to a container, and the answer.
-- The fetch is a parameter: what it gives is its outcome. A delay is any JavaScript number here, as
-- the source lets it through.
pub mod Understood
pub mod Retried
use hobbyist.Base.{
  ℕ, ◌/◌, Bool, true, false, not, ◌&&◌, leb, String, Text, text_eq, codes, List, [], ◌∷◌, map,
  Option, none, some, if◌then◌else◌, get_or_else,
}
use hobbyist.Queue.Message.{
  JsNumber, whole, below_zero, not_whole, LeasedMessage, LeasedBatch, DeliveryResult, Outcome,
  ok_outcome, exception, lease_ms,
}
use hobbyist.Queue.Json.{
  Json, null, boolean, number, string, array, object, Items, no_items, item, Fields, no_fields,
  field, look, fields_of, string_of, boolean_of, number_or_undefined,
}

abbrev pub delivery_timeout_ms : ℕ
delivery_timeout_ms = lease_ms / 2

-- Why a delivery failed, as its text says.
pub data Failure : Type 0 where
  timed_out : ℕ → Failure
  unreachable : Text → Failure
  answered_status : ℕ → Failure
  not_json : Failure
  not_queue_response : Failure

pub record Delivery : Type 0 where
  pub outcome : Outcome
  pub retry : Bool
  pub delay_seconds : Option JsNumber
  pub retry_messages : List (Text × Option JsNumber)
  pub failure : Option Failure

abbrev pub exception_result : Failure → Delivery
exception_result failure = record {
  outcome = exception;
  retry = false;
  delay_seconds = none;
  retry_messages = [];
  failure = some failure;
}

-- `isRetryMessages`, with the entries that it lets through.
unfoldable pub retry_message : Json → Option (Text × Option JsNumber)
retry_message entry = elim (fields_of entry) [
  | none ↦ none
  | some fs ↦ elim (look "msgId" fs) [
    | none ↦ none
    | some id ↦ elim (string_of id) [
      | none ↦ none
      | some msg_id ↦ elim (number_or_undefined (look "delaySeconds" fs)) [
        | none ↦ none
        | some delay ↦ some (msg_id, delay)
      ]
    ]
  ]
]

abbrev pub with_message :
    Option (Text × Option JsNumber)
    → Option (List (Text × Option JsNumber))
    → Option (List (Text × Option JsNumber))
with_message (some m) (some ms) = some (m ∷ ms)
with_message _ _ = none

unfoldable pub retry_messages_of : Items → Option (List (Text × Option JsNumber))
retry_messages_of no_items = some []
retry_messages_of (item x xs) = with_message (retry_message x) (retry_messages_of xs)

unfoldable pub outcome_of : Option Json → Option Outcome
outcome_of (some (string s)) =
    if text_eq s (codes "ok")
    then some ok_outcome
    else if text_eq s (codes "exception")
    then some exception
    else none
outcome_of _ = none

-- The two fields of `retryBatch`.
unfoldable pub retry_batch_of : Option Json → Option (Bool × Option JsNumber)
retry_batch_of none = none
retry_batch_of (some v) = elim (fields_of v) [
  | none ↦ none
  | some fs ↦ elim (look "retry" fs) [
    | none ↦ none
    | some r ↦ elim (boolean_of r) [
      | none ↦ none
      | some retry ↦ elim (number_or_undefined (look "delaySeconds" fs)) [
        | none ↦ none
        | some delay ↦ some (retry, delay)
      ]
    ]
  ]
]

unfoldable pub list_of : Option Json → Option (List (Text × Option JsNumber))
list_of (some (array xs)) = retry_messages_of xs
list_of _ = none

-- The three fields, if they are there: null if one is not what it has to be.
abbrev pub with_fields :
    Option Outcome
    → Option (Bool × Option JsNumber)
    → Option (List (Text × Option JsNumber))
    → Option Delivery
with_fields (some outcome) (some (retry, delay)) (some ms) = some (record {
  outcome = outcome;
  retry = retry;
  delay_seconds = delay;
  retry_messages = ms;
  failure = none;
})
with_fields _ _ _ = none

unfoldable pub parse_fields : Fields → Option Delivery
parse_fields fs =
    with_fields (outcome_of (look "outcome" fs)) (retry_batch_of (look "retryBatch" fs))
      (list_of (look "retryMessages" fs))

unfoldable pub parse_delivery_result : Json → Option Delivery
parse_delivery_result value = elim (fields_of value) [ none ↦ none | some fs ↦ parse_fields fs ]

pub record QueueRequestMessage : Type 0 where
  pub id : Text
  pub timestamp : ℕ
  pub body : String
  pub attempts : ℕ

pub record QueueRequestBody : Type 0 where
  pub queue : String
  pub messages : List QueueRequestMessage
  pub backlog_count : ℕ
  pub backlog_bytes : ℕ
  pub oldest_message_timestamp : ℕ

abbrev pub request_message : LeasedMessage → QueueRequestMessage
request_message m = record {
  id = m.id;
  timestamp = m.timestamp_ms;
  body = m.body;
  attempts = m.attempts;
}

unfoldable pub request_body : LeasedBatch → String → QueueRequestBody
request_body batch queue_name = record {
  queue = queue_name;
  messages = map request_message batch.messages;
  backlog_count = batch.backlog_count;
  backlog_bytes = batch.backlog_bytes;
  oldest_message_timestamp = get_or_else batch.oldest_message_timestamp_ms 0;
}

-- What the fetch gives: it rejects with a TimeoutError or another error, or there is a response,
-- whose body is not JSON or parses.
pub data Fetched : Type 0 where
  timeout_error : Fetched
  rejected : Text → Fetched
  response : ℕ → Option Json → Fetched

-- `res.ok`.
abbrev pub is_ok_status : ℕ → Bool
is_ok_status status = leb 200 status && leb status 299

unfoldable pub read_response : Option Json → Delivery
read_response none = exception_result not_json
read_response (some parsed) =
    get_or_else (parse_delivery_result parsed) (exception_result not_queue_response)

unfoldable pub result_of : ℕ → Fetched → Delivery
result_of timeout_ms timeout_error = exception_result (timed_out timeout_ms)
result_of timeout_ms (rejected error) = exception_result (unreachable error)
result_of timeout_ms (response status body) =
    if is_ok_status status then read_response body else exception_result (answered_status status)

module _ {Env : Type 0} (fetch : ℕ → QueueRequestBody → ℕ → Env → Fetched × Env) where
  -- `deliverBatch`: the control port, the batch, the queue's name and the timeout.
  unfoldable pub deliver_batch : ℕ → LeasedBatch → String → ℕ → Env → Delivery × Env
  deliver_batch control_port batch queue_name timeout_ms env =
      let (fetched, env') = fetch control_port (request_body batch queue_name) timeout_ms env in
      (result_of timeout_ms fetched, env')
