-- ===== src/Queue/Message.antt =====
-- The data of packages/queue/src/broker.ts and schema.ts: messages, options, results, limits.
-- A `number` that holds a count, a time or a whole delay is a ℕ. Times are milliseconds.
use Prim.Native.String.{len}
use hobbyist.Base.{ℕ, String, Text, text_eq, List, Option, none, Bool, any}

pub data ContentType : Type 0 where
  json text bytes_type v8 : ContentType

-- A JavaScript number as the delay check tells it apart: a whole number from 0 on, one below 0, and
-- anything that `Number.isInteger` refuses.
pub data JsNumber : Type 0 where
  whole : ℕ → JsNumber
  below_zero : ℕ → JsNumber
  not_whole : JsNumber

pub record EnqueueInput : Type 0 where
  pub body : String
  pub content_type : ContentType
  pub delay_seconds : Option JsNumber

abbrev pub max_message_bytes : ℕ
max_message_bytes = 128000

abbrev pub max_batch_count : ℕ
max_batch_count = 100

abbrev pub max_batch_bytes : ℕ
max_batch_bytes = 288000

abbrev pub max_delay_seconds : ℕ
max_delay_seconds = 86400

-- `Buffer.byteLength(body, 'utf8')`.
abbrev pub body_bytes : String → ℕ
body_bytes body = len body

-- A row of the table `messages`.
pub record Row : Type 0 where
  pub id : Text
  pub body : String
  pub content_type : ContentType
  pub bytes : ℕ
  pub enqueued_at : ℕ
  pub visible_at : ℕ
  pub attempts : ℕ
  pub lease_id : Option Text
  pub lease_expires_at : Option ℕ
  pub dead_lettered_at : Option ℕ
  pub failed_attempts : Option ℕ

pub record ConsumerOptions : Type 0 where
  pub max_batch_size : ℕ
  pub max_batch_timeout_seconds : ℕ
  pub max_retries : ℕ
  pub retry_delay_seconds : ℕ
  pub dead_letter_queue : Option Text

abbrev pub default_consumer_options : ConsumerOptions
default_consumer_options = record {
  max_batch_size = 5;
  max_batch_timeout_seconds = 1;
  max_retries = 2;
  retry_delay_seconds = 0;
  dead_letter_queue = none;
}

pub record LeasedMessage : Type 0 where
  pub id : Text
  pub body : String
  pub content_type : ContentType
  pub timestamp_ms : ℕ
  pub attempts : ℕ

-- A message with this id is in the list.
abbrev pub mentions : Text → List LeasedMessage → Bool
mentions id = any (λ m. text_eq m.id id)

pub record LeasedBatch : Type 0 where
  pub lease_id : Text
  pub messages : List LeasedMessage
  pub backlog_count : ℕ
  pub backlog_bytes : ℕ
  pub oldest_message_timestamp_ms : Option ℕ

abbrev pub lease_ms : ℕ
lease_ms = 60000

pub data Outcome : Type 0 where
  ok_outcome exception : Outcome

-- `retryBatch` is the two fields `retry` and `delay_seconds`; a delay is a whole number from 0 on.
-- `failure` is only logged, and left out.
pub record DeliveryResult : Type 0 where
  pub outcome : Outcome
  pub retry : Bool
  pub delay_seconds : Option ℕ
  pub retry_messages : List (Text × Option ℕ)

pub data PeekedState : Type 0 where
  ready leased delayed : PeekedState

pub record PeekedMessage : Type 0 where
  pub message : LeasedMessage
  pub state : PeekedState
  pub visible_at_ms : ℕ
  pub dead_lettered_at_ms : Option ℕ
  pub failed_attempts : Option ℕ

-- Why a call is refused: the three `usage` errors that say which limit was passed, the one about a
-- delay, and sqlite's refusal of a second row with one primary key.
pub data Refusal : Type 0 where
  too_many_messages message_too_big batch_too_big bad_delay primary_key : Refusal

pub data Result {ℓ} (A : Type ℓ) : Type ℓ where
  ok : A → Result A
  err : Refusal → Result A
