-- ===== src/Queue/Deliver/Understood.antt =====
-- What a container answers, and what the daemon reads in it.
use hobbyist.Base.{
  ℕ, ◌≡◌, refl, ap₂, Bool, true, false, Text, codes, List, [], ◌∷◌, Option, none, some, arith,
}
use hobbyist.Queue.Message.{JsNumber, Outcome, ok_outcome, exception}
use hobbyist.Queue.Json.{
  Json, boolean, number, string, array, object, Items, no_items, item, Fields, no_fields, field,
  look,
}
use hobbyist.Queue.Deliver.{
  Delivery, with_message, with_fields, retry_message, retry_messages_of, outcome_of, retry_batch_of,
  list_of, parse_fields, parse_delivery_result,
}

-- A QueueResponse as workerd writes it, with the two fields that the daemon does not read.
abbrev pub delay_fields : Option JsNumber → Fields
delay_fields none = no_fields
delay_fields (some n) = field "delaySeconds" (number n) no_fields

abbrev pub retry_items : List (Text × Option JsNumber) → Items
retry_items [] = no_items
retry_items ((id, delay) ∷ ms) =
    item (object (field "msgId" (string id) (delay_fields delay))) (retry_items ms)

abbrev pub outcome_text : Outcome → Text
outcome_text ok_outcome = codes "ok"
outcome_text exception = codes "exception"

abbrev pub queue_response : Delivery → Bool → Items → Json
queue_response d ack_all explicit_acks = object (
    field "outcome" (string (outcome_text d.outcome)) (
      field "ackAll" (boolean ack_all) (
        field "retryBatch" (object (field "retry" (boolean d.retry) (delay_fields d.delay_seconds)))
          (field "explicitAcks" (array explicit_acks)
            (field "retryMessages" (array (retry_items d.retry_messages)) no_fields)))))

outcome_lem : (o : Outcome) → outcome_of (some (string (outcome_text o))) ≡ some o
unfolding outcome_of hobbyist.Base.text_eq
outcome_lem ok_outcome = refl
outcome_lem exception = refl

batch_lem :
    (retry : Bool) (delay : Option JsNumber)
    → retry_batch_of (some (object (field "retry" (boolean retry) (delay_fields delay))))
      ≡ some (retry, delay)
unfolding retry_batch_of look
batch_lem retry none = refl
batch_lem retry (some n) = refl

entry_lem :
    (id : Text) (delay : Option JsNumber)
    → retry_message (object (field "msgId" (string id) (delay_fields delay))) ≡ some (id, delay)
unfolding retry_message look
entry_lem id none = refl
entry_lem id (some n) = refl

list_lem : (ms : List (Text × Option JsNumber)) → retry_messages_of (retry_items ms) ≡ some ms
unfolding retry_messages_of
list_lem [] = refl
list_lem ((id, delay) ∷ ms) = ap₂ with_message (entry_lem id delay) (list_lem ms)

-- The daemon reads in a QueueResponse the outcome, the retry of the batch and the retries of the
-- messages, with their delays, that the consumer wrote into it.
pub parse_delivery_result-queue_response :
    (d : Delivery) (ack_all : Bool) (explicit_acks : Items)
    → parse_delivery_result (queue_response d ack_all explicit_acks)
      ≡ some (record d { failure = none })
unfolding parse_delivery_result parse_fields look list_of
parse_delivery_result-queue_response d ack_all explicit_acks =
    ap₂ (λ f ms. f ms) (ap₂ with_fields (outcome_lem d.outcome) (batch_lem d.retry d.delay_seconds))
      (list_lem d.retry_messages)
