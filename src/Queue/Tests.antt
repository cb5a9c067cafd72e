-- ===== src/Queue/Tests.antt =====
-- Runs of the queue's operations, and the theorems about them at those runs.
use hobbyist.Base.{
  ℕ, ◌+◌, ◌%◌, ◌≡◌, ◌<◌, ◌↔◌, ◌⊎◌, refl, subst, is_some, str_eq, Bool-cases, inl, inr, Bool, true,
  false, not, Text, codes, text_lt, String, List, [], ◌∷◌, ◌++◌, Option, none, some, length, keep,
  arith,
}
use hobbyist.Queue.Ids.{Ids, initial, new_message_id, increment?, advance}
use hobbyist.Queue.Ids.Order.{CanIncrement, new_message_id-lt}
use hobbyist.Queue.Message.{
  EnqueueInput, text, json, whole, below_zero, Row, ConsumerOptions, default_consumer_options,
  LeasedMessage, LeasedBatch, DeliveryResult, ok_outcome, mentions, lease_ms,
}
use hobbyist.Queue.Table.{Table, has_id, find_row, order_by_id, HasDistinctIds}
use hobbyist.Queue.Enqueue.{check_batch, enqueue}
use hobbyist.Queue.Enqueue.AllOrNothing.{IsAccepted, check_batch_iff}
use hobbyist.Queue.Lease.{
  is_ready, is_batch_ready, lease_batch, is_outstanding, has_outstanding_lease,
}
use hobbyist.Queue.Lease.Exclusive.{lease_batch_exclusive}
use hobbyist.Queue.Lease.Progress.{lease_batch_of_ready}
use hobbyist.Queue.Settle.{Counts, is_under, is_expired, apply_result, expire_leases, done}
use hobbyist.Queue.Settle.OnePass.{is_acked, apply_fate}
use hobbyist.Queue.Settle.Committed.{Commits, apply_result-Commits}
use hobbyist.Queue.WellFormed.{IsWellFormed}
use hobbyist.Queue.WellFormed.Reachable.{Reach, here, next, enqueues, leases, Reach-IsWellFormed}
use hobbyist.Queue.Tick.{
  DrainableQueue, Files, write, table_at, World, Daemon, expire_step, apply_step,
}
use hobbyist.Queue.Tick.Safe.{IsSound, KeepsSound}
use hobbyist.Core.Types.{sleeping}
use hobbyist.Queue.Tick.DeadLetters.{expire_step-no_loss, apply_step-no_loss}
use hobbyist.Base.{All}
use hobbyist.Core.Loop.{Event, slept, answered, resumed, finished, was_stopped, elsewhere}
use hobbyist.Core.Loop.Kept.{IsKept}
use hobbyist.Queue.Tick.Loop.{run_queue_tick, run_queue_tick-IsSound}
use hobbyist.Queue.Mailbox.{MailStep}
use hobbyist.Queue.Mailbox.Contents.{contents}
use hobbyist.Queue.Mailbox.Refines.{operation_of, BrokerStep-MailStep}
use hobbyist.Queue.Mailbox.Held.{BrokerStep-kept}
use hobbyist.Queue.WellFormed.Reachable.{BrokerStep}
use hobbyist.Queue.Message.{exception}
use hobbyist.Queue.Json.{no_items}
use hobbyist.Queue.Deliver.{QueueRequestBody, Fetched, response, Delivery, parse_delivery_result}
use hobbyist.Queue.Deliver.Understood.{queue_response, parse_delivery_result-queue_response}
use hobbyist.Queue.Deliver.Retried.{failed_delivery-no_loss}

abbrev rnd : ℕ → ℕ
rnd n = n % 32

abbrev row : Text → ℕ → Option Text → Option ℕ → Row
row id attempts lease expires = record {
  id = id;
  body = "hi";
  content_type = text;
  bytes = 2;
  enqueued_at = 1000;
  visible_at = 1000;
  attempts = attempts;
  lease_id = lease;
  lease_expires_at = expires;
  dead_lettered_at = none;
  failed_attempts = none;
}

abbrev waiting : Row
waiting = row (codes "A") 0 none none

abbrev spent : Row
spent = row (codes "B") 3 (some (codes "L")) (some 5000)

abbrev held : Row
held = row (codes "C") 1 (some (codes "L")) (some 5000)

abbrev rows : Table
rows = waiting ∷ spent ∷ held ∷ []

abbrev opts : ConsumerOptions
opts = default_consumer_options

-- The consumer acknowledges the batch but for the message B, which is to be tried again.
abbrev answer : DeliveryResult
answer = record {
  outcome = ok_outcome;
  retry = false;
  delay_seconds = none;
  retry_messages = (codes "B", none) ∷ [];
}

abbrev letter : LeasedMessage
letter = record { id = codes "Z"; body = "hi"; content_type = text; timestamp_ms = 7; attempts = 3 }

abbrev input : EnqueueInput
input = record { body = "hello"; content_type = json; delay_seconds = some (whole 2) }

abbrev late_input : EnqueueInput
late_input = record { body = "hello"; content_type = json; delay_seconds = some (below_zero 1) }

-- C is acknowledged, B has no retry left and is a dead letter, A is not in the batch.
settles :
    (apply_result {World = Unit} none rows tt (codes "L") answer opts 6000).table ≡ waiting ∷ []
unfolding apply_result hobbyist.Queue.Settle.commit hobbyist.Queue.Settle.settle_rows order_by_id
    hobbyist.Base.text_eq hobbyist.Queue.Table.insert_by_id text_lt hobbyist.Queue.Settle.apply_row
    hobbyist.Queue.Settle.map_get hobbyist.Queue.Settle.dead_letter hobbyist.Queue.Settle.notify
    hobbyist.Queue.Table.delete_where
settles = refl

rows-HasDistinctIds : HasDistinctIds rows
unfolding hobbyist.Base.text_eq
rows-HasDistinctIds = (refl, (refl, (refl, tt)))

rows-ready : is_batch_ready rows opts 6000 ≡ true
unfolding is_batch_ready hobbyist.Queue.Lease.min_of
rows-ready = refl

abbrev batch : LeasedBatch
batch = record {
  lease_id = (new_message_id rnd initial 6000).0;
  messages =
      record { id = codes "A"; body = "hi"; content_type = text; timestamp_ms = 1000; attempts = 1 }
      ∷ [];
  backlog_count = 0;
  backlog_bytes = 0;
  oldest_message_timestamp_ms = none;
}

leases_A : (lease_batch rnd initial rows opts 6000 lease_ms).batch ≡ some batch
unfolding lease_batch hobbyist.Queue.Lease.ready_rows order_by_id hobbyist.Queue.Table.insert_by_id
    hobbyist.Queue.Lease.batch_of hobbyist.Queue.Lease.claim_all hobbyist.Queue.Lease.sum_bytes
    hobbyist.Queue.Lease.min_of hobbyist.Queue.Table.update_where hobbyist.Base.text_eq
leases_A = refl

check_batch_iff_example :
    (check_batch (input ∷ late_input ∷ []) ≡ none) ↔ IsAccepted (input ∷ late_input ∷ [])
check_batch_iff_example = check_batch_iff (input ∷ late_input ∷ [])

late_input-not_IsAccepted : ¬ IsAccepted (input ∷ late_input ∷ [])
late_input-not_IsAccepted a = a.each.1.0.1

input-IsAccepted : IsAccepted (input ∷ input ∷ [])
unfolding check_batch hobbyist.Queue.Enqueue.check_inputs hobbyist.Queue.Enqueue.delay_of
input-IsAccepted = (check_batch_iff (input ∷ input ∷ [])).0 refl

lease_batch_of_ready_example :
    (b : LeasedBatch) × ((lease_batch rnd initial rows opts 6000 lease_ms).batch ≡ some b)
lease_batch_of_ready_example =
    lease_batch_of_ready rnd initial rows opts 6000 lease_ms rows-ready (omega arith)

apply_result-Commits_example :
    Commits {World = List LeasedMessage} none
      (is_under (codes "L"))
      (apply_fate answer opts 6000)
      (order_by_id (keep (is_under (codes "L")) rows))
      rows
      []
      (apply_result none rows [] (codes "L") answer opts 6000)
apply_result-Commits_example =
    apply_result-Commits none rows [] (codes "L") answer opts 6000 rows-HasDistinctIds

abbrev dead_letters : String
dead_letters = "dead.sqlite"

abbrev files : Files
files = write (λ path. none) "orders.sqlite" rows

abbrev orders : DrainableQueue
orders = record {
  resource_id = "q1";
  consumer_resource_id = "w1";
  queue_name = "orders";
  db_path = "orders.sqlite";
  dead_letter_db_path = some dead_letters;
  options = opts;
  retention_seconds = 3600;
}

expire_step-no_loss_example :
    let later = expire_step orders 6000 files in
    (has_id (codes "B") (table_at later "orders.sqlite") ≡ true)
    ⊎ (has_id (codes "B") (table_at later dead_letters) ≡ true)
unfolding find_row hobbyist.Base.text_eq
expire_step-no_loss_example =
    expire_step-no_loss orders dead_letters 6000 files spent refl refl rows-HasDistinctIds refl

abbrev held_batch : LeasedBatch
held_batch = record batch { lease_id = codes "L" }

apply_step-no_loss_example :
    let later = apply_step orders held_batch answer 6000 files in
    ((has_id (codes "B") (table_at later "orders.sqlite") ≡ true)
      ⊎ (has_id (codes "B") (table_at later dead_letters) ≡ true))
    ⊎ ((is_under (codes "L") spent ≡ true) × (is_acked answer (codes "B") ≡ true))
unfolding find_row hobbyist.Base.text_eq
apply_step-no_loss_example =
    apply_step-no_loss orders held_batch answer dead_letters 6000 files spent refl refl
      rows-HasDistinctIds refl

abbrev served :
    Reach rnd Unit []
      (lease_batch rnd initial
        (enqueue rnd initial [] (input ∷ []) 1000).table
        opts
        6000
        lease_ms).table
served =
    next (next here (enqueues initial [] (input ∷ []) 1000)) (leases initial _ opts 6000 lease_ms)

Reach-IsWellFormed_example :
    IsWellFormed
      (lease_batch rnd initial
        (enqueue rnd initial [] (input ∷ []) 1000).table
        opts
        6000
        lease_ms).table
Reach-IsWellFormed_example = Reach-IsWellFormed rnd served

rnd-lt : (n : ℕ) → rnd n < 32
rnd-lt n = omega arith

first_step : is_some (increment? (advance rnd initial 5000).last_random) ≡ true
unfolding increment? advance hobbyist.Queue.Ids.draw_random hobbyist.Queue.Ids.draw_from
first_step = refl

first_digits : CanIncrement (advance rnd initial 5000).last_random
first_digits e =
    let impossible : false ≡ true = subst (λ o. is_some o ≡ true) e first_step in ground arith

new_message_id-lt_example :
    let (first, s') = new_message_id rnd initial 5000 in
    text_lt first (new_message_id rnd s' 5000).0 ≡ true
new_message_id-lt_example =
    new_message_id-lt rnd rnd-lt initial 5000 5000 tt first_digits (omega arith) (omega arith)

abbrev two : Table
two = waiting ∷ row (codes "D") 0 none none ∷ []

abbrev one_each : ConsumerOptions
one_each = record opts { max_batch_size = 1 }

abbrev message : Text → LeasedMessage
message id = record { id = id; body = "hi"; content_type = text; timestamp_ms = 1000; attempts = 1 }

abbrev batch_A : LeasedBatch
batch_A = record {
  lease_id = (new_message_id rnd initial 6000).0;
  messages = message (codes "A") ∷ [];
  backlog_count = 1;
  backlog_bytes = 2;
  oldest_message_timestamp_ms = some 1000;
}

abbrev batch_D : LeasedBatch
batch_D = record {
  lease_id = (new_message_id rnd initial 7000).0;
  messages = message (codes "D") ∷ [];
  backlog_count = 0;
  backlog_bytes = 0;
  oldest_message_timestamp_ms = none;
}

two_A : (lease_batch rnd initial two one_each 6000 lease_ms).batch ≡ some batch_A
unfolding lease_batch hobbyist.Queue.Lease.ready_rows order_by_id hobbyist.Queue.Table.insert_by_id
    text_lt hobbyist.Queue.Lease.batch_of hobbyist.Queue.Lease.claim_all
    hobbyist.Queue.Lease.sum_bytes hobbyist.Queue.Lease.min_of hobbyist.Queue.Table.update_where
    hobbyist.Base.text_eq
two_A = refl

two_D :
    (lease_batch rnd initial
      (lease_batch rnd initial two one_each 6000 lease_ms).table
      one_each
      7000
      lease_ms).batch
    ≡ some batch_D
unfolding lease_batch hobbyist.Queue.Lease.ready_rows order_by_id hobbyist.Queue.Table.insert_by_id
    text_lt hobbyist.Queue.Lease.claim_all hobbyist.Queue.Table.update_where hobbyist.Base.text_eq
    hobbyist.Queue.Lease.batch_of hobbyist.Queue.Lease.sum_bytes hobbyist.Queue.Lease.min_of
two_D = refl

lease_batch_exclusive_example : mentions (codes "A") batch_D.messages ≡ false
unfolding hobbyist.Base.text_eq
lease_batch_exclusive_example =
    lease_batch_exclusive rnd initial initial two one_each one_each 6000 7000 lease_ms lease_ms
      batch_A batch_D (codes "A") (refl, (refl, tt)) two_A two_D refl

-- A daemon whose consumer sleeps, wakes when asked, and answers every batch.
abbrev daemon : Daemon Unit
daemon = record {
  state_of = λ id env. sleeping;
  wake = λ id w. (w, true);
  deliver = λ id b name w. (w, some answer);
  now = λ env. 6000;
}

abbrev box : World Unit
box = record { files = files; ids = initial; env = tt }

daemon-KeepsSound : KeepsSound daemon
daemon-KeepsSound = record { wake = λ id w h. h; deliver = λ id b name w h. h }

rows-IsWellFormed : IsWellFormed rows
rows-IsWellFormed = record {
  distinct = rows-HasDistinctIds;
  rows = ((refl, refl), ((refl, refl), ((refl, refl), tt)));
}

files-IsSound : IsSound files
files-IsSound p = elim (Bool-cases (str_eq p "orders.sqlite")) [
  | inl same ↦ rw same rows-IsWellFormed
  | inr other ↦ rw other (record { distinct = tt; rows = tt })
]

-- A history of the tick's loop: a pass, a stop, and a queue file that somebody clears meanwhile.
abbrev history : List (Event (World Unit))
history =
    slept
    ∷ answered
    ∷ resumed
    ∷ finished
    ∷ elsewhere (λ w. record w { files = λ path. none })
    ∷ was_stopped
    ∷ resumed
    ∷ []

history-IsKept : All (IsKept (λ v. IsSound v.files)) history
history-IsKept =
    (tt, (tt, (tt, (tt, ((λ w h p. record { distinct = tt; rows = tt }), (tt, (tt, tt)))))))

run_queue_tick-IsSound_example :
    IsSound
      (run_queue_tick rnd daemon
        (λ w. some (orders ∷ []))
        (some (λ w. some []))
        history
        box).world.files
run_queue_tick-IsSound_example =
    run_queue_tick-IsSound rnd daemon (λ w. some (orders ∷ [])) (some (λ w. some []))
      daemon-KeepsSound history box history-IsKept files-IsSound

-- A lease of the table, as the mailbox sees it.
abbrev lease_step : BrokerStep rnd Unit rows (lease_batch rnd initial rows opts 4000 lease_ms).table
lease_step = leases initial rows opts 4000 lease_ms

BrokerStep-MailStep_example :
    MailStep
      (contents rows)
      (contents (lease_batch rnd initial rows opts 4000 lease_ms).table)
      (operation_of rnd lease_step)
BrokerStep-MailStep_example = BrokerStep-MailStep rnd lease_step rows-HasDistinctIds

BrokerStep-kept_example :
    contents (lease_batch rnd initial rows opts 4000 lease_ms).table (codes "C") ≡ some held
unfolding find_row hobbyist.Base.text_eq
BrokerStep-kept_example =
    BrokerStep-kept rnd lease_step (codes "C") held rows-HasDistinctIds refl refl refl

-- A consumer that answers with an error page, and what the batch it was sent becomes.
abbrev error_page : ℕ → QueueRequestBody → ℕ → Unit {0} → Fetched × (Unit {0})
error_page port body timeout_ms env = (response 502 none, env)

abbrev failed_result : DeliveryResult
failed_result = record {
  outcome = exception;
  retry = false;
  delay_seconds = none;
  retry_messages = [];
}

failed_delivery-no_loss_example :
    let later = apply_step orders held_batch failed_result 6000 files in
    (has_id (codes "B") (table_at later "orders.sqlite") ≡ true)
    ⊎ (has_id (codes "B") (table_at later dead_letters) ≡ true)
unfolding find_row hobbyist.Base.text_eq hobbyist.Queue.Deliver.Retried.broker_result
    hobbyist.Queue.Deliver.Retried.whole_delay hobbyist.Queue.Deliver.deliver_batch
    hobbyist.Queue.Deliver.result_of hobbyist.Queue.Deliver.Retried.whole_delays
failed_delivery-no_loss_example =
    failed_delivery-no_loss error_page orders held_batch 7000 30000 tt failed_result dead_letters
      6000 files spent refl refl refl refl rows-HasDistinctIds refl

-- An answer that retries one message after ten seconds.
abbrev retry_one : Delivery
retry_one = record {
  outcome = ok_outcome;
  retry = false;
  delay_seconds = none;
  retry_messages = (codes "B", some (whole 10)) ∷ [];
  failure = none;
}

parse_delivery_result-queue_response_example :
    parse_delivery_result (queue_response retry_one false no_items) ≡ some retry_one
parse_delivery_result-queue_response_example =
    parse_delivery_result-queue_response retry_one false no_items
