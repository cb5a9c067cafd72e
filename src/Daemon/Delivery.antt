-- ===== src/Daemon/Delivery.antt =====
-- packages/cli/src/daemon/queues.ts, queueStateOf and queueDeliverFn, and the wakes and firings of
-- server.ts: how the daemon's loops reach a consumer, and count its work as activity.
pub mod Awake
use hobbyist.Base.{ℕ, Bool, true, false, String, Text, [], Option, none, some, if◌then◌else◌}
use hobbyist.Core.Types.{ResourceState, failed, Resource}
use hobbyist.Queue.Message.{LeasedBatch, exception}
use hobbyist.Queue.Deliver.{Delivery, Fetched, QueueRequestBody, deliver_batch, delivery_timeout_ms}
use hobbyist.Proxy.Activity.{touch}
use hobbyist.Daemon.World.{World, get_resource}
use hobbyist.Daemon.Queues.{worker_of}
use hobbyist.Daemon.Crons.{CronFiring, CronOutcome}

-- `UNREACHABLE_CONSUMER_RESULT`, which names no failure.
abbrev pub unreachable_consumer_result : Delivery
unreachable_consumer_result = record {
  outcome = exception;
  retry = false;
  delay_seconds = none;
  retry_messages = [];
  failure = none;
}

-- `queueStateOf`: a resource that is not in the store reads as failed.
unfoldable pub queue_state_of : World → String → ResourceState
queue_state_of w id = elim (get_resource w.resources id) [ none ↦ failed | some r ↦ r.state ]

-- `activity.touch`, at the time that the clock has.
abbrev pub touch_at : ℕ → String → World → World
touch_at now id w = record w { activity = touch w.activity id now }

module _ (fetch : ℕ → QueueRequestBody → ℕ → World → Fetched × World) (now : World → ℕ) where
  -- A batch that was posted is activity, whatever came of it.
  unfoldable pub after_delivery : String → Delivery × World → Delivery × World
  after_delivery id (d, w) = (d, touch_at (now w) id w)

  -- `queueDeliverFn`.
  unfoldable pub queue_deliver : String → LeasedBatch → String → World → Delivery × World
  queue_deliver id batch queue_name w = elim (get_resource w.resources id) [
    | none ↦ (unreachable_consumer_result, w)
    | some r ↦ elim (worker_of r.config) [
      | none ↦ (unreachable_consumer_result, w)
      | some c ↦
          after_delivery id
            (deliver_batch fetch c.control_port batch queue_name delivery_timeout_ms w)
    ]
  ]

-- The wake that the alarm mirror calls: what the wake gives, and a touch once it is done.
module _ (wake : World → String → Bool × World) (now : World → ℕ) where
  unfoldable pub wake_for_alarm : World → String → Bool × World
  wake_for_alarm w id =
      let (woken, w') = wake w id in (woken, if woken then touch_at (now w') id w' else w')

-- The firing that the cron scheduler calls.
module _ (post_scheduled : CronFiring → World → CronOutcome × World) (now : World → ℕ) where
  unfoldable pub fire : CronFiring → World → CronOutcome × World
  fire firing w =
      let (outcome, w') = post_scheduled firing w in
      (outcome, touch_at (now w') firing.worker.resource_id w')
