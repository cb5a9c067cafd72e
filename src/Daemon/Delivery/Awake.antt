-- ===== src/Daemon/Delivery/Awake.antt =====
-- A worker that was just given work is not put to sleep.
use hobbyist.Base.{
  ℕ, ◌+◌, ◌*◌, ◌≡◌, refl, true, not, ◌||◌, ◌==◌, ltb, String, str_eq_iff, List, none, some,
  if◌then◌else◌, Bool-cases, inl, inr, branch, ◌∙◌, arith,
}
use hobbyist.Base.Maps.{get-put}
use hobbyist.Core.Types.{Resource, WorkerConfig, is_running, kind, is_queue}
use hobbyist.Proxy.Activity.{Tracker, touch, count, live_of, idle_seconds}
use hobbyist.Daemon.World.{World, get_resource}
use hobbyist.Daemon.Hibernator.{ActivityGuardResult, Stop, consider, threshold_of}
use hobbyist.Queue.Message.{LeasedBatch}
use hobbyist.Queue.Deliver.{Fetched, QueueRequestBody, deliver_batch, delivery_timeout_ms}
use hobbyist.Daemon.Queues.{worker_of}
use hobbyist.Daemon.Delivery.{touch_at, queue_deliver, after_delivery}

idle_seconds-touch :
    (t : Tracker) (id : String) (at now : ℕ)
    → idle_seconds (touch t id at) id now
      ≡ (if ltb 0 (count t id) then none else some (record { since = at; now = now }))
unfolding idle_seconds touch count
idle_seconds-touch t id at now =
    ground
      (arith, str_eq_iff id id, get-put id id (live_of t id) t.live, get-put id id at t.idle_since)

threshold_of-touch :
    (w : World) (r : Resource) (id : String) (at : ℕ)
    → threshold_of (touch_at at id w) r ≡ threshold_of w r
unfolding threshold_of
threshold_of-touch w r id at = refl

module _ (guard : World → Resource → ActivityGuardResult × World)
    (stop : World → Resource → World) where
  abbrev IsUnchanged : World → List Stop → World × List Stop → Type 0
  IsUnchanged w log x = x ≡ (w, log)

  -- A pass of the hibernator at less than its project's threshold after a touch leaves a resource be.
  pub consider-touch :
      (w : World) (r : Resource) (at now threshold : ℕ) (log : List Stop)
      → threshold_of w r ≡ some threshold
      → ltb now (at + threshold * 1000) ≡ true
      → consider guard stop (touch_at at r.id w) now r log ≡ (touch_at at r.id w, log)
  unfolding consider
  consider-touch w r at now threshold log h k =
      branch (IsUnchanged (touch_at at r.id w) log) (not (is_running r.state) || is_queue (kind r))
        (λ off. refl)
        (λ on. rw (threshold_of-touch w r r.id at ∙ h) (
          branch (IsUnchanged (touch_at at r.id w) log)
            (not (count (touch w.activity r.id at) r.id == 0)) (λ busy. refl)
            (λ free. elim (Bool-cases (ltb 0 (count w.activity r.id))) [
              | inl more ↦ rw (idle_seconds-touch w.activity r.id at now, more) refl
              | inr none_open ↦ rw (idle_seconds-touch w.activity r.id at now, none_open, k) refl
            ])))

module _ (fetch : ℕ → QueueRequestBody → ℕ → World → Fetched × World) (clock : World → ℕ) where
  queue_deliver-worker :
      (w : World) (r : Resource) (c : WorkerConfig) (batch : LeasedBatch) (queue_name : String)
      → get_resource w.resources r.id ≡ some r
      → worker_of r.config ≡ some c
      → queue_deliver fetch clock r.id batch queue_name w
        ≡ after_delivery fetch clock r.id
            (deliver_batch fetch c.control_port batch queue_name delivery_timeout_ms w)
  unfolding queue_deliver
  queue_deliver-worker w r c batch queue_name found works = rw (queue_deliver, found, works) refl

  -- A batch that was posted to a worker, whatever came of it, keeps the worker awake: at less than
  -- its project's threshold after the answer a pass of the hibernator leaves it be.
  pub queue_deliver-awake :
      (guard : World → Resource → ActivityGuardResult × World) (stop : World → Resource → World)
      (w : World) (r : Resource) (c : WorkerConfig) (batch : LeasedBatch) (queue_name : String)
      (now threshold : ℕ) (log : List Stop)
      → get_resource w.resources r.id ≡ some r
      → worker_of r.config ≡ some c
      → let (d, w1) = deliver_batch fetch c.control_port batch queue_name delivery_timeout_ms w in
        let w2 = (queue_deliver fetch clock r.id batch queue_name w).1 in
        threshold_of w1 r ≡ some threshold
        → ltb now (clock w1 + threshold * 1000) ≡ true
        → consider guard stop w2 now r log ≡ (w2, log)
  unfolding after_delivery
  queue_deliver-awake guard stop w r c batch queue_name now threshold log found works h k =
      rw (queue_deliver-worker w r c batch queue_name found works)
        (consider-touch guard stop _ r _ now threshold log h k)
