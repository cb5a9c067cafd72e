-- ===== src/Queue/Tick.antt =====
-- packages/queue/src/tick.ts: one pass over the queues of the box.
-- The daemon around the tick is the parameter `Daemon`: the state of a resource, `wake`, `deliver`
-- and the clock. `wake` and `deliver` are awaited, so they take the whole world and give it back,
-- and other tasks may have written to the queue files meanwhile. A queue file is a table or is not
-- there; opening one does not fail. A queue is not its own dead letter queue. Log lines are left out.
pub mod Safe
pub mod DeadLetters
pub mod Loop
use hobbyist.Base.{
  ℕ, Bool, true, false, String, str_eq, List, [], ◌∷◌, ◌||◌, Option, none, some, if◌then◌else◌,
  is_some, get_or_else, any,
}
use hobbyist.Core.Types.{
  ResourceState, creating, running, starting, sleeping, stopping, failed, destroying, undeployed,
}
use hobbyist.Queue.Ids.{Ids}
use hobbyist.Queue.Message.{ConsumerOptions, LeasedMessage, LeasedBatch, DeliveryResult, lease_ms}
use hobbyist.Queue.Table.{Table}
use hobbyist.Queue.Lease.{is_batch_ready, lease_batch}
use hobbyist.Queue.Settle.{Reply, done, threw, apply_result, expire_leases}
use hobbyist.Queue.Retain.{sweep_retention, insert_dead_letter}

pub record DrainableQueue : Type 0 where
  pub resource_id : String
  pub consumer_resource_id : String
  pub queue_name : String
  pub db_path : String
  pub dead_letter_db_path : Option String
  pub options : ConsumerOptions
  pub retention_seconds : ℕ

pub record RetentionTarget : Type 0 where
  pub resource_id : String
  pub queue_name : String
  pub db_path : String
  pub retention_seconds : ℕ

-- The queue files, by path.
abbrev pub Files : Type 0
Files = String → Option Table

abbrev pub write : Files → String → Table → Files
write files path t p = if str_eq p path then some t else files p

-- `openQueueDb`: a file that is not there is made, with an empty table.
abbrev pub table_at : Files → String → Table
table_at files path = get_or_else (files path) []

abbrev pub open_queue_db : Files → String → Files
open_queue_db files path = write files path (table_at files path)

pub record World (Env : Type 0) : Type 0 where
  pub files : Files
  pub ids : Ids
  pub env : Env

pub record Daemon (Env : Type 0) : Type 0 where
  pub state_of : String → Env → ResourceState
  -- `false` is a rejection.
  pub wake : String → World Env → World Env × Bool
  -- `none` is a throw.
  pub deliver : String → LeasedBatch → String → World Env → World Env × Option DeliveryResult
  pub now : Env → ℕ

-- `routeDeadLetter`.
unfoldable pub route_dead_letter : Option String → ℕ → Files → LeasedMessage → Reply Files
route_dead_letter none now files m = done files
route_dead_letter (some path) now files m =
    done (write files path (insert_dead_letter (table_at files path) m now))

-- Step 1: expire leases.
unfoldable pub expire_step : DrainableQueue → ℕ → Files → Files
expire_step q now files =
    let a =
      expire_leases (some (route_dead_letter q.dead_letter_db_path now)) (table_at files q.db_path)
        files q.options now in
    write a.world q.db_path a.table

-- Step 2, and `sweepOnly`: sweep retention.
unfoldable pub sweep_step : String → ℕ → ℕ → Files → Files
sweep_step path seconds now files =
    write files path (sweep_retention (table_at files path) seconds now).1

unfoldable pub sweep_only : RetentionTarget → ℕ → Files → Files
sweep_only target now files = elim (files target.db_path) [
  | none ↦ files
  | some t ↦ sweep_step target.db_path target.retention_seconds now files
]

-- Steps 1 and 2, with the file opened.
unfoldable pub upkeep : DrainableQueue → ℕ → Files → Files
upkeep q now files =
    sweep_step q.db_path q.retention_seconds now (expire_step q now (open_queue_db files q.db_path))

-- Step 7: apply the result.
unfoldable pub apply_step : DrainableQueue → LeasedBatch → DeliveryResult → ℕ → Files → Files
apply_step q b result at files =
    let a =
      apply_result (some (route_dead_letter q.dead_letter_db_path at)) (table_at files q.db_path)
        files b.lease_id result q.options at in
    write a.world q.db_path a.table

module _ (random_int : ℕ → ℕ) {Env : Type 0} (d : Daemon Env) where
  -- Steps 6 and 7. The clock is read again once the result is back.
  unfoldable pub deliver_step : DrainableQueue → LeasedBatch → World Env → World Env
  deliver_step q b w =
      let (w', answer) = d.deliver q.consumer_resource_id b q.queue_name w in
      elim answer [
        | none ↦ w'
        | some result ↦ record w' { files = apply_step q b result (d.now w'.env) w'.files }
      ]

  -- Steps 5 to 7.
  unfoldable pub lease_step : DrainableQueue → ℕ → World Env → World Env
  lease_step q now w =
      let l = lease_batch random_int w.ids (table_at w.files q.db_path) q.options now lease_ms in
      elim l.batch [
        | none ↦ w
        | some b ↦
            deliver_step q b (record w { files = write w.files q.db_path l.table; ids = l.ids })
      ]

  -- A wake that rejects ends the pass over this queue.
  unfoldable pub after_wake : DrainableQueue → ℕ → World Env × Bool → World Env
  after_wake q now (w, true) = lease_step q now w
  after_wake q now (w, false) = w

  -- Step 4: wake if sleeping; any other state than running is left for the next tick.
  unfoldable pub wake_step : DrainableQueue → ℕ → World Env → World Env
  wake_step q now w = elim (d.state_of q.consumer_resource_id w.env) [
    | sleeping ↦ after_wake q now (d.wake q.consumer_resource_id w)
    | running ↦ lease_step q now w
    | _ ↦ w
  ]

  unfoldable pub tick_one_queue : DrainableQueue → ℕ → World Env → World Env
  tick_one_queue q now w =
      let w' : World Env = record w { files = upkeep q now w.files } in
      elim (is_batch_ready (table_at w'.files q.db_path) q.options now) [
        | false ↦ w'
        | true ↦ wake_step q now w'
      ]

  unfoldable pub tick_queues : List DrainableQueue → ℕ → World Env → World Env
  tick_queues [] now w = w
  tick_queues (q ∷ queues) now w = tick_queues queues now (tick_one_queue q now w)

  unfoldable pub sweep_targets :
      List DrainableQueue → List RetentionTarget → ℕ → World Env → World Env
  sweep_targets queues [] now w = w
  sweep_targets queues (target ∷ targets) now w = sweep_targets queues targets now (
      if any (λ q. str_eq q.resource_id target.resource_id) queues
      then w
      else record w { files = sweep_only target now w.files })

  -- `tickOnce`.
  unfoldable pub tick_once : List DrainableQueue → List RetentionTarget → World Env → World Env
  tick_once queues retention w =
      let now = d.now w.env in sweep_targets queues retention now (tick_queues queues now w)
