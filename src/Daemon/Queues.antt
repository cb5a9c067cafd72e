-- ===== src/Daemon/Queues.antt =====
-- packages/cli/src/daemon/queues.ts: which queues the tick drains, and which it only sweeps.
-- The path of a queue's file is a parameter.
pub mod Split
use hobbyist.Base.{
  ℕ, Bool, true, false, ◌==◌, String, str_eq, Text, codes, List, [], ◌∷◌, Option, none, some, any,
  length, if◌then◌else◌, get_or_else, is_some,
}
use hobbyist.Core.Types.{
  Resource, ResourceConfig, QueueConfig, WorkerConfig, Project, postgres_config, app_config,
  worker_config, queue_config,
}
use hobbyist.Queue.Message.{ConsumerOptions, default_consumer_options}
use hobbyist.Queue.Tick.{DrainableQueue, RetentionTarget}
use hobbyist.Daemon.World.{World, get_resource, get_project}

unfoldable pub has_no_deployed_code : WorkerConfig → Bool
has_no_deployed_code c = elim c.manifest [
  | none ↦ true
  | some manifest ↦ length manifest.consumers == 0
]

-- The consumer's configuration, if it is a worker.
abbrev pub worker_of : ResourceConfig → Option WorkerConfig
worker_of (worker_config c) = some c
worker_of _ = none

abbrev pub queue_of : ResourceConfig → Option QueueConfig
queue_of (queue_config c) = some c
queue_of _ = none

-- `project === null || project.releasedAt != null`, negated.
unfoldable pub managed_project : World → Resource → Option Project
managed_project w r = elim (get_project w.projects r.project_id) [
  | none ↦ none
  | some p ↦ if is_some p.released_at then none else some p
]

-- The consumer that a queue may be delivered to: a worker with deployed code.
unfoldable pub live_consumer : World → QueueConfig → Option Resource
live_consumer w c = elim c.consumer_resource_id [
  | none ↦ none
  | some id ↦ elim (get_resource w.resources id) [
    | none ↦ none
    | some consumer ↦ elim (worker_of consumer.config) [
      | none ↦ none
      | some worker ↦ if has_no_deployed_code worker then none else some consumer
    ]
  ]
]

abbrev dead_letter_text : Option String → Option Text
dead_letter_text none = none
dead_letter_text (some name) = some (codes name)

abbrev pub options_of : QueueConfig → ConsumerOptions
options_of c = record {
  max_batch_size = get_or_else c.max_batch_size default_consumer_options.max_batch_size;
  max_batch_timeout_seconds =
      get_or_else c.max_batch_timeout_seconds default_consumer_options.max_batch_timeout_seconds;
  max_retries = get_or_else c.max_retries default_consumer_options.max_retries;
  retry_delay_seconds =
      get_or_else c.retry_delay_seconds default_consumer_options.retry_delay_seconds;
  dead_letter_queue = dead_letter_text c.dead_letter_queue;
}

-- `drained.has(id)`.
abbrev pub drains : List DrainableQueue → String → Bool
drains queues id = any (λ q. str_eq q.resource_id id) queues

module _ (queue_db_path : String → String → String) where
  abbrev pub dead_letter_path : Project → QueueConfig → Option String
  dead_letter_path p c = elim c.dead_letter_queue [
    | none ↦ none
    | some name ↦ some (queue_db_path p.name name)
  ]

  -- The body of the loop of `drainableQueues`: what it pushes for a resource.
  unfoldable pub drainable : World → Resource → Option DrainableQueue
  drainable w r = elim (queue_of r.config) [
    | none ↦ none
    | some c ↦ elim (live_consumer w c) [
      | none ↦ none
      | some consumer ↦ elim (managed_project w r) [
        | none ↦ none
        | some p ↦ some (record {
          resource_id = r.id;
          consumer_resource_id = consumer.id;
          queue_name = r.name;
          db_path = queue_db_path p.name r.name;
          dead_letter_db_path = dead_letter_path p c;
          options = options_of c;
          retention_seconds = c.retention_seconds;
        })
      ]
    ]
  ]

  unfoldable pub drainable_from : World → List Resource → List DrainableQueue
  drainable_from w [] = []
  drainable_from w (r ∷ rs) = elim (drainable w r) [
    | none ↦ drainable_from w rs
    | some q ↦ q ∷ drainable_from w rs
  ]

  unfoldable pub drainable_queues : World → List DrainableQueue
  drainable_queues w = drainable_from w w.resources

  -- The body of the loop of `retentionTargets`.
  unfoldable pub retention_target : World → List DrainableQueue → Resource → Option RetentionTarget
  retention_target w drained r = elim (queue_of r.config) [
    | none ↦ none
    | some c ↦ if drains drained r.id then none else elim (managed_project w r) [
      | none ↦ none
      | some p ↦ some (record {
        resource_id = r.id;
        queue_name = r.name;
        db_path = queue_db_path p.name r.name;
        retention_seconds = c.retention_seconds;
      })
    ]
  ]

  unfoldable pub targets_from : World → List DrainableQueue → List Resource → List RetentionTarget
  targets_from w drained [] = []
  targets_from w drained (r ∷ rs) = elim (retention_target w drained r) [
    | none ↦ targets_from w drained rs
    | some t ↦ t ∷ targets_from w drained rs
  ]

  unfoldable pub retention_targets : World → List RetentionTarget
  retention_targets w = targets_from w (drainable_queues w) w.resources
