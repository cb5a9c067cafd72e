-- ===== src/Core/Types.antt =====
-- packages/core/src/types.ts: resources, their kinds, states and configurations.
-- Of a configuration the fields that the modelled code reads are kept.
use hobbyist.Base.{Text, List, ℕ, String, Bool, true, false, Option}

pub data ResourceKind : Type 0 where
  postgres app worker queue : ResourceKind

pub data ResourceState : Type 0 where
  creating running starting sleeping stopping failed destroying undeployed : ResourceState

pub record QueueConfig : Type 0 where
  pub host_port : ℕ
  pub retention_seconds : ℕ
  pub consumer_resource_id : Option String
  pub max_batch_size : Option ℕ
  pub max_batch_timeout_seconds : Option ℕ
  pub max_retries : Option ℕ
  pub retry_delay_seconds : Option ℕ
  pub dead_letter_queue : Option String

pub record AppConfig : Type 0 where
  pub host_port : ℕ
  pub database_resource_id : Option String

-- `queues.consumers` by the names of their queues.
pub record WorkerManifest : Type 0 where
  pub consumers : List String
  pub crons : Option (List Text)

pub record WorkerConfig : Type 0 where
  pub manifest : Option WorkerManifest
  pub host_port : ℕ
  pub control_port : ℕ
  pub database_resource_id : Option String

-- The configuration is what tells the kinds apart.
pub data ResourceConfig : Type 0 where
  postgres_config : ℕ → ResourceConfig
  app_config : AppConfig → ResourceConfig
  worker_config : WorkerConfig → ResourceConfig
  queue_config : QueueConfig → ResourceConfig

pub record Resource : Type 0 where
  pub id : String
  pub project_id : String
  pub name : String
  pub state : ResourceState
  pub config : ResourceConfig

pub record Project : Type 0 where
  pub id : String
  pub name : String
  pub network_name : String
  pub sleep_after_seconds : Option ℕ
  pub released_at : Option ℕ

abbrev pub kind_of : ResourceConfig → ResourceKind
kind_of (postgres_config port) = postgres
kind_of (app_config c) = app
kind_of (worker_config c) = worker
kind_of (queue_config c) = queue

abbrev pub kind : Resource → ResourceKind
kind r = kind_of r.config

abbrev pub is_running : ResourceState → Bool
is_running running = true
is_running _ = false

abbrev pub is_postgres : ResourceKind → Bool
is_postgres postgres = true
is_postgres _ = false

abbrev pub is_queue : ResourceKind → Bool
is_queue queue = true
is_queue _ = false
