-- ===== src/Daemon/World.antt =====
-- packages/cli/src/daemon/context.ts and packages/core/src/store.ts: what the daemon's loops read.
-- Activity is the proxy's tracker; the store is the two tables its queries return.
use hobbyist.Base.{String, str_eq, List, [], ◌∷◌, Option, none, some, if◌then◌else◌}
use hobbyist.Core.Types.{
  Resource, ResourceConfig, Project, kind, is_postgres, postgres_config, app_config, worker_config,
  queue_config,
}
use hobbyist.Proxy.Activity.{Tracker}

pub record World : Type 0 where
  pub resources : List Resource
  pub projects : List Project
  pub activity : Tracker

unfoldable pub get_resource : List Resource → String → Option Resource
get_resource [] id = none
get_resource (r ∷ rs) id = if str_eq r.id id then some r else get_resource rs id

unfoldable pub get_project : List Project → String → Option Project
get_project [] id = none
get_project (p ∷ ps) id = if str_eq p.id id then some p else get_project ps id

abbrev database_resource_id : ResourceConfig → Option String
database_resource_id (postgres_config port) = none
database_resource_id (app_config c) = c.database_resource_id
database_resource_id (worker_config c) = c.database_resource_id
database_resource_id (queue_config c) = none

unfoldable pub bound_database : World → Resource → Option Resource
bound_database w r = elim (database_resource_id r.config) [
  | none ↦ none
  | some id ↦ elim (get_resource w.resources id) [
    | none ↦ none
    | some database ↦ if is_postgres (kind database) then some database else none
  ]
]
