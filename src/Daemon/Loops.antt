-- ===== src/Daemon/Loops.antt =====
-- The timer loops of the daemon beside the queue tick, on the loop of Core/Loop.antt: startAlarmMirror
-- (packages/do/src/mirror.ts) on what durableObjectNamespaces (packages/cli/src/daemon/alarms.ts)
-- lists, startHibernator (hibernator.ts) and startCronScheduler (crons.ts). The directories of a
-- worker are a parameter; reading them may throw.
use hobbyist.Base.{ℕ, String, List, [], ◌∷◌, ◌++◌, map, Option, none, some, if◌then◌else◌}
use hobbyist.Core.Types.{Resource}
use hobbyist.Core.Loop.{Loop, Event, start}
use hobbyist.Core.Loop as Core
use hobbyist.Daemon.World.{World}
use hobbyist.Daemon.Queues.{worker_of, managed_project}
use hobbyist.Daemon.Hibernator.{ActivityGuardResult, is_awake, tick}
use hobbyist.Daemon.Alarm.{MirroredNamespace, mirror_once}
use hobbyist.Daemon.Crons.{ScheduledWorker, CronState, Calls, tick_crons}

-- `namespaceDirs` of the worker's `do` directory, by the names of its project and its own.
module _ (namespace_dirs : String → String → Option (List String)) where
  unfoldable pub namespaces_of : World → Resource → Option (List MirroredNamespace)
  namespaces_of w r = elim (worker_of r.config) [
    | none ↦ some []
    | some c ↦ if is_awake r.state then some [] else elim (managed_project w r) [
      | none ↦ some []
      | some p ↦ elim (namespace_dirs p.name r.name) [
        | none ↦ none
        | some dirs ↦ some (map (λ dir. record { resource_id = r.id; namespace_dir = dir }) dirs)
      ]
    ]
  ]

  unfoldable pub namespaces_from : World → List Resource → Option (List MirroredNamespace)
  namespaces_from w [] = some []
  namespaces_from w (r ∷ rs) = elim (namespaces_of w r) [
    | none ↦ none
    | some ns ↦ elim (namespaces_from w rs) [ none ↦ none | some more ↦ some (ns ++ more) ]
  ]

  unfoldable pub durable_object_namespaces : World → Option (List MirroredNamespace)
  durable_object_namespaces w = namespaces_from w w.resources

-- A history of the alarm mirror's loop.
module _ {World : Type 0} (namespaces : World → Option (List MirroredNamespace)) (now : World → ℕ)
    (next_alarm_at_ms : World → String → Option (Option ℕ)) (wake : World → String → World) where
  unfoldable pub run_alarm_mirror : List (Event World) → World → Loop World (List MirroredNamespace)
  run_alarm_mirror es w =
      Core.run namespaces (λ ns v. (mirror_once next_alarm_at_ms wake (now v) v ns []).0) es
        (start w)

-- A history of the hibernator's loop: its pass lists the resources itself.
module _ (guard : World → Resource → ActivityGuardResult × World) (stop : World → Resource → World)
    (now : World → ℕ) where
  unfoldable pub run_hibernator : List (Event World) → World → Loop World (Unit {0})
  run_hibernator es w = Core.run (λ v. some tt) (λ job v. (tick guard stop now v).0) es (start w)

-- A history of the cron scheduler's loop. The workers are listed inside of the pass; a listing that
-- throws is a pass that fails before it does anything.
module _ {Env : Type 0} (calls : Calls Env) (now : Env → ℕ)
    (workers : Env → Option (List ScheduledWorker)) where
  unfoldable pub cron_pass : CronState × Env → CronState × Env
  cron_pass (state, env) = elim (workers env) [
    | none ↦ (state, env)
    | some listed ↦ let t = tick_crons calls (now env) listed state env in (t.state, t.env)
  ]

  unfoldable pub run_cron_scheduler :
      List (Event (CronState × Env)) → CronState × Env → Loop (CronState × Env) (Unit {0})
  run_cron_scheduler es w = Core.run (λ v. some tt) (λ job. cron_pass) es (start w)
