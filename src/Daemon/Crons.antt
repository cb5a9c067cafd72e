-- ===== src/Daemon/Crons.antt =====
-- packages/cli/src/daemon/crons.ts: scheduledWorkers and tickCrons. The wake and the control call are
-- parameters that give their answer and the world they leave behind; so is the state of a resource.
pub mod Ledger
pub mod Timely
pub mod Once
pub mod Complete
pub mod Control
use hobbyist.Base.{
  ℕ, ◌<◌, Bool, true, false, not, ◌||◌, ◌==◌, ltb, String, Text, codes, List, [], ◌∷◌, ◌++◌, length,
  Option, none, some, is_some, get_or_else, if◌then◌else◌,
}
use hobbyist.Base.TextMaps.{get, put}
use hobbyist.Core.Types.{
  Resource, ResourceState, WorkerConfig, WorkerManifest, Project, creating, running, starting,
  sleeping, stopping, failed, destroying, undeployed,
}
use hobbyist.Core.Cron.{CronSchedule, next_cron_time, NextTime, fires, never_fires, stuck}
use hobbyist.Core.Cron.Parse.{CronError, Parsed, ok, invalid, parse_cron}
use hobbyist.Daemon.World.{World, get_project}
use hobbyist.Daemon.Queues.{worker_of}

pub record ScheduledWorker : Type 0 where
  pub resource_id : String
  pub project_name : String
  pub name : String
  pub control_port : ℕ
  pub crons : List Text

pub record CronFiring : Type 0 where
  pub worker : ScheduledWorker
  pub cron : Text
  pub scheduled_time_ms : ℕ

pub data Outcome : Type 0 where
  ok_outcome exception unreachable wake_failed : Outcome

-- The detail of an outcome, by what it says: an expression refused, one that never fires, the state
-- that the worker was in, the message of an error, the status of an answer, or that the handler threw.
pub data Detail : Type 0 where
  refused : CronError → Detail
  no_date : Detail
  was : ResourceState → Detail
  message : Text → Detail
  answered : ℕ → Detail
  handler_threw : Detail

pub record CronOutcome : Type 0 where
  pub outcome : Outcome
  pub detail : Option Detail

pub record CronState : Type 0 where
  pub started_at_ms : ℕ
  pub last_fired_at_ms : List (Text × ℕ)
  pub last_outcome : List (Text × CronOutcome)

abbrev pub cron_key : String → Text → Text
cron_key resource_id cron = codes resource_id ++ 0 ∷ cron

abbrev is_skipped_state : ResourceState → Bool
is_skipped_state undeployed = true
is_skipped_state failed = true
is_skipped_state _ = false

-- The schedules of a worker that has one: of a manifest, none of them is no list.
abbrev crons_of : WorkerConfig → List Text
crons_of config = elim config.manifest [ none ↦ [] | some manifest ↦ get_or_else manifest.crons [] ]

abbrev project_name : World → Resource → String
project_name w r = elim (get_project w.projects r.project_id) [
  | none ↦ r.project_id
  | some p ↦ p.name
]

unfoldable pub scheduled : World → Resource → List ScheduledWorker
scheduled w r = elim (worker_of r.config) [
  | none ↦ []
  | some config ↦
      if not (is_some config.manifest) || is_skipped_state r.state
      then []
      else if length (crons_of config) == 0
      then []
      else (record {
        resource_id = r.id;
        project_name = project_name w r;
        name = r.name;
        control_port = config.control_port;
        crons = crons_of config;
      })
        ∷ []
]

unfoldable pub scheduled_from : World → List Resource → List ScheduledWorker
scheduled_from w [] = []
scheduled_from w (r ∷ rs) = scheduled w r ++ scheduled_from w rs

unfoldable pub scheduled_workers : World → List ScheduledWorker
scheduled_workers w = scheduled_from w w.resources

-- The time that is due after `since`, the error, or the end of the search's fuel.
pub data Due : Type 0 where
  due : ℕ → Due
  threw : Detail → Due
  out_of_fuel : Due

abbrev due_of : NextTime → Due
due_of (fires t) = due t
due_of never_fires = threw no_date
due_of stuck = out_of_fuel

unfoldable pub due_from : Parsed CronSchedule → ℕ → Due
due_from (invalid error) since = threw (refused error)
due_from (ok schedule) since = due_of (next_cron_time schedule since)

unfoldable pub due_after : Text → ℕ → Due
due_after cron since = due_from (parse_cron cron) since

-- What a call leaves: a value or an error's message, and the world.
pub data Answer (Env A : Type 0) : Type 0 where
  gave : A → Env → Answer Env A
  failed_with : Text → Env → Answer Env A

pub record Calls (Env : Type 0) : Type 0 where
  pub state_of : String → Env → ResourceState
  pub wake : String → Env → Answer Env (Unit {0})
  pub fire : CronFiring → Env → Answer Env CronOutcome

pub record Ticking (Env : Type 0) : Type 0 where
  pub state : CronState
  pub fired : List CronFiring
  pub env : Env

abbrev pub since_of : CronState → Text → ℕ
since_of s key = get_or_else (get key s.last_fired_at_ms) s.started_at_ms

abbrev pub firing_of : ScheduledWorker → Text → ℕ → CronFiring
firing_of worker cron time = record { worker = worker; cron = cron; scheduled_time_ms = time }

module _ {Env : Type 0} (calls : Calls Env) where
  abbrev pub note : Text → CronOutcome → Ticking Env → Ticking Env
  note key o t = record t {
    state = record t.state { last_outcome = put key o t.state.last_outcome };
  }

  abbrev pub note_once : Text → CronOutcome → Ticking Env → Ticking Env
  note_once key o t = if is_some (get key t.state.last_outcome) then t else note key o t

  unfoldable pub after_fire : Text → Answer Env CronOutcome → Ticking Env → Ticking Env
  after_fire key (gave o env) t = note key o (record t { env = env })
  after_fire key (failed_with err env) t =
      note key (record { outcome = exception; detail = some (message err) })
        (record t { env = env })

  unfoldable pub fire_step : Text → CronFiring → Ticking Env → Ticking Env
  fire_step key firing t = after_fire key (calls.fire firing t.env) t

  unfoldable pub after_wake : Text → CronFiring → Answer Env (Unit {0}) → Ticking Env → Ticking Env
  after_wake key firing (gave done env) t = fire_step key firing (record t { env = env })
  after_wake key firing (failed_with err env) t =
      note key (record { outcome = wake_failed; detail = some (message err) })
        (record t { env = env })

  unfoldable pub wake_step : Text → CronFiring → Ticking Env → Ticking Env
  wake_step key firing t = after_wake key firing (calls.wake firing.worker.resource_id t.env) t

  unfoldable pub deliver_step : ResourceState → Text → CronFiring → Ticking Env → Ticking Env
  deliver_step sleeping key firing t = wake_step key firing t
  deliver_step running key firing t = fire_step key firing t
  deliver_step state key firing t =
      note key (record { outcome = unreachable; detail = some (was state) }) t

  -- The firing is recorded before the wake.
  abbrev pub mark : ℕ → Text → CronFiring → Ticking Env → Ticking Env
  mark now key firing t = record t {
    state = record t.state { last_fired_at_ms = put key now t.state.last_fired_at_ms };
    fired = t.fired ++ firing ∷ [];
  }

  unfoldable pub due_step : ℕ → ScheduledWorker → Text → Due → Ticking Env → Ticking Env
  due_step now worker cron (threw detail) t =
      note_once (cron_key worker.resource_id cron)
        (record { outcome = exception; detail = some detail }) t
  due_step now worker cron out_of_fuel t = t
  due_step now worker cron (due time) t =
      let key = cron_key worker.resource_id cron in
      let firing = firing_of worker cron time in
      if ltb now time
      then t
      else deliver_step (calls.state_of worker.resource_id t.env) key firing (mark now key firing t)

  -- One schedule of one worker.
  unfoldable pub cron_step : ℕ → ScheduledWorker → Text → Ticking Env → Ticking Env
  cron_step now worker cron t =
      due_step now worker cron
        (due_after cron (since_of t.state (cron_key worker.resource_id cron))) t

  unfoldable pub crons_loop : ℕ → ScheduledWorker → List Text → Ticking Env → Ticking Env
  crons_loop now worker [] t = t
  crons_loop now worker (cron ∷ crons) t = crons_loop now worker crons (cron_step now worker cron t)

  unfoldable pub workers_loop : ℕ → List ScheduledWorker → Ticking Env → Ticking Env
  workers_loop now [] t = t
  workers_loop now (worker ∷ workers) t =
      workers_loop now workers (crons_loop now worker worker.crons t)

  -- The pass at `now`, with the workers as they are listed at its beginning.
  unfoldable pub tick_crons : ℕ → List ScheduledWorker → CronState → Env → Ticking Env
  tick_crons now workers state env =
      workers_loop now workers (record { state = state; fired = []; env = env })
