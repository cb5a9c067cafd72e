-- ===== src/Daemon/Tests.antt =====
-- Runs of the daemon's passes, and the theorems about them at those runs.
use hobbyist.Base.{
  ◌⊎◌, ℕ, ◌+◌, ◌*◌, ◌^◌, ◌≤◌, ◌<◌, ◌≡◌, ◌↔◌, refl, Bool, true, false, ◌||◌, String, codes, List, [],
  ◌∷◌, Option, none, some, keep, All, all, arith, ltb, if◌then◌else◌,
}
use hobbyist.Core.Types.{
  Resource, Project, running, sleeping, stopping, postgres_config, queue_config, worker_config,
  QueueConfig,
}
use hobbyist.Proxy.Activity.{empty, touch, Idle, count, idle_seconds}
use hobbyist.Base.Maps.{get}
use hobbyist.Base.TextMaps.{get as text_get}
use hobbyist.Daemon.Crons.{ScheduledWorker, CronState, Calls, gave, ok_outcome, tick_crons}
use hobbyist.Daemon.Crons.Ledger.{key_of}
use hobbyist.Daemon.Crons.Timely.{IsTimely, tick_crons-IsTimely}
use hobbyist.Daemon.Crons.Once.{is_no_repeat, tick_crons_twice}
use hobbyist.Daemon.Crons.Complete.{is_answered, tick_crons-answers}
use hobbyist.Daemon.World.{World, get_resource}
use hobbyist.Daemon.Hibernator.{
  ActivityGuardResult, idle, consider, tick, threshold_of, has_awake_dependent,
}
use hobbyist.Daemon.Hibernator.Safe.{IsCandidate, IsSafe, tick-IsSafe}
use hobbyist.Daemon.Hibernator.Prompt.{is_stopped, tick_stops}
use hobbyist.Daemon.Queues.{drains, drainable_queues, retention_targets, managed_project}
use hobbyist.Daemon.Reconcile
use hobbyist.Daemon.Reconcile.{reconcile, completed}
use hobbyist.Daemon.Reconcile.Rows.{OnlyRemoves, IsReconciled}
use hobbyist.Daemon.Reconcile.Honest.{reconcile-IsReconciled}
use hobbyist.Daemon.Wake.{
  Waking, at_start, called, database_settled, start_settled, finished, Event, failures_of, apply,
  run,
}
use hobbyist.Daemon.Wake.Held.{starts_of, lasts_until}
use hobbyist.Daemon.Wake.Refused.{run_refused}
use hobbyist.Daemon.Wake.Retried.{retry_starts}
use hobbyist.Daemon.Backoff.{wake_retry_delay_ms}
use hobbyist.Daemon.Guard.{
  QueueFile, opened, consumes, queue_delivery_guard, IsQuiet, queue_delivery_guard_iff,
}
use hobbyist.Daemon.Alarm.{MirroredNamespace}
use hobbyist.Base.{inl, ◌==◌}
use hobbyist.Core.StopSignal.{create_stop_signal}
use hobbyist.Core.Loop.{Loop, passing, over, running as in_pass}
use hobbyist.Core.Loop as Core
use hobbyist.Core.Loop.Drained.{is_passing}
use hobbyist.Queue.Message.{LeasedBatch}
use hobbyist.Queue.Deliver.{Fetched, response, QueueRequestBody}
use hobbyist.Daemon.Delivery.{queue_deliver}
use hobbyist.Daemon.Delivery.Awake.{queue_deliver-awake}
use hobbyist.Daemon.Shutdown
use hobbyist.Daemon.Shutdown.{serving, closing_proxies, Moment, shutdown, awaited, in_loop}
use hobbyist.Daemon.Shutdown.Quiet.{run-IsQuiet}

abbrev db : Resource
db = record {
  id = "db";
  project_id = "p";
  name = "main";
  state = running;
  config = postgres_config 5432;
}

abbrev jobs_config : QueueConfig
jobs_config = record {
  host_port = 0;
  retention_seconds = 60;
  consumer_resource_id = some "w";
  max_batch_size = none;
  max_batch_timeout_seconds = none;
  max_retries = none;
  retry_delay_seconds = none;
  dead_letter_queue = none;
}

abbrev jobs : Resource
jobs = record {
  id = "jobs";
  project_id = "p";
  name = "jobs";
  state = running;
  config = queue_config jobs_config;
}

abbrev project : Project
project = record {
  id = "p";
  name = "shop";
  network_name = "net";
  sleep_after_seconds = some 300;
  released_at = none;
}

abbrev world : World
world = record {
  resources = db ∷ jobs ∷ [];
  projects = project ∷ [];
  activity = record { live = []; idle_since = ("db", 1000) ∷ []; next_id = 0 };
}

abbrev guard : World → Resource → ActivityGuardResult × World
guard w r = (idle, w)

abbrev stop : World → Resource → World
stop w r = record w { resources = [] }

abbrev now : World → ℕ
now w = 400000

abbrev long : Idle
long = record { since = 1000; now = 400000 }

not_pinned_now : threshold_of world db ≡ some 300
unfolding threshold_of hobbyist.Daemon.World.get_project
not_pinned_now = refl

unconnected_now : count world.activity "db" ≡ 0
unfolding count hobbyist.Base.Maps.get
unconnected_now = refl

idles_now : idle_seconds world.activity "db" 400000 ≡ some long
unfolding idle_seconds count hobbyist.Base.Maps.get
idles_now = refl

independent_now : has_awake_dependent world db ≡ false
unfolding has_awake_dependent hobbyist.Daemon.World.bound_database
independent_now = refl

stored_now : get_resource world.resources "db" ≡ some db
unfolding get_resource
stored_now = refl

db-IsCandidate : IsCandidate world 400000 db 300 long
db-IsCandidate = record {
  runs = refl;
  no_queue = refl;
  not_pinned = not_pinned_now;
  unconnected = unconnected_now;
  idles = idles_now;
  long_idle = refl;
  independent = independent_now;
}

tick-IsSafe_example : All (IsSafe guard now) (tick guard stop now world).1
tick-IsSafe_example = tick-IsSafe guard stop now world

-- A stop that fails leaves the world as it was.
abbrev failing_stop : World → Resource → World
failing_stop w r = w

tick_stops_example :
    is_stopped guard failing_stop now db (tick guard failing_stop now world).1 ≡ true
tick_stops_example =
    tick_stops guard failing_stop now db (λ w x due. due) (λ w x other due. due) (λ w due. refl) []
      (jobs ∷ []) world refl
      (record { threshold = 300; idle_for = long; candidate = db-IsCandidate; stored = stored_now })

abbrev file : String → String → QueueFile
file project_name queue_name = opened []

queue_delivery_guard_iff_example :
    (queue_delivery_guard file world "w" 400000 ≡ idle)
    ↔ All (IsQuiet file world 400000) (keep (consumes "w") world.resources)
queue_delivery_guard_iff_example = queue_delivery_guard_iff file world "w" 400000

abbrev namespace : MirroredNamespace
namespace = record { resource_id = "do"; namespace_dir = "/do" }

abbrev alarms : ℕ → String → Option (Option ℕ)
alarms w dir = some (some 5)

abbrev wake : ℕ → String → ℕ
wake w id = w + 1

jobs_managed : managed_project world jobs ≡ some project
unfolding managed_project hobbyist.Daemon.World.get_project
jobs_managed = refl

abbrev queue_db_path : String → String → String
queue_db_path project_name queue_name = queue_name

abbrev worker : Resource
worker = record {
  id = "w";
  project_id = "p";
  name = "api";
  state = running;
  config = worker_config (record {
    manifest = some (record { consumers = "jobs" ∷ []; crons = none });
    host_port = 5433;
    control_port = 5434;
    database_resource_id = some "db";
  });
}

abbrev deployed : World
deployed = record world { resources = db ∷ jobs ∷ worker ∷ [] }

drains_jobs : drains (drainable_queues queue_db_path deployed) "jobs" ≡ true
unfolding drainable_queues hobbyist.Daemon.Queues.drainable_from hobbyist.Daemon.Queues.drainable
    hobbyist.Daemon.Queues.live_consumer get_resource hobbyist.Daemon.Queues.has_no_deployed_code
    managed_project hobbyist.Daemon.World.get_project
drains_jobs = refl

-- A worker that sleeps, wakes and runs its handler, on the second of February at half past five.
abbrev cron_worker : ScheduledWorker
cron_worker = record {
  resource_id = "w";
  project_name = "shop";
  name = "mailer";
  control_port = 5434;
  crons = codes "30 5 2 2 *" ∷ [];
}

abbrev cron_calls : Calls (Unit {0})
cron_calls = record {
  state_of = λ id env. sleeping;
  wake = λ id env. gave tt env;
  fire = λ firing env. gave (record { outcome = ok_outcome; detail = none }) env;
}

abbrev cron_start : CronState
cron_start = record { started_at_ms = 4; last_fired_at_ms = []; last_outcome = [] }

tick_crons-IsTimely_example :
    All
      (IsTimely cron_start 2784600005)
      (tick_crons cron_calls 2784600005 (cron_worker ∷ []) cron_start tt).fired
    × All
        (λ f.
          text_get
            (key_of f)
            (tick_crons cron_calls 2784600005
              (cron_worker ∷ [])
              cron_start
              tt).state.last_fired_at_ms
          ≡ some 2784600005)
        (tick_crons cron_calls 2784600005 (cron_worker ∷ []) cron_start tt).fired
tick_crons-IsTimely_example =
    tick_crons-IsTimely cron_start 2784600005 cron_calls (cron_worker ∷ []) tt

tick_crons_twice_example :
    is_no_repeat 2784600005
      (tick_crons cron_calls 2784600005 (cron_worker ∷ []) cron_start tt).fired
      (tick_crons cron_calls 2784610005
        (cron_worker ∷ [])
        (tick_crons cron_calls 2784600005 (cron_worker ∷ []) cron_start tt).state
        tt).fired
    ≡ true
tick_crons_twice_example =
    tick_crons_twice cron_calls cron_start 2784600005 2784610005 (cron_worker ∷ [])
      (cron_worker ∷ []) tt tt

tick_crons-answers_example :
    all
      (λ w.
        all
          (is_answered cron_start 2784600005
            (tick_crons cron_calls 2784600005 (cron_worker ∷ []) cron_start tt).fired
            w)
          w.crons)
      (cron_worker ∷ [])
    ≡ true
tick_crons-answers_example =
    tick_crons-answers cron_start 2784600005 cron_calls (cron_worker ∷ []) tt

-- A container that is up and a probe that answers; a database that was being put to sleep.
abbrev reconcile_calls : Reconcile.Calls ℕ
reconcile_calls = record {
  now = λ h. h;
  inspect = λ r h. (some (record { is_there = true; is_up = true }), h + 10);
  probe = λ r h. (some true, h + 20);
  destroy = λ r w h. (w, h);
}

abbrev stale_db : Resource
stale_db = record db { state = stopping }

abbrev stale_world : World
stale_world = record { resources = stale_db ∷ []; projects = []; activity = empty }

reconcile_calls-OnlyRemoves : OnlyRemoves reconcile_calls
reconcile_calls-OnlyRemoves = record { removes = λ r w h P p. p; projects = λ r w h. refl }

reconcile-IsReconciled_example :
    IsReconciled reconcile_calls
      (3 + 5000)
      stale_world
      3
      (reconcile reconcile_calls 5000 stale_world 3)
reconcile-IsReconciled_example =
    reconcile-IsReconciled reconcile_calls 5000 stale_world 3 reconcile_calls-OnlyRemoves (tt, tt)

-- The database is recorded running.
reconcile_runs :
    reconcile reconcile_calls 5000 stale_world 3
    ≡ completed (record { resources = db ∷ []; projects = []; activity = touch empty "db" 33 }) 33
unfolding reconcile Reconcile.reconcile_loop Reconcile.reconcile_step Reconcile.skip_reconcile
    Reconcile.is_released hobbyist.Daemon.World.get_project Reconcile.after_inspect
    Reconcile.bucket_of Reconcile.correct Reconcile.is_ready Reconcile.corrected_state
    Reconcile.set_state
reconcile_runs = refl

-- A database whose start is under way, and the calls that come while it is refused and after.
abbrev waking : Waking
waking = record { refusals = []; in_flight = ("db", at_start) ∷ []; starts = ("db", 1) ∷ [] }

abbrev no_hold : String → Bool
no_hold _ = false

abbrev more_wakes : List Event
more_wakes =
    record { at = 6; id = "db"; piece = finished }
    ∷ record { at = 30004; id = "db"; piece = called stale_world no_hold }
    ∷ []

run_refused_example :
    (starts_of "db" (
        run more_wakes
          (apply (record { at = 5; id = "db"; piece = start_settled (some []) }) waking))
      ≡ starts_of "db" waking)
    × (lasts_until (5 + wake_retry_delay_ms (failures_of (get "db" waking.refusals) + 1)) (
          get "db"
            (run more_wakes (
              apply
                (record { at = 5; id = "db"; piece = start_settled (some []) })
                waking)).refusals)
        ≡ true)
unfolding get wake_retry_delay_ms
run_refused_example = run_refused 5 "db" [] waking more_wakes refl refl

retry_starts_example :
    let before =
      run more_wakes
        (apply (record { at = 5; id = "db"; piece = start_settled (some []) }) waking) in
    (starts_of "db" before ≡ starts_of "db" waking)
    × (starts_of "db" (
          run
            (record { at = 30005; id = "db"; piece = finished }
              ∷ record { at = 30005; id = "db"; piece = called stale_world no_hold }
              ∷ record { at = 30006; id = "db"; piece = database_settled true }
              ∷ [])
            before)
        ≡ ("db", 30006) ∷ starts_of "db" waking)
unfolding get_resource get
retry_starts_example =
    retry_starts 5 "db" [] waking more_wakes stale_world no_hold 30005 30006 stale_db refl refl
      (omega arith) refl refl

-- A worker that answers its batches with an error is kept awake all the same.
abbrev error_page : ℕ → QueueRequestBody → ℕ → World → Fetched × World
error_page port body timeout_ms w = (response 502 none, w)

abbrev no_batch : LeasedBatch
no_batch = record {
  lease_id = codes "L";
  messages = [];
  backlog_count = 0;
  backlog_bytes = 0;
  oldest_message_timestamp_ms = none;
}

queue_deliver-awake_example :
    let w2 = (queue_deliver error_page now "w" no_batch "jobs" deployed).1 in
    consider guard stop w2 500000 worker [] ≡ (w2, [])
unfolding get_resource threshold_of hobbyist.Daemon.World.get_project
    hobbyist.Queue.Deliver.deliver_batch
queue_deliver-awake_example =
    queue_deliver-awake error_page now guard stop deployed worker _ no_batch "jobs" 500000 300 []
      refl refl refl refl

-- A shutdown while the second loop is in a pass, which ends before the shutdown goes on.
abbrev listing : ℕ → ℕ → Option ℕ
listing i w = some w

abbrev count_up : ℕ → ℕ → ℕ → ℕ
count_up i job w = w + 1

abbrev loops : ℕ → Loop ℕ ℕ
loops i = record {
  world = 0;
  stopped = false;
  signal = create_stop_signal;
  current = if i == 1 then some (in_pass 7) else none;
  phase = if i == 1 then passing else over;
  started = if i == 1 then 1 else 0;
}

abbrev moments : List (Moment ℕ)
moments =
    shutdown
    ∷ awaited
    ∷ awaited
    ∷ awaited
    ∷ in_loop 1 Core.finished
    ∷ awaited
    ∷ awaited
    ∷ awaited
    ∷ []

abbrev closed : Shutdown.Daemon ℕ ℕ
closed = Shutdown.run listing count_up moments (record { stage = serving; loops = loops })

closed_now : closed.stage ≡ closing_proxies
unfolding Shutdown.run Shutdown.step Shutdown.advance Shutdown.perform_shutdown Shutdown.drain
    Core.stop Core.step Core.finish
closed_now = refl

run-IsQuiet_example : ((closed.loops 1).stopped ≡ true) × (is_passing (closed.loops 1) ≡ false)
run-IsQuiet_example = run-IsQuiet listing count_up moments loops 1 (omega arith) (inl closed_now)
