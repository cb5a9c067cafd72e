-- ===== src/Daemon/Crons/Control.antt =====
-- packages/cli/src/daemon/crons.ts, postScheduled and listCrons: the call of a worker's handler, and
-- the view of the schedules. The fetch is a parameter; a time is kept as its milliseconds.
use hobbyist.Base.{
  ℕ, ◌≡◌, ◌*◌, Bool, false, not, ltb, String, str_eq, Text, text_eq, codes, List, [], ◌∷◌, ◌++◌,
  Option, none, some, if◌then◌else◌, is_some, sym, ap, append-nil, Bool-cases, inl, inr,
}
use hobbyist.Base.TextMaps.{get}
use hobbyist.Queue.Json.{Json, string, look, fields_of}
use hobbyist.Queue.Deliver.{is_ok_status}
use hobbyist.Daemon.World.{World}
use hobbyist.Daemon.Crons.{
  ScheduledWorker, CronFiring, CronOutcome, CronState, ok_outcome, exception, unreachable, message,
  answered, handler_threw, Due, due, threw, out_of_fuel, due_after, since_of, cron_key,
  scheduled_workers, Calls, Ticking, cron_step, due_step, firing_of, mark,
}
use hobbyist.Daemon.Crons.Ledger.{ledger-deliver_step}

abbrev pub scheduled_timeout_ms : ℕ
scheduled_timeout_ms = 15 * 60000

-- What the fetch gives: an error's message, or a status and a body, which is not JSON or parses.
pub data Posted : Type 0 where
  rejected : Text → Posted
  response : ℕ → Option Json → Posted

-- `outcome === 'exception'`.
abbrev pub is_exception : Option Json → Bool
is_exception (some (string s)) = text_eq s (codes "exception")
is_exception _ = false

-- A handler that ran and did not say that it threw is taken to have done well.
unfoldable pub read_outcome : Option Json → CronOutcome
read_outcome none = record { outcome = ok_outcome; detail = none }
read_outcome (some body) = elim (fields_of body) [
  | none ↦ record { outcome = ok_outcome; detail = none }
  | some fs ↦
      if is_exception (look "outcome" fs)
      then record { outcome = exception; detail = some handler_threw }
      else record { outcome = ok_outcome; detail = none }
]

unfoldable pub outcome_of : Posted → CronOutcome
outcome_of (rejected error) = record { outcome = unreachable; detail = some (message error) }
outcome_of (response status body) =
    if is_ok_status status
    then read_outcome body
    else record { outcome = exception; detail = some (answered status) }

module _ {Env : Type 0} (fetch : ℕ → Text → ℕ → ℕ → Env → Posted × Env) where
  -- `postScheduled`: the control port, the schedule, its time and the timeout go out.
  unfoldable pub post_scheduled : CronFiring → ℕ → Env → CronOutcome × Env
  post_scheduled firing timeout_ms env =
      let (posted, env') =
        fetch firing.worker.control_port firing.cron firing.scheduled_time_ms timeout_ms env in
      (outcome_of posted, env')

-- `next_at` is none for 'never'.
pub record CronListing : Type 0 where
  pub worker : Text
  pub resource_id : String
  pub cron : Text
  pub next_at : Option ℕ
  pub last_at : Option ℕ
  pub last_outcome : Option CronOutcome

abbrev pub slash : ℕ
slash = b'/'

abbrev pub time_of : Due → Option ℕ
time_of (due t) = some t
time_of _ = none

unfoldable pub listing : CronState → ScheduledWorker → Text → CronListing
listing s worker cron =
    let key = cron_key worker.resource_id cron in
    record {
      worker = codes worker.project_name ++ slash ∷ codes worker.name;
      resource_id = worker.resource_id;
      cron = cron;
      next_at = time_of (due_after cron (since_of s key));
      last_at = get key s.last_fired_at_ms;
      last_outcome = get key s.last_outcome;
    }

unfoldable pub list_worker : CronState → ScheduledWorker → List Text → List CronListing
list_worker s worker [] = []
list_worker s worker (cron ∷ crons) = listing s worker cron ∷ list_worker s worker crons

unfoldable pub list_from : CronState → String → List ScheduledWorker → List CronListing
list_from s project [] = []
list_from s project (worker ∷ workers) =
    if not (str_eq worker.project_name project)
    then list_from s project workers
    else list_worker s worker worker.crons ++ list_from s project workers

-- `listCrons`.
unfoldable pub list_crons : World → CronState → String → List CronListing
list_crons w s project = list_from s project (scheduled_workers w)

-- The firings that an entry of the list promises of a pass at `now`.
abbrev pub promised : CronListing → ScheduledWorker → ℕ → List CronFiring
promised l worker now = elim l.next_at [
  | none ↦ []
  | some time ↦ if ltb now time then [] else firing_of worker l.cron time ∷ []
]

module _ {Env : Type 0} (calls : Calls Env) where
  due_step-fired :
      (d : Due) (now : ℕ) (worker : ScheduledWorker) (cron : Text) (t : Ticking Env)
      → (due_step calls now worker cron d t).fired
        ≡ t.fired ++ (elim (time_of d) [
          | none ↦ []
          | some time ↦ if ltb now time then [] else firing_of worker cron time ∷ []
        ])
  unfolding due_step
  due_step-fired (threw detail) now worker cron t =
      elim (Bool-cases (is_some (get (cron_key worker.resource_id cron) t.state.last_outcome))) [
        | inl noted ↦ rw noted (sym (append-nil t.fired))
        | inr fresh ↦ rw fresh (sym (append-nil t.fired))
      ]
  due_step-fired out_of_fuel now worker cron t = sym (append-nil t.fired)
  due_step-fired (due time) now worker cron t = elim (Bool-cases (ltb now time)) [
    | inl early ↦ rw early (sym (append-nil t.fired))
    | inr late ↦ rw late (
        ap (λ l. l.fired)
          (ledger-deliver_step calls (calls.state_of worker.resource_id t.env)
            (cron_key worker.resource_id cron) (firing_of worker cron time)
            (mark calls now (cron_key worker.resource_id cron) (firing_of worker cron time) t)))
  ]

  -- The list of the schedules and the scheduler agree: a pass at any time fires a schedule of a
  -- worker if and only if the list has, at that moment, a next time for it which has come, and then
  -- once, for that time.
  pub cron_step-listing :
      (now : ℕ) (worker : ScheduledWorker) (cron : Text) (t : Ticking Env)
      → (cron_step calls now worker cron t).fired
        ≡ t.fired ++ promised (listing t.state worker cron) worker now
  unfolding cron_step listing
  cron_step-listing now worker cron t = due_step-fired _ now worker cron t
