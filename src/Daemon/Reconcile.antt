-- ===== src/Daemon/Reconcile.antt =====
-- packages/cli/src/daemon/reconcile.ts: what a starting daemon makes of the states that an earlier
-- one recorded. Docker, the kinds' probe and destroy, and the clock are parameters, which give their
-- answer and leave the host behind in some state; a call that throws answers `none`.
pub mod Rows
pub mod Honest
use hobbyist.Base.{
  ℕ, ◌+◌, Bool, true, false, not, ◌||◌, ◌==◌, leb, String, str_eq, List, [], ◌∷◌, Option, none,
  some, is_some, if◌then◌else◌,
}
use hobbyist.Core.Types.{
  Resource, ResourceState, ResourceKind, postgres, app, worker, queue, kind, creating, running,
  starting, sleeping, stopping, failed, destroying, undeployed, Project, is_running,
}
use hobbyist.Proxy.Activity.{touch}
use hobbyist.Daemon.World.{World, get_project}

pub data ObservedBucket : Type 0 where
  missing stopped booting ready : ObservedBucket

abbrev pub keeps_sleep : ResourceState → Bool
keeps_sleep sleeping = true
keeps_sleep stopping = true
keeps_sleep _ = false

unfoldable pub corrected_state : ResourceState → ObservedBucket → ResourceState
corrected_state recorded ready = running
corrected_state recorded booting = starting
corrected_state recorded missing = failed
corrected_state recorded stopped = if keeps_sleep recorded then sleeping else failed

-- States are compared by their names.
abbrev pub rank : ResourceState → ℕ
rank creating = 0
rank running = 1
rank starting = 2
rank sleeping = 3
rank stopping = 4
rank failed = 5
rank destroying = 6
rank undeployed = 7

abbrev pub state_eq : ResourceState → ResourceState → Bool
state_eq s t = rank s == rank t

-- `skipReconcile` of the kinds' handlers.
unfoldable pub skip_reconcile : Resource → Bool
skip_reconcile r = elim (kind r) [
  | postgres ↦ false
  | app ↦ state_eq r.state undeployed
  | worker ↦ state_eq r.state undeployed
  | queue ↦ true
]

abbrev is_released_project : Option Project → Bool
is_released_project none = false
is_released_project (some p) = is_some p.released_at

unfoldable pub is_released : World → Resource → Bool
is_released w r = is_released_project (get_project w.projects r.project_id)

-- `store.setResourceState`.
unfoldable pub set_state : String → ResourceState → List Resource → List Resource
set_state id state [] = []
set_state id state (r ∷ rs) =
    (if str_eq r.id id then record r { state = state } else r) ∷ set_state id state rs

pub record ContainerStatus : Type 0 where
  pub is_there : Bool
  pub is_up : Bool

pub record Calls (Host : Type 0) : Type 0 where
  pub now : Host → ℕ
  pub inspect : Resource → Host → Option ContainerStatus × Host
  pub probe : Resource → Host → Option Bool × Host
  -- Whether or not it throws.
  pub destroy : Resource → World → Host → World × Host

-- The daemon starts, or the call of Docker that threw keeps it from that.
pub data Reconciled (Host : Type 0) : Type 0 where
  completed aborted : World → Host → Reconciled Host

abbrev pub and_then :
    {Host : Type 0} → Reconciled Host → (World → Host → Reconciled Host) → Reconciled Host
and_then (completed w h) next = next w h
and_then (aborted w h) next = aborted w h

abbrev pub probe_budget_ms : ℕ
probe_budget_ms = 5000

module _ {Host : Type 0} (calls : Calls Host) where
  -- An answer that was thrown is no.
  abbrev pub read_answer : {Rest : Type 0} → Option Bool × Rest → Bool × Rest
  read_answer (some answer, h) = (answer, h)
  read_answer (none, h) = (false, h)

  unfoldable pub is_ready : ℕ → Resource → Host → Bool × Host
  is_ready deadline r h =
      if leb deadline (calls.now h) then (false, h) else read_answer (calls.probe r h)

  abbrev pub up_bucket : {Rest : Type 0} → Bool × Rest → Option ObservedBucket × Rest
  up_bucket (answered, h) = (some (if answered then ready else booting), h)

  unfoldable pub bucket_of :
      ℕ → Resource → Option ContainerStatus × Host → Option ObservedBucket × Host
  bucket_of deadline r (none, h) = (none, h)
  bucket_of deadline r (some status, h) =
      if not status.is_there
      then (some missing, h)
      else if not status.is_up
      then (some stopped, h)
      else up_bucket (is_ready deadline r h)

  unfoldable pub correct : Resource → ObservedBucket → World → Host → World
  correct r bucket w h =
      let corrected = corrected_state r.state bucket in
      let written : World =
        if state_eq corrected r.state
        then w
        else record w { resources = set_state r.id corrected w.resources } in
      if is_running corrected
      then record written { activity = touch written.activity r.id (calls.now h) }
      else written

  unfoldable pub after_inspect : Resource → World → Option ObservedBucket × Host → Reconciled Host
  after_inspect r w (none, h) = aborted w h
  after_inspect r w (some bucket, h) = completed (correct r bucket w h) h

  abbrev pub after_destroy : World × Host → Reconciled Host
  after_destroy (w, h) = completed w h

  unfoldable pub reconcile_step : ℕ → Resource → World → Host → Reconciled Host
  reconcile_step deadline r w h =
      if state_eq r.state destroying
      then after_destroy (calls.destroy r w h)
      else if skip_reconcile r
      then completed w h
      else if is_released w r
      then completed w h
      else after_inspect r w (bucket_of deadline r (calls.inspect r h))

  unfoldable pub reconcile_loop : ℕ → List Resource → World → Host → Reconciled Host
  reconcile_loop deadline [] w h = completed w h
  reconcile_loop deadline (r ∷ rs) w h =
      and_then (reconcile_step deadline r w h) λ w h. reconcile_loop deadline rs w h

  unfoldable pub reconcile : ℕ → World → Host → Reconciled Host
  reconcile budget_ms w h = reconcile_loop (calls.now h + budget_ms) w.resources w h
