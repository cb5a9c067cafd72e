-- ===== src/Daemon/Hibernator.antt =====
-- packages/cli/src/daemon/hibernator.ts: one pass that stops what nobody uses.
-- Two calls leave the model's world: the guard that asks a resource whether it is idle, and the
-- kind's stop. Each is a parameter that gives its answer and the world it leaves behind, since
-- connections and wakes land while the pass waits. A guard that throws answers `unreachable`.
pub mod Safe
pub mod Prompt
use hobbyist.Base.{
  ℕ, Bool, true, false, ◌&&◌, ◌||◌, not, String, str_eq, List, [], ◌∷◌, ◌++◌, Option, none, some,
  any, if◌then◌else◌, ◌==◌,
}
use hobbyist.Core.Types.{
  Resource, ResourceState, ResourceKind, creating, running, starting, sleeping, stopping, failed,
  destroying, undeployed, Project, kind, is_running, is_postgres, is_queue,
}
use hobbyist.Proxy.Activity.{Idle, is_less, count, idle_seconds}
use hobbyist.Daemon.World.{World, get_resource, get_project, bound_database}

pub data ActivityGuardResult : Type 0 where
  active idle unreachable : ActivityGuardResult

abbrev pub is_idle : ActivityGuardResult → Bool
is_idle idle = true
is_idle _ = false

pub record ShouldSleepInput : Type 0 where
  pub state : ResourceState
  pub connections : ℕ
  pub idle_seconds : Option Idle
  pub sleep_after_seconds : Option ℕ
  pub has_active_query : Bool

unfoldable pub should_sleep : ShouldSleepInput → Bool
should_sleep input = elim input.sleep_after_seconds [
  | none ↦ false
  | some threshold ↦
      if not (is_running input.state)
      then false
      else (if not (input.connections == 0) then false else elim input.idle_seconds [
        | none ↦ false
        | some i ↦ if is_less i threshold then false else not input.has_active_query
      ])
]

abbrev pub is_awake : ResourceState → Bool
is_awake running = true
is_awake starting = true
is_awake _ = false

abbrev pub is_bound_to : World → Resource → Resource → Bool
is_bound_to w r other = elim (bound_database w other) [
  | none ↦ false
  | some database ↦ str_eq database.id r.id
]

unfoldable pub has_awake_dependent : World → Resource → Bool
has_awake_dependent w r =
    if not (is_postgres (kind r))
    then false
    else any (λ other. is_awake other.state && is_bound_to w r other) w.resources

-- The threshold of a resource's project: none when it is pinned, or released.
unfoldable pub threshold_of : World → Resource → Option ℕ
threshold_of w r = elim (get_project w.projects r.project_id) [
  | none ↦ none
  | some p ↦ elim p.released_at [ some at ↦ none | none ↦ p.sleep_after_seconds ]
]

-- A stop that the pass made: the resource as listed and as stopped, for which threshold, and the worlds in which it asked
-- the guard and in which it stopped.
pub record Stop : Type 0 where
  pub listed : Resource
  pub resource : Resource
  pub threshold : ℕ
  pub idle_for : Idle
  pub before : World
  pub at : World

module _ (guard : World → Resource → ActivityGuardResult × World)
    (stop : World → Resource → World) where
  -- What is read again once the guard has answered, and the stop.
  unfoldable pub stop_step : World → World → Resource → ℕ → Idle → List Stop → World × List Stop
  stop_step before w r threshold i log =
      if not (count w.activity r.id == 0) then (w, log) else elim (get_resource w.resources r.id) [
        | none ↦ (w, log)
        | some fresh ↦
            if not (is_running fresh.state) || has_awake_dependent w fresh then (w, log) else (
              stop w fresh,
              log
                  ++ record {
                    listed = r;
                    resource = fresh;
                    threshold = threshold;
                    idle_for = i;
                    before = before;
                    at = w;
                  }
                    ∷ [],
            )
      ]

  unfoldable pub guard_step : World → Resource → ℕ → Idle → List Stop → World × List Stop
  guard_step w r threshold i log =
      let (answer, w1) = guard w r in
      if should_sleep (record {
        state = r.state;
        connections = count w.activity r.id;
        idle_seconds = some i;
        sleep_after_seconds = some threshold;
        has_active_query = not (is_idle answer);
      })
      then stop_step w w1 r threshold i log
      else (w1, log)

  -- One resource of the pass, as the list that the pass goes through has it.
  unfoldable pub consider : World → ℕ → Resource → List Stop → World × List Stop
  consider w now r log =
      if not (is_running r.state) || is_queue (kind r) then (w, log) else elim (threshold_of w r) [
        | none ↦ (w, log)
        | some threshold ↦
            if not (count w.activity r.id == 0)
            then (w, log)
            else elim (idle_seconds w.activity r.id now) [
              | none ↦ (w, log)
              | some i ↦
                  if is_less i threshold || has_awake_dependent w r
                  then (w, log)
                  else guard_step w r threshold i log
            ]
      ]

  -- `now` is read anew for each resource: a clock that the world's state of the pass gives.
  module _ (now : World → ℕ) where
    unfoldable pub pass : World → List Resource → List Stop → World × List Stop
    pass w [] log = (w, log)
    pass w (r ∷ rs) log = let (w1, log1) = consider w (now w) r log in pass w1 rs log1

    unfoldable pub tick : World → World × List Stop
    tick w = pass w w.resources []
