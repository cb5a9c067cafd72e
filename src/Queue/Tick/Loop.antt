-- ===== src/Queue/Tick/Loop.antt =====
-- packages/queue/src/tick.ts, startQueueTick: the timer loop around the tick. `queues` and
-- `retention` are read anew before each pass, outside of what the loop catches, and may throw.
use hobbyist.Base.{List, [], Option, none, some, ℕ, All}
use hobbyist.Core.Loop.{Loop, Event, start, begin_wait}
use hobbyist.Core.Loop as Core
use hobbyist.Core.Loop.Kept.{IsKept, run-keeps}
use hobbyist.Queue.Tick.{DrainableQueue, RetentionTarget, World, Daemon, tick_once}
use hobbyist.Queue.Tick.Safe.{IsSound, KeepsSound, tick_once-IsSound}

-- What a pass is called with.
abbrev pub TickJob : Type 0
TickJob = List DrainableQueue × List RetentionTarget

module _ (random_int : ℕ → ℕ) {Env : Type 0} (d : Daemon Env)
    (queues : World Env → Option (List DrainableQueue))
    (retention : Option (World Env → Option (List RetentionTarget))) where
  -- `opts.retention?.() ?? []`.
  abbrev pub targets : World Env → Option (List RetentionTarget)
  targets w = elim retention [ none ↦ some [] | some read ↦ read w ]

  unfoldable pub tick_job : World Env → Option TickJob
  tick_job w = elim (queues w) [
    | none ↦ none
    | some qs ↦ elim (targets w) [ none ↦ none | some ts ↦ some (qs, ts) ]
  ]

  abbrev pub queue_pass : TickJob → World Env → World Env
  queue_pass (qs, ts) w = tick_once random_int d qs ts w

  -- `startQueueTick`, and a history of its loop.
  unfoldable pub run_queue_tick : List (Event (World Env)) → World Env → Loop (World Env) TickJob
  run_queue_tick es w = Core.run tick_job queue_pass es (start w)

  -- Throughout the history of the loop, its passes and stops at any time, every queue file of the
  -- box stays well formed, if all were, and if a wake, a delivery and the rest of the daemon keep
  -- them so.
  pub run_queue_tick-IsSound :
      KeepsSound d
      → (es : List (Event (World Env))) (w : World Env) → All (IsKept (λ v. IsSound v.files)) es
      → IsSound w.files
      → IsSound (run_queue_tick es w).world.files
  unfolding run_queue_tick start begin_wait
  run_queue_tick-IsSound k es w ks h =
      run-keeps tick_job queue_pass (λ v. IsSound v.files)
        (λ job v. tick_once-IsSound random_int d k job.0 job.1 v) es (start w) ks h
