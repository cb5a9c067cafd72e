-- ===== src/Daemon/Shutdown.antt =====
-- packages/cli/src/daemon/server.ts, performShutdown: the daemon closes its listeners, then stops its
-- loops one after another, each awaited until its pass is over, then closes its proxies, and only
-- then stops resources. The four loops (hibernator, alarm mirror, queue tick, cron scheduler, in the
-- order of their numbers 0 to 3) run on meanwhile. Closing sockets and Caddy are awaits and no more.
pub mod Quiet
use hobbyist.Base.{
  ℕ, suc, ◌+◌, ◌<◌, ◌≡◌, refl, Bool, true, false, not, ◌&&◌, ◌==◌, ltb, List, [], ◌∷◌, Option, none,
  some, if◌then◌else◌, arith, Bool-cases, inl, inr, branch,
}
use hobbyist.Core.Loop.{Loop, Event}
use hobbyist.Core.Loop as Core
use hobbyist.Core.Loop.Drained.{is_passing, has_resolved}

pub data Stage : Type 0 where
  serving : Stage
  closing_listeners : Stage
  draining : ℕ → Option ℕ → Stage
  closing_proxies : Stage
  stopping_resources : Stage

pub record Daemon (World Job : Type 0) : Type 0 where
  pub stage : Stage
  pub loops : ℕ → Loop World Job

-- What happens: a signal or close(), an event of a loop, or the end of what the shutdown awaits.
pub data Moment (World : Type 0) : Type 0 where
  shutdown : Moment World
  in_loop : ℕ → Event World → Moment World
  awaited : Moment World

abbrev pub loop_count : ℕ
loop_count = 4

-- The first call begins the shutdown; another gets the promise of the first.
unfoldable pub perform_shutdown : Stage → Stage
perform_shutdown serving = closing_listeners
perform_shutdown s = s

module _ {World Job : Type 0} where
  abbrev pub set_loop : ℕ → Loop World Job → (ℕ → Loop World Job) → ℕ → Loop World Job
  set_loop i l loops j = if i == j then l else loops j

  -- `await loop.stop()`, of the loop of number `i`; behind the last one the proxies are closed.
  unfoldable pub drain : ℕ → (ℕ → Loop World Job) → Daemon World Job
  drain i loops =
      if ltb i loop_count
      then (let (l, promise) = Core.stop (loops i) in
          record { stage = draining i promise; loops = set_loop i l loops })
      else record { stage = closing_proxies; loops = loops }

  -- The shutdown goes on behind its await. A stage that awaits a pass goes on once that has ended.
  unfoldable pub advance : Stage → (ℕ → Loop World Job) → Daemon World Job
  advance serving loops = record { stage = serving; loops = loops }
  advance closing_listeners loops = drain 0 loops
  advance (draining i promise) loops =
      if has_resolved promise (loops i)
      then drain (suc i) loops
      else record { stage = draining i promise; loops = loops }
  advance closing_proxies loops = record { stage = stopping_resources; loops = loops }
  advance stopping_resources loops = record { stage = stopping_resources; loops = loops }

module _ {World Job : Type 0} (listing : ℕ → World → Option Job)
    (pass : ℕ → Job → World → World) where
  unfoldable pub step : Moment World → Daemon World Job → Daemon World Job
  step shutdown d = record d { stage = perform_shutdown d.stage }
  step awaited d = advance d.stage d.loops
  step (in_loop i e) d = record d {
    loops = set_loop i (Core.step (listing i) (pass i) e (d.loops i)) d.loops;
  }

  unfoldable pub run : List (Moment World) → Daemon World Job → Daemon World Job
  run [] d = d
  run (m ∷ ms) d = run ms (step m d)
