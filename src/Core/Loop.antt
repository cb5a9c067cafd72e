-- ===== src/Core/Loop.antt =====
-- The timer loop that startQueueTick (packages/queue/src/tick.ts), startAlarmMirror
-- (packages/do/src/mirror.ts), startHibernator (packages/cli/src/daemon/hibernator.ts) and
-- startCronScheduler (packages/cli/src/daemon/crons.ts) share line by line: a machine of the pieces
-- between its awaits. What the loop evaluates before it calls the pass, `listing`, may throw; the
-- pass may fail, and its promise is caught. The rest of the daemon moves the world in between.
pub mod Drained
pub mod Endless
pub mod Kept
mod Tests
use hobbyist.Base.{
  ℕ, suc, Bool, true, false, not, ◌||◌, List, [], ◌∷◌, Option, none, some, if◌then◌else◌,
}
use hobbyist.Core.StopSignal.{
  StopSignal, Wait, racing, decided, returned, create_stop_signal, wait, sleep_over, finish_wait,
}
use hobbyist.Core.StopSignal as Signal

-- Where the loop's function stands: in the wait of a number, in the pass, or behind its end.
pub data Phase : Type 0 where
  waiting : ℕ → Phase
  passing : Phase
  over : Phase

-- `currentTick`: the promise of a pass, running or settled.
pub data Tick (Job : Type 0) : Type 0 where
  running : Job → Tick Job
  settled : Tick Job

-- `started` counts the passes, so that it names the pass in flight.
pub record Loop (World Job : Type 0) : Type 0 where
  pub world : World
  pub stopped : Bool
  pub signal : StopSignal
  pub current : Option (Tick Job)
  pub phase : Phase
  pub started : ℕ

pub data Event (World : Type 0) : Type 0 where
  slept : Event World
  answered : Event World
  resumed : Event World
  finished : Event World
  was_stopped : Event World
  elsewhere : (World → World) → Event World

module _ {World Job : Type 0} where
  -- The head of the loop: the next wait, unless it is stopped.
  unfoldable pub begin_wait : Loop World Job → Loop World Job
  begin_wait l =
      if l.stopped
      then record l { phase = over }
      else record l { signal = wait l.signal; phase = waiting l.signal.next }

  unfoldable pub start : World → Loop World Job
  start world = begin_wait (record {
    world = world;
    stopped = false;
    signal = create_stop_signal;
    current = none;
    phase = over;
    started = 0;
  })

  -- `stop`, with the promise that it returns: of the pass of that number, or a resolved one.
  unfoldable pub stop : Loop World Job → Loop World Job × Option ℕ
  stop l =
      let promise : Option ℕ = elim l.current [ none ↦ none | some t ↦ some l.started ] in
      if l.stopped
      then (l, promise)
      else (record l { stopped = true; signal = Signal.stop l.signal }, promise)

  -- The interval of the wait elapses; the wait returns to the loop.
  unfoldable pub elapse : Loop World Job → Loop World Job
  elapse l = elim l.phase [ waiting n ↦ record l { signal = sleep_over n l.signal } | _ ↦ l ]

  unfoldable pub answer : Loop World Job → Loop World Job
  answer l = elim l.phase [ waiting n ↦ record l { signal = finish_wait n l.signal } | _ ↦ l ]

module _ {World Job : Type 0} (listing : World → Option Job) (pass : Job → World → World) where
  -- The call of the pass. What throws before it ends the loop.
  unfoldable pub begin_pass : Option Job → Loop World Job → Loop World Job
  begin_pass none l = record l { phase = over }
  begin_pass (some job) l = record l {
    current = some (running job);
    phase = passing;
    started = suc l.started;
  }

  unfoldable pub after_wait : Option Wait → Loop World Job → Loop World Job
  after_wait (some (returned slept_fully)) l =
      if not slept_fully || l.stopped
      then record l { phase = over }
      else begin_pass (listing l.world) l
  after_wait _ l = l

  unfoldable pub after_pass : Option (Tick Job) → Loop World Job → Loop World Job
  after_pass (some settled) l = begin_wait (record l { current = none })
  after_pass _ l = l

  -- The loop's function goes on, where what it awaits is there.
  unfoldable pub resume : Loop World Job → Loop World Job
  resume l = elim l.phase [
    | waiting n ↦ after_wait (l.signal.waits n) l
    | passing ↦ after_pass l.current l
    | over ↦ l
  ]

  -- The pass ends, well or badly, and leaves the world behind.
  unfoldable pub finish : Loop World Job → Loop World Job
  finish l = elim l.current [
    | some (running job) ↦ record l { world = pass job l.world; current = some settled }
    | _ ↦ l
  ]

  unfoldable pub step : Event World → Loop World Job → Loop World Job
  step slept l = elapse l
  step answered l = answer l
  step resumed l = resume l
  step finished l = finish l
  step was_stopped l = (stop l).0
  step (elsewhere f) l = record l { world = f l.world }

  unfoldable pub run : List (Event World) → Loop World Job → Loop World Job
  run [] l = l
  run (e ∷ es) l = run es (step e l)
