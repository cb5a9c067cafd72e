-- ===== src/Core/Loop/Tests.antt =====
-- Runs of a timer loop over a counter, whose listing throws at 99.
use hobbyist.Base.{
  ℕ, suc, ◌≡◌, ◌≤◌, refl, true, false, ◌==◌, [], ◌∷◌, Option, none, some, if◌then◌else◌,
}
use hobbyist.Core.StopSignal.{create_stop_signal, wait, pending, returned, StopSignal}
use hobbyist.Core.StopSignal as Signal
use hobbyist.Core.StopSignal.Clean.{IsCleanAt, run-IsCleanAt}
use hobbyist.Core.Loop.{
  Loop, Event, slept, answered, resumed, finished, was_stopped, elsewhere, passing, waiting, over,
  running, start, stop, finish, run,
}
use hobbyist.Core.Loop.Drained.{is_passing, has_resolved, run-stop, run-pending}
use hobbyist.Core.Loop.Endless.{run-ends, run-next_pass, run_throwing}

abbrev listing : ℕ → Option ℕ
listing w = if w == 99 then none else some w

abbrev count_up : ℕ → ℕ → ℕ
count_up job w = suc w

abbrev busy : Loop ℕ ℕ
busy = record {
  world = 0;
  stopped = false;
  signal = create_stop_signal;
  current = some (running 0);
  phase = passing;
  started = 1;
}

abbrev at_99 : Loop ℕ ℕ
at_99 = record {
  world = 99;
  stopped = false;
  signal = record {
    stopped = false;
    waiters = [];
    waits = λ n. if n == 0 then some (returned true) else none;
    next = 1;
  };
  current = none;
  phase = waiting 0;
  started = 1;
}

-- One pass, and a stop in it.
one_pass :
    let l =
      run listing count_up
        (slept ∷ answered ∷ resumed ∷ was_stopped ∷ finished ∷ resumed ∷ [])
        (start 5) in
    (l.world ≡ 6) × (l.started ≡ 1) × (l.phase ≡ over)
unfolding run hobbyist.Core.Loop.step hobbyist.Core.Loop.resume hobbyist.Core.Loop.elapse
    hobbyist.Core.Loop.answer stop finish start hobbyist.Core.Loop.begin_wait
    hobbyist.Core.Loop.after_wait Signal.finish_wait Signal.sleep_over Signal.decide wait
    hobbyist.Core.Loop.begin_pass hobbyist.Core.Loop.after_pass Signal.stop Signal.delete
    Signal.wake_all
one_pass = (refl, refl, refl)

run-stop_example :
    let l = run listing count_up (finished ∷ resumed ∷ slept ∷ resumed ∷ []) (stop busy).0 in
    (l.started ≡ 1) × (has_resolved (stop busy).1 l ≡ true → is_passing l ≡ false)
run-stop_example = run-stop listing count_up busy (finished ∷ resumed ∷ slept ∷ resumed ∷ [])

run-pending_example :
    let l = run listing count_up (slept ∷ answered ∷ resumed ∷ finished ∷ resumed ∷ []) (start 5) in
    (pending l.signal ≤ 1) × (l.stopped ≡ true → pending l.signal ≡ 0)
run-pending_example =
    run-pending listing count_up 5 (slept ∷ answered ∷ resumed ∷ finished ∷ resumed ∷ [])

run-ends_example :
    (run listing count_up
      (finished ∷ answered ∷ resumed ∷ [])
      (run listing count_up (slept ∷ answered ∷ resumed ∷ was_stopped ∷ []) (start 5))).phase
    ≡ over
unfolding run hobbyist.Core.Loop.step stop hobbyist.Core.Loop.resume hobbyist.Core.Loop.answer
    hobbyist.Core.Loop.elapse start hobbyist.Core.Loop.begin_wait hobbyist.Core.Loop.after_wait
    Signal.finish_wait Signal.sleep_over Signal.decide wait hobbyist.Core.Loop.begin_pass
run-ends_example = run-ends listing count_up 5 (slept ∷ answered ∷ resumed ∷ was_stopped ∷ []) refl

run-next_pass_example :
    (run listing count_up
      (finished ∷ resumed ∷ slept ∷ answered ∷ resumed ∷ [])
      (run listing count_up (slept ∷ answered ∷ resumed ∷ []) (start 5))).started
    ≡ suc (run listing count_up (slept ∷ answered ∷ resumed ∷ []) (start 5)).started
unfolding run hobbyist.Core.Loop.step hobbyist.Core.Loop.resume hobbyist.Core.Loop.answer
    hobbyist.Core.Loop.elapse start hobbyist.Core.Loop.begin_wait hobbyist.Core.Loop.after_wait
    Signal.finish_wait Signal.sleep_over Signal.decide wait hobbyist.Core.Loop.begin_pass finish
run-next_pass_example =
    run-next_pass listing count_up 5 (slept ∷ answered ∷ resumed ∷ []) 6 refl refl refl

run_throwing_example :
    (run listing count_up
      (resumed ∷ elsewhere (λ w. 0) ∷ slept ∷ answered ∷ resumed ∷ [])
      at_99).started
    ≡ 1
run_throwing_example =
    run_throwing listing count_up at_99 0 (elsewhere (λ w. 0) ∷ slept ∷ answered ∷ resumed ∷ [])
      refl refl refl refl refl

run-IsCleanAt_example :
    IsCleanAt
      (Signal.run
        (Signal.waited
          ∷ Signal.waited
          ∷ Signal.slept 0
          ∷ Signal.resumed 0
          ∷ Signal.was_stopped
          ∷ [])
        create_stop_signal)
      1
run-IsCleanAt_example =
    run-IsCleanAt
      (Signal.waited ∷ Signal.waited ∷ Signal.slept 0 ∷ Signal.resumed 0 ∷ Signal.was_stopped ∷ [])
      1
