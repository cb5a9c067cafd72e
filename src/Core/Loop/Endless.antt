-- ===== src/Core/Loop/Endless.antt =====
-- When a timer loop goes on, and when it ends.
use hobbyist.Base.{ℕ, suc, ◌≡◌, refl, true, false, List, [], ◌∷◌, Option, none, some, arith}
use hobbyist.Core.StopSignal.{returned, wait, decide, sleep_over, finish_wait}
use hobbyist.Core.Loop.{
  waiting, passing, over, Loop, Event, slept, answered, resumed, finished, was_stopped, elsewhere,
  begin_wait, start, stop, elapse, answer, begin_pass, after_wait, after_pass, resume, finish, step,
  run,
}
use hobbyist.Core.Loop.Drained.{IsGood, reached-IsGood}

module _ {World Job : Type 0} (listing : World → Option Job) (pass : Job → World → World) where
  good-ends :
      (l : Loop World Job)
      → IsGood l
      → l.stopped ≡ true
      → (run listing pass (finished ∷ answered ∷ resumed ∷ []) l).phase ≡ over
  unfolding run step finish answer resume finish_wait after_wait after_pass begin_wait
  good-ends l h e = ground (arith, h, e)

  good-next :
      (l : Loop World Job) (job : Job)
      → IsGood l
      → l.stopped ≡ false
      → l.phase ≡ passing
      → listing (finish listing pass l).world ≡ some job
      → (run listing pass (finished ∷ resumed ∷ slept ∷ answered ∷ resumed ∷ []) l).started
        ≡ suc l.started
  unfolding run step finish answer resume finish_wait after_wait after_pass begin_wait elapse
      sleep_over decide wait begin_pass
  good-next l job h e k f = ground (arith, h, e, k, f)

  step-over :
      (e : Event World) (l : Loop World Job)
      → l.phase ≡ over
      → l.current ≡ none
      → ((step listing pass e l).phase ≡ over)
        × ((step listing pass e l).current ≡ none)
        × ((step listing pass e l).started ≡ l.started)
  unfolding step finish answer resume elapse stop
  step-over slept l h k = ground (arith, h, k)
  step-over answered l h k = ground (arith, h, k)
  step-over resumed l h k = ground (arith, h, k)
  step-over finished l h k = ground (arith, h, k)
  step-over was_stopped l h k = ground (arith, h, k)
  step-over (elsewhere f) l h k = (h, k, refl)

  run-over :
      (es : List (Event World)) (l : Loop World Job)
      → l.phase ≡ over
      → l.current ≡ none
      → (run listing pass es l).started ≡ l.started
  unfolding run
  run-over [] l h k = refl
  run-over (e ∷ es) l h k =
      let (h', k', same) = step-over e l h k in
      ground (arith, same, run-over es (step listing pass e l) h' k')

  -- A loop that is stopped, at any point of any history, comes to its end as soon as the pass or the
  -- wait that it stands in does.
  pub run-ends :
      (world : World) (es : List (Event World))
      → let l = run listing pass es (start world) in
        l.stopped ≡ true → (run listing pass (finished ∷ answered ∷ resumed ∷ []) l).phase ≡ over
  run-ends world es e = good-ends _ (reached-IsGood listing pass world es) e

  -- A pass of a loop that is not stopped is followed by another: when the pass has ended, well or
  -- badly, one more interval elapses and the next pass begins, if the listing before it does not
  -- throw.
  pub run-next_pass :
      (world : World) (es : List (Event World)) (job : Job)
      → let l = run listing pass es (start world) in
        l.stopped ≡ false
        → l.phase ≡ passing
        → listing (finish listing pass l).world ≡ some job
        → (run listing pass (finished ∷ resumed ∷ slept ∷ answered ∷ resumed ∷ []) l).started
          ≡ suc l.started
  run-next_pass world es job e k f = good-next _ job (reached-IsGood listing pass world es) e k f

  -- The listing before a pass is outside of what the loop catches: where it throws once, as the wait
  -- has returned to a loop that is not stopped, no pass begins any more, whatever happens.
  pub run_throwing :
      (l : Loop World Job) (n : ℕ) (es : List (Event World))
      → l.phase ≡ waiting n
      → l.signal.waits n ≡ some (returned true)
      → l.current ≡ none
      → l.stopped ≡ false
      → listing l.world ≡ none
      → (run listing pass (resumed ∷ es) l).started ≡ l.started
  unfolding run step resume after_wait begin_pass
  run_throwing l n es e f k s h = ground (
    arith,
    e,
    f,
    k,
    s,
    h,
    run-over es (resume listing pass l) (ground (arith, e, f, k, s, h))
        (ground (arith, e, f, k, s, h)),
  )
