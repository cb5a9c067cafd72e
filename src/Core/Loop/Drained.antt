-- ===== src/Core/Loop/Drained.antt =====
-- What stop() of a timer loop promises: nothing begins after it, and its promise waits for the pass
-- that is in flight; and the loop's signal never holds more than the one wait.
use hobbyist.Base.{
  ℕ, ◌≡◌, ◌≤◌, refl, Bool, true, false, not, ◌&&◌, ◌==◌, List, [], ◌∷◌, Option, none, some,
  if◌then◌else◌, arith, is_some, Option-cases, inl, inr,
}
use hobbyist.Core.StopSignal.{
  StopSignal, Wait, racing, decided, returned, create_stop_signal, pending, set_wait, wait, decide,
  sleep_over, finish_wait, delete, wake_all,
}
use hobbyist.Core.StopSignal as Signal
use hobbyist.Core.Loop.{
  Phase, waiting, passing, over, Tick, running, Loop, Event, slept, answered, resumed, finished,
  was_stopped, elsewhere, begin_wait, start, stop, elapse, answer, begin_pass, after_wait,
  after_pass, resume, finish, step, run, start,
}

-- The wait of number `n` in a loop that stands in it.
abbrev IsHeld : ℕ → Bool → List ℕ → Option Wait → Type 0
IsHeld n stopped waiters (some racing) = (stopped ≡ false) × (waiters ≡ n ∷ [])
IsHeld n stopped waiters (some (decided b)) =
    (waiters ≡ (if stopped then [] else n ∷ [])) × (b ≡ false → stopped ≡ true)
IsHeld n stopped waiters (some (returned b)) = (waiters ≡ []) × (b ≡ false → stopped ≡ true)
IsHeld n stopped waiters none = ⊥

abbrev IsStanding : {Job : Type 0} → Phase → Option (Tick Job) → Bool → StopSignal → Type 0
IsStanding (waiting n) current stopped signal =
    (current ≡ none) × IsHeld n stopped signal.waiters (signal.waits n)
IsStanding passing current stopped signal = (is_some current ≡ true) × (signal.waiters ≡ [])
IsStanding over current stopped signal = (current ≡ none) × (signal.waiters ≡ [])

module _ {World Job : Type 0} where
  -- The state of a loop between two of its events.
  abbrev pub IsGood : Loop World Job → Type 0
  IsGood l = (l.signal.stopped ≡ l.stopped) × IsStanding l.phase l.current l.stopped l.signal

  abbrev pub is_passing : Loop World Job → Bool
  is_passing l = elim l.current [ some (running job) ↦ true | _ ↦ false ]

  -- The promise that stop() returned is resolved in a later state of the loop.
  abbrev pub has_resolved : Option ℕ → Loop World Job → Bool
  has_resolved none l = true
  has_resolved (some n) l = not (is_passing l && (l.started == n))

  begin_wait-IsGood :
      (l : Loop World Job)
      → l.signal.stopped ≡ l.stopped
      → l.current ≡ none
      → l.signal.waiters ≡ []
      → IsGood (begin_wait l)
  unfolding begin_wait wait
  begin_wait-IsGood l h k e = ground (arith, h, k, e)

  stop-IsGood : (l : Loop World Job) → IsGood l → IsGood (stop l).0
  unfolding stop Signal.stop wake_all decide
  stop-IsGood l h = ground (arith, h)

  elapse-IsGood : (l : Loop World Job) → IsGood l → IsGood (elapse l)
  unfolding elapse sleep_over decide
  elapse-IsGood l h = ground (arith, h)

  answer-IsGood : (l : Loop World Job) → IsGood l → IsGood (answer l)
  unfolding answer finish_wait delete
  answer-IsGood l h = ground (arith, h)

  pub stopped_lem :
      (l : Loop World Job)
      → ((stop l).0.stopped ≡ true)
        × ((stop l).0.started ≡ l.started)
        × (is_passing (stop l).0 ≡ is_passing l)
        × ((stop l).1 ≡ none → is_passing l ≡ false)
        × ((n : ℕ) → (stop l).1 ≡ some n → n ≡ l.started)
  unfolding stop
  stopped_lem l = ground arith

module _ {World Job : Type 0} (listing : World → Option Job) (pass : Job → World → World) where
  resume-IsGood : (l : Loop World Job) → IsGood l → IsGood (resume listing pass l)
  unfolding resume after_wait after_pass begin_pass begin_wait wait
  resume-IsGood l h = ground (arith, h)

  finish-IsGood : (l : Loop World Job) → IsGood l → IsGood (finish listing pass l)
  unfolding finish
  finish-IsGood l h = ground (arith, h)

  step-IsGood : (e : Event World) (l : Loop World Job) → IsGood l → IsGood (step listing pass e l)
  unfolding step
  step-IsGood slept l h = elapse-IsGood l h
  step-IsGood answered l h = answer-IsGood l h
  step-IsGood resumed l h = resume-IsGood l h
  step-IsGood finished l h = finish-IsGood l h
  step-IsGood was_stopped l h = stop-IsGood l h
  step-IsGood (elsewhere f) l h = h

  pub run-IsGood :
      (es : List (Event World)) (l : Loop World Job) → IsGood l → IsGood (run listing pass es l)
  unfolding run
  run-IsGood [] l h = h
  run-IsGood (e ∷ es) l h = run-IsGood es (step listing pass e l) (step-IsGood e l h)

  pub reached-IsGood :
      (world : World) (es : List (Event World)) → IsGood (run listing pass es (start world))
  unfolding start
  reached-IsGood world es =
      run-IsGood es (start world) (begin_wait-IsGood {World = World} {Job = Job} _ refl refl refl)

  -- A loop whose signal is stopped begins nothing.
  pub step-started :
      (e : Event World) (l : Loop World Job)
      → l.stopped ≡ true
      → ((step listing pass e l).stopped ≡ true) × ((step listing pass e l).started ≡ l.started)
  unfolding step elapse answer resume after_wait after_pass begin_wait finish stop
  step-started slept l h = ground (arith, h)
  step-started answered l h = ground (arith, h)
  step-started resumed l h = ground (arith, h)
  step-started finished l h = ground (arith, h)
  step-started was_stopped l h = ground (arith, h)
  step-started (elsewhere f) l h = ground (arith, h)

  run-started :
      (es : List (Event World)) (l : Loop World Job)
      → l.stopped ≡ true
      → (run listing pass es l).started ≡ l.started
  unfolding run
  run-started [] l h = refl
  run-started (e ∷ es) l h =
      let (k, same) = step-started e l h in
      ground (arith, same, run-started es (step listing pass e l) k)

  pub step-quiet :
      (e : Event World) (l : Loop World Job)
      → l.stopped ≡ true
      → is_passing l ≡ false
      → is_passing (step listing pass e l) ≡ false
  unfolding step elapse answer resume after_wait after_pass begin_wait finish stop
  step-quiet slept l h k = ground (arith, h, k)
  step-quiet answered l h k = ground (arith, h, k)
  step-quiet resumed l h k = ground (arith, h, k)
  step-quiet finished l h k = ground (arith, h, k)
  step-quiet was_stopped l h k = ground (arith, h, k)
  step-quiet (elsewhere f) l h k = k

  run-quiet :
      (es : List (Event World)) (l : Loop World Job)
      → l.stopped ≡ true
      → is_passing l ≡ false
      → is_passing (run listing pass es l) ≡ false
  unfolding run
  run-quiet [] l h k = k
  run-quiet (e ∷ es) l h k =
      run-quiet es (step listing pass e l) (step-started e l h).0 (step-quiet e l h k)

  -- Once stop() is called on a loop, however its history goes on, no further pass begins; and when
  -- the promise that stop() returned has resolved, no pass is running.
  pub run-stop :
      (l : Loop World Job) (es : List (Event World))
      → let (l1, promise) = stop l in
        let l2 = run listing pass es l1 in
        (l2.started ≡ l.started) × (has_resolved promise l2 ≡ true → is_passing l2 ≡ false)
  run-stop l es =
      let (off, same, quiet, free, named) = stopped_lem l in
      let kept : (run listing pass es (stop l).0).started ≡ (stop l).0.started =
        run-started es (stop l).0 off in
      elim (Option-cases (stop l).1) [
        | inl e ↦ (ground arith, λ h. run-quiet es (stop l).0 off (ground (arith, free e)))
        | inr (n, e) ↦ (ground arith, λ h. ground (arith, h, named n e))
      ]

  -- In every history of a loop, stop() at any time included, its signal has at most one wait pending,
  -- and none once the loop is stopped.
  pub run-pending :
      (world : World) (es : List (Event World))
      → let l = run listing pass es (start world) in
        (pending l.signal ≤ 1) × (l.stopped ≡ true → pending l.signal ≡ 0)
  run-pending world es = ground (arith, reached-IsGood world es)
