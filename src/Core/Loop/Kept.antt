-- ===== src/Core/Loop/Kept.antt =====
-- What every pass of a timer loop keeps.
use hobbyist.Base.{◌≡◌, List, [], ◌∷◌, Option, none, some, arith, All}
use hobbyist.Core.Loop.{
  Tick, running, settled, Loop, Event, slept, answered, resumed, finished, was_stopped, elsewhere,
  begin_wait, stop, elapse, answer, begin_pass, after_wait, after_pass, resume, finish, step, run,
}

-- What the rest of the daemon does to the world keeps `P`.
abbrev pub IsKept : {World : Type 0} → (World → Type 0) → Event World → Type 0
IsKept P (elsewhere f) = (w : _) → P w → P (f w)
IsKept P _ = Unit

module _ {World Job : Type 0} (listing : World → Option Job) (pass : Job → World → World)
    (P : World → Type 0) (keeps : (job : Job) (w : World) → P w → P (pass job w)) where
  world_lem :
      (l : Loop World Job)
      → ((elapse l).world ≡ l.world)
        × ((answer l).world ≡ l.world)
        × ((resume listing pass l).world ≡ l.world)
        × ((stop l).0.world ≡ l.world)
  unfolding elapse answer resume after_wait after_pass begin_pass begin_wait stop
  world_lem l = ground arith

  finish_lem : (l : Loop World Job) → P l.world → P (finish listing pass l).world
  unfolding finish
  finish_lem l h = go l.current
    where
      go :
          (t : Option (Tick Job))
          → P
              (elim t as (λ _. Loop World Job) [
                | some (running job) ↦ record l { world = pass job l.world; current = some settled }
                | _ ↦ l
              ]).world
      go none = h
      go (some (running job)) = keeps job l.world h
      go (some settled) = h

  step-keeps :
      (e : Event World) (l : Loop World Job)
      → IsKept P e
      → P l.world
      → P (step listing pass e l).world
  unfolding step
  step-keeps slept l k h = rw (world_lem l).0 h
  step-keeps answered l k h = rw (world_lem l).1 h
  step-keeps resumed l k h = rw (world_lem l).2 h
  step-keeps finished l k h = finish_lem l h
  step-keeps was_stopped l k h = rw (world_lem l).3 h
  step-keeps (elsewhere f) l k h = k l.world h

  -- What every pass keeps, and the rest of the daemon too, holds throughout the history of a loop.
  pub run-keeps :
      (es : List (Event World)) (l : Loop World Job)
      → All (IsKept P) es
      → P l.world
      → P (run listing pass es l).world
  unfolding run
  run-keeps [] l k h = h
  run-keeps (e ∷ es) l (k, ks) h = run-keeps es (step listing pass e l) ks (step-keeps e l k h)
