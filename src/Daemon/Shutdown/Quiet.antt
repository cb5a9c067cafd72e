-- ===== src/Daemon/Shutdown/Quiet.antt =====
-- What the order of the shutdown is for: nothing runs any more when the resources are stopped.
use hobbyist.Base.{
  ℕ, suc, ◌<◌, ◌≡◌, ◌⊎◌, true, false, ◌==◌, ltb, List, [], ◌∷◌, Option, none, some, arith,
  Bool-cases, Option-cases, inl, inr, ==_iff, sym, subst,
}
use hobbyist.Core.Loop.{Loop, Event}
use hobbyist.Core.Loop as Core
use hobbyist.Core.Loop.Drained.{is_passing, has_resolved, step-started, step-quiet, stopped_lem}
use hobbyist.Daemon.Shutdown.{
  Stage, serving, closing_listeners, draining, closing_proxies, stopping_resources, Daemon, Moment,
  shutdown, in_loop, awaited, loop_count, drain, advance, perform_shutdown, step, run,
}

module _ {World Job : Type 0} (listing : ℕ → World → Option Job)
    (pass : ℕ → Job → World → World) where
  abbrev IsQuiet : Loop World Job → Type 0
  IsQuiet l = (l.stopped ≡ true) × (is_passing l ≡ false)

  abbrev IsDraining : Option ℕ → Loop World Job → Type 0
  IsDraining none l = IsQuiet l
  IsDraining (some n) l = (l.stopped ≡ true) × (l.started ≡ n)

  -- What the shutdown knows of the loop of number `j` at a stage.
  abbrev IsShut : Stage → ℕ → Loop World Job → Type 0
  IsShut serving j l = Unit
  IsShut closing_listeners j l = Unit
  IsShut (draining i promise) j l = (j < i → IsQuiet l) × (j ≡ i → IsDraining promise l)
  IsShut closing_proxies j l = IsQuiet l
  IsShut stopping_resources j l = IsQuiet l

  abbrev IsOrderly : Daemon World Job → Type 0
  IsOrderly d = (j : ℕ) → j < loop_count → IsShut d.stage j (d.loops j)

  IsDraining-stop : (l : Loop World Job) → IsDraining (Core.stop l).1 (Core.stop l).0
  IsDraining-stop l =
      let (off, same, quiet, free, named) = stopped_lem l in
      elim (Option-cases (Core.stop l).1) [
        | inl e ↦ rw (IsDraining, e) (off, ground (arith, free e, quiet))
        | inr (n, e) ↦ rw (IsDraining, e) (off, ground (arith, named n e, same))
      ]

  IsQuiet-resolved :
      (promise : Option ℕ) (l : Loop World Job)
      → IsDraining promise l
      → has_resolved promise l ≡ true
      → IsQuiet l
  IsQuiet-resolved none l h k = h
  IsQuiet-resolved (some n) l h k = ground (arith, h, k)

  step-IsQuiet :
      (i : ℕ) (e : Event World) (l : Loop World Job)
      → IsQuiet l
      → IsQuiet (Core.step (listing i) (pass i) e l)
  step-IsQuiet i e l (off, quiet) =
      ((step-started (listing i) (pass i) e l off).0, step-quiet (listing i) (pass i) e l off quiet)

  loop-IsShut :
      (s : Stage) (i j : ℕ) (e : Event World) (l : Loop World Job)
      → IsShut s j l
      → IsShut s j (Core.step (listing i) (pass i) e l)
  loop-IsShut serving i j e l h = tt
  loop-IsShut closing_listeners i j e l h = tt
  loop-IsShut (draining n promise) i j e l h =
      (λ k. step-IsQuiet i e l (h.0 k), λ k. turn promise (h.1 k))
    where
      turn : (p : Option ℕ) → IsDraining p l → IsDraining p (Core.step (listing i) (pass i) e l)
      turn none q = step-IsQuiet i e l q
      turn (some n) (off, at) =
          let (off', same) = step-started (listing i) (pass i) e l off in (off', ground arith)
  loop-IsShut closing_proxies i j e l h = step-IsQuiet i e l h
  loop-IsShut stopping_resources i j e l h = step-IsQuiet i e l h

  -- Those before `i` are quiet, and it is the turn of `i`.
  drain-IsOrderly :
      (i : ℕ) (loops : ℕ → Loop World Job)
      → ((j : ℕ) → j < loop_count → j < i → IsQuiet (loops j))
      → IsOrderly (drain i loops)
  unfolding drain
  drain-IsOrderly i loops h = go (Bool-cases (ltb i loop_count))
    where
      apart : {j : ℕ} → j < i → (i == j) ≡ false
      apart m = ground (arith, m)

      go : (ltb i loop_count ≡ true) ⊎ (ltb i loop_count ≡ false) → IsOrderly (drain i loops)
      go (inl more) = rw more (λ j k. (
        λ m. rw (apart m) (h j k m),
        λ e. rw ((==_iff i j).1 (sym e)) (IsDraining-stop (loops i)),
      ))
      go (inr last) = rw last (λ j k. h j k (ground (arith, last)))

  advance-IsOrderly :
      (s : Stage) (loops : ℕ → Loop World Job)
      → ((j : ℕ) → j < loop_count → IsShut s j (loops j))
      → IsOrderly (advance s loops)
  unfolding advance
  advance-IsOrderly serving loops h = λ j k. tt
  advance-IsOrderly closing_listeners loops h =
      drain-IsOrderly 0 loops (λ j k m. absurd (omega arith))
  advance-IsOrderly (draining i promise) loops h =
      elim (Bool-cases (has_resolved promise (loops i))) [
        | inl done ↦ rw done (
            drain-IsOrderly (suc i) loops (λ j k m. elim (Bool-cases (j == i)) [
              | inl same ↦
                  let at : j ≡ i = (==_iff j i).0 same in
                  IsQuiet-resolved promise (loops j) ((h j k).1 at) (rw at done)
              | inr other ↦ (h j k).0 (ground (arith, other, m))
            ]))
        | inr pending ↦ rw pending h
      ]
  advance-IsOrderly closing_proxies loops h = h
  advance-IsOrderly stopping_resources loops h = h

  shutdown-IsShut :
      (s : Stage) (j : ℕ) (l : Loop World Job) → IsShut s j l → IsShut (perform_shutdown s) j l
  unfolding perform_shutdown
  shutdown-IsShut serving j l h = tt
  shutdown-IsShut closing_listeners j l h = h
  shutdown-IsShut (draining i promise) j l h = h
  shutdown-IsShut closing_proxies j l h = h
  shutdown-IsShut stopping_resources j l h = h

  step-IsOrderly :
      (m : Moment World) (d : Daemon World Job) → IsOrderly d → IsOrderly (step listing pass m d)
  unfolding step
  step-IsOrderly shutdown d h = λ j k. shutdown-IsShut d.stage j (d.loops j) (h j k)
  step-IsOrderly awaited d h = advance-IsOrderly d.stage d.loops h
  step-IsOrderly (in_loop i e) d h = λ j k. elim (Bool-cases (i == j)) [
    | inl same ↦ rw same (
        subst (λ n. IsShut d.stage j (Core.step (listing i) (pass i) e (d.loops n)))
          (sym ((==_iff i j).0 same)) (loop-IsShut d.stage i j e (d.loops j) (h j k)))
    | inr other ↦ rw other (h j k)
  ]

  run-IsOrderly :
      (ms : List (Moment World)) (d : Daemon World Job)
      → IsOrderly d
      → IsOrderly (run listing pass ms d)
  unfolding run
  run-IsOrderly [] d h = h
  run-IsOrderly (m ∷ ms) d h = run-IsOrderly ms (step listing pass m d) (step-IsOrderly m d h)

  closed-IsQuiet :
      (s : Stage) (j : ℕ) (l : Loop World Job)
      → (s ≡ closing_proxies) ⊎ (s ≡ stopping_resources)
      → IsShut s j l
      → IsQuiet l
  closed-IsQuiet serving j l at h = ground (arith, at)
  closed-IsQuiet closing_listeners j l at h = ground (arith, at)
  closed-IsQuiet (draining i p) j l at h = ground (arith, at)
  closed-IsQuiet closing_proxies j l at h = h
  closed-IsQuiet stopping_resources j l at h = h

  -- However the loops of a serving daemon run before and during its shutdown, by the time that it
  -- closes its proxies or stops resources each of its four loops is stopped and none of their passes
  -- is running.
  pub run-IsQuiet :
      (ms : List (Moment World)) (loops : ℕ → Loop World Job) (j : ℕ)
      → j < loop_count
      → let d = run listing pass ms (record { stage = serving; loops = loops }) in
        (d.stage ≡ closing_proxies) ⊎ (d.stage ≡ stopping_resources) → IsQuiet (d.loops j)
  run-IsQuiet ms loops j k at = closed-IsQuiet _ j _ at (run-IsOrderly ms _ (λ i k'. tt) j k)
