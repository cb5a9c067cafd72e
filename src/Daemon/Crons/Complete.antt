-- ===== src/Daemon/Crons/Complete.antt =====
-- A pass leaves no schedule out that is due.
use hobbyist.Base.{
  ℕ, ◌≡◌, refl, ap, ◌∙◌, Bool, true, false, not, ◌||◌, ltb, leb, Text, text_eq, text_eq_self, List,
  [], ◌∷◌, all, is_some, branch, arith, Bool-cases, inl, inr,
}
use hobbyist.Base.TextMaps.{get}
use hobbyist.Daemon.Crons.{
  ScheduledWorker, CronFiring, CronState, Calls, Ticking, Due, due, threw, out_of_fuel, due_after,
  since_of, cron_key, firing_of, mark, deliver_step, due_step, cron_step, crons_loop, workers_loop,
  tick_crons,
}
use hobbyist.Daemon.Crons.Ledger.{ledger, ledger-deliver_step}
use hobbyist.Daemon.Crons.Timely.{
  has_fired, has_fired-append, IsKept, cron_step-IsKept, crons_loop-IsKept,
}

abbrev pub has_come : ℕ → Due → Bool
has_come now (due time) = leb time now
has_come now (threw detail) = false
has_come now out_of_fuel = false

-- Where the schedule is due, a firing is under its key.
abbrev pub is_answered : CronState → ℕ → List CronFiring → ScheduledWorker → Text → Bool
is_answered before now fired worker cron =
    let key = cron_key worker.resource_id cron in
    not (has_come now (due_after cron (since_of before key))) || has_fired key fired

module _ (before : CronState) (now : ℕ) {Env : Type 0} (calls : Calls Env) where
  -- The firings under a key after a schedule that is due.
  has_fired-deliver_step :
      (worker : ScheduledWorker) (cron : Text) (time : ℕ) (t : Ticking Env) (k : Text)
      → let key = cron_key worker.resource_id cron in
        let firing = firing_of worker cron time in
        has_fired k
          (deliver_step calls
            (calls.state_of worker.resource_id t.env)
            key
            firing
            (mark calls now key firing t)).fired
        ≡ has_fired k t.fired || text_eq key k
  has_fired-deliver_step worker cron time t k =
      let key = cron_key worker.resource_id cron in
      let firing = firing_of worker cron time in
      ground (
        arith,
        ap (λ l. has_fired k l.fired)
            (ledger-deliver_step calls (calls.state_of worker.resource_id t.env) key firing
              (mark calls now key firing t)),
        has_fired-append k t.fired (firing ∷ []),
      )

  abbrev Has : Text → Ticking Env → Type 0
  Has key t = has_fired key t.fired ≡ true

  due_step_keeps :
      (worker : ScheduledWorker) (cron key : Text) (d : Due) (t : Ticking Env)
      → Has key t
      → Has key (due_step calls now worker cron d t)
  unfolding due_step
  due_step_keeps worker cron key (threw detail) t h =
      branch (Has key) (is_some (get (cron_key worker.resource_id cron) t.state.last_outcome))
        (λ e. h) (λ e. h)
  due_step_keeps worker cron key out_of_fuel t h = h
  due_step_keeps worker cron key (due time) t h =
      branch (Has key) (ltb now time) (λ e. h)
        (λ e. ground (arith, h, has_fired-deliver_step worker cron time t key))

  due_step_fires :
      (worker : ScheduledWorker) (cron : Text) (d : Due) (t : Ticking Env)
      → has_come now d ≡ true
      → Has (cron_key worker.resource_id cron) (due_step calls now worker cron d t)
  unfolding due_step
  due_step_fires worker cron (threw detail) t h = absurd (ground (arith, h))
  due_step_fires worker cron out_of_fuel t h = absurd (ground (arith, h))
  due_step_fires worker cron (due time) t h =
      let key = cron_key worker.resource_id cron in
      branch (Has key) (ltb now time) (λ e. absurd (ground (arith, h, e)))
        (λ e. ground (arith, text_eq_self key, has_fired-deliver_step worker cron time t key))

  crons_loop_keeps :
      (worker : ScheduledWorker) (crons : List Text) (key : Text) (t : Ticking Env)
      → Has key t
      → Has key (crons_loop calls now worker crons t)
  unfolding crons_loop cron_step
  crons_loop_keeps worker [] key t h = h
  crons_loop_keeps worker (cron ∷ crons) key t h =
      crons_loop_keeps worker crons key _ (due_step_keeps worker cron key _ t h)

  workers_loop_keeps :
      (workers : List ScheduledWorker) (key : Text) (t : Ticking Env)
      → Has key t
      → Has key (workers_loop calls now workers t)
  unfolding workers_loop
  workers_loop_keeps [] key t h = h
  workers_loop_keeps (worker ∷ workers) key t h =
      workers_loop_keeps workers key _ (crons_loop_keeps worker worker.crons key t h)

  abbrev IsAnswered : ScheduledWorker → Text → Ticking Env → Type 0
  IsAnswered worker cron t = is_answered before now t.fired worker cron ≡ true

  cron_step-IsAnswered :
      (worker : ScheduledWorker) (cron : Text) (t : Ticking Env)
      → IsKept before now (ledger t)
      → IsAnswered worker cron (cron_step calls now worker cron t)
  unfolding cron_step
  cron_step-IsAnswered worker cron t kept = elim (kept.others key) [
    | inl same ↦
        let since : since_of t.state key ≡ since_of before key = rw (same, kept.begun) refl in
        elim (Bool-cases (has_come now (due_after cron (since_of before key)))) [
          | inl come ↦ ground (
            arith,
            due_step_fires worker cron (due_after cron (since_of t.state key)) t
                (ap (λ u. has_come now (due_after cron u)) since ∙ come),
          )
          | inr early ↦ ground (arith, early)
        ]
    | inr (stamp, done) ↦
        ground
          (arith, due_step_keeps worker cron key (due_after cron (since_of t.state key)) t done)
  ]
    where
      key : Text
      key = cron_key worker.resource_id cron

  -- What was answered stays so.
  IsAnswered-mono :
      (worker : ScheduledWorker) (cron : Text) (t u : Ticking Env)
      → (Has (cron_key worker.resource_id cron) t → Has (cron_key worker.resource_id cron) u)
      → IsAnswered worker cron t
      → IsAnswered worker cron u
  IsAnswered-mono worker cron t u keeps h = ground (arith, h, keeps)

  crons_loop-answers :
      (worker : ScheduledWorker) (crons : List Text) (t : Ticking Env)
      → IsKept before now (ledger t)
      → all (is_answered before now (crons_loop calls now worker crons t).fired worker) crons ≡ true
  unfolding crons_loop
  crons_loop-answers worker [] t kept = refl
  crons_loop-answers worker (cron ∷ crons) t kept =
      let stepped = cron_step calls now worker cron t in
      ground (
        arith,
        IsAnswered-mono worker cron stepped (crons_loop calls now worker crons stepped)
            (crons_loop_keeps worker crons (cron_key worker.resource_id cron) stepped)
            (cron_step-IsAnswered worker cron t kept),
        crons_loop-answers worker crons stepped
            (cron_step-IsKept before now calls worker cron t kept),
      )

  answers_mono :
      (worker : ScheduledWorker) (crons : List Text) (t u : Ticking Env)
      → ((key : Text) → Has key t → Has key u)
      → all (is_answered before now t.fired worker) crons ≡ true
      → all (is_answered before now u.fired worker) crons ≡ true
  answers_mono worker [] t u keeps h = refl
  answers_mono worker (cron ∷ crons) t u keeps h = ground (
    arith,
    h,
    IsAnswered-mono worker cron t u (keeps (cron_key worker.resource_id cron)),
    answers_mono worker crons t u keeps,
  )

  workers_loop-answers :
      (workers : List ScheduledWorker) (t : Ticking Env)
      → IsKept before now (ledger t)
      → all
          (λ w. all (is_answered before now (workers_loop calls now workers t).fired w) w.crons)
          workers
        ≡ true
  unfolding workers_loop
  workers_loop-answers [] t kept = refl
  workers_loop-answers (worker ∷ workers) t kept =
      let looped = crons_loop calls now worker worker.crons t in
      ground (
        arith,
        answers_mono worker worker.crons looped (workers_loop calls now workers looped)
            (λ key. workers_loop_keeps workers key looped)
            (crons_loop-answers worker worker.crons t kept),
        workers_loop-answers workers looped
            (crons_loop-IsKept before now calls worker worker.crons t kept),
      )

  -- Of the schedules of the workers, each that is due when the pass begins is fired by it.
  pub tick_crons-answers :
      (workers : List ScheduledWorker) (env : Env)
      → all
          (λ w.
            all (is_answered before now (tick_crons calls now workers before env).fired w) w.crons)
          workers
        ≡ true
  unfolding tick_crons
  tick_crons-answers workers env =
      workers_loop-answers workers (record { state = before; fired = []; env = env })
        (record { begun = refl; timely = tt; stamped = tt; others = λ key. inl refl })
