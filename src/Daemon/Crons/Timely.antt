-- ===== src/Daemon/Crons/Timely.antt =====
-- A pass fires each schedule that is due, at a time it was due at, and none again for that time.
use hobbyist.Base.{
  ℕ, ◌≤◌, ◌≡◌, refl, sym, ap, subst, Bool, true, ◌||◌, ltb, Text, text_eq, text_eq_self, List, [],
  ◌∷◌, ◌++◌, All, All-append, All-mono, any, some, get_or_else, arith, branch, is_some, ◌⊎◌, inl,
  inr, Bool-cases,
}
use hobbyist.Base.TextMaps.{get, put, get-put}
use hobbyist.Daemon.Crons.{
  ScheduledWorker, CronFiring, CronState, cron_key, Due, due, threw, out_of_fuel, due_after, Calls,
  Ticking, since_of, mark, firing_of, due_step, cron_step, crons_loop, workers_loop, tick_crons,
}
use hobbyist.Daemon.Crons.Ledger.{
  key_of, IsDue, due_after-IsDue, Ledger, ledger, ledger-deliver_step,
}

-- One of the firings is under the key.
abbrev pub has_fired : Text → List CronFiring → Bool
has_fired key fired = any (λ f. text_eq (key_of f) key) fired

pub has_fired-append :
    (key : Text) (fs gs : List CronFiring)
    → has_fired key (fs ++ gs) ≡ has_fired key fs || has_fired key gs
has_fired-append key [] gs = refl
has_fired-append key (f ∷ fs) gs = ground (arith, has_fired-append key fs gs)

module _ (before : CronState) (now : ℕ) where
  -- A firing for the first time that its schedule matches since the last one before the pass, or
  -- since the start, a time that has come.
  pub record IsTimely (f : CronFiring) : Type 0 where
    pub is_due : IsDue f.cron (since_of before (key_of f)) f.scheduled_time_ms
    pub passed : f.scheduled_time_ms ≤ now

  -- The books of a pass: every firing is timely and recorded, and nothing else is.
  pub record IsKept (l : Ledger) : Type 0 where
    pub begun : l.started ≡ before.started_at_ms
    pub timely : All IsTimely l.fired
    pub stamped : All (λ f. get (key_of f) l.last ≡ some now) l.fired
    pub others :
        (key : Text)
        → (get key l.last ≡ get key before.last_fired_at_ms)
          ⊎ ((get key l.last ≡ some now) × (has_fired key l.fired ≡ true))

  module _ {Env : Type 0} (calls : Calls Env) where
    abbrev Kept : Ticking Env → Type 0
    Kept t = IsKept (ledger t)

    fresh-IsTimely :
        (worker : ScheduledWorker) (cron : Text) (time : ℕ) (t : Ticking Env)
        → Kept t
        → due_after cron (since_of t.state (cron_key worker.resource_id cron)) ≡ due time
        → time ≤ now
        → IsTimely (firing_of worker cron time)
    fresh-IsTimely worker cron time t kept e h = elim (kept.others key) [
      | inl same ↦ record {
        is_due = subst (λ since. IsDue cron since time) (same_since same kept.begun) found;
        passed = h;
      }
      | inr (stamp, done) ↦
          absurd
            (omega (arith, h, found.first.0, ap (λ o. get_or_else o t.state.started_at_ms) stamp))
    ]
      where
        key : Text
        key = cron_key worker.resource_id cron

        found : IsDue cron (since_of t.state key) time
        found = due_after-IsDue cron (since_of t.state key) time e

        same_since :
            get key t.state.last_fired_at_ms ≡ get key before.last_fired_at_ms
            → t.state.started_at_ms ≡ before.started_at_ms
            → since_of t.state key ≡ since_of before key
        same_since p q = rw (p, q) refl

    mark-IsKept :
        (worker : ScheduledWorker) (cron : Text) (time : ℕ) (t : Ticking Env)
        → Kept t
        → IsTimely (firing_of worker cron time)
        → IsKept (
            ledger
              (mark calls now (cron_key worker.resource_id cron) (firing_of worker cron time) t))
    mark-IsKept worker cron time t kept p = record {
      begun = kept.begun;
      timely = All-append IsTimely t.fired (firing ∷ []) kept.timely (p, tt);
      stamped =
          All-append Stamped t.fired (firing ∷ [])
            (All-mono (λ f q. ground (arith, q, get-put key (key_of f) now last)) t.fired
              kept.stamped)
            (ground (arith, get-put key key now last, text_eq_self key), tt);
      others = λ k. elim (Bool-cases (text_eq key k)) [
        | inl e ↦ inr (
          ground (arith, e, get-put key k now last),
          ground (arith, e, has_fired-append k t.fired (firing ∷ [])),
        )
        | inr d ↦ elim (kept.others k) [
          | inl same ↦ inl (ground (arith, d, same, get-put key k now last))
          | inr (stamp, done) ↦ inr (
            ground (arith, d, stamp, get-put key k now last),
            ground (arith, done, has_fired-append k t.fired (firing ∷ [])),
          )
        ]
      ];
    }
      where
        key : Text
        key = cron_key worker.resource_id cron

        firing : CronFiring
        firing = firing_of worker cron time

        last : List (Text × ℕ)
        last = t.state.last_fired_at_ms

        Stamped : CronFiring → Type 0
        Stamped f = get (key_of f) (put key now last) ≡ some now

    due_step-IsKept :
        (worker : ScheduledWorker) (cron : Text) (d : Due) (t : Ticking Env)
        → Kept t
        → due_after cron (since_of t.state (cron_key worker.resource_id cron)) ≡ d
        → Kept (due_step calls now worker cron d t)
    unfolding due_step
    due_step-IsKept worker cron (threw detail) t kept e =
        branch Kept (is_some (get (cron_key worker.resource_id cron) t.state.last_outcome))
          (λ b. kept) (λ b. kept)
    due_step-IsKept worker cron out_of_fuel t kept e = kept
    due_step-IsKept worker cron (due time) t kept e =
        branch Kept (ltb now time) (λ b. kept)
          λ b.
            let key = cron_key worker.resource_id cron in
            let firing = firing_of worker cron time in
            subst IsKept
              (sym (
                ledger-deliver_step calls (calls.state_of worker.resource_id t.env) key firing
                  (mark calls now key firing t)))
              (mark-IsKept worker cron time t kept
                (fresh-IsTimely worker cron time t kept e (ground (arith, b))))

    pub cron_step-IsKept :
        (worker : ScheduledWorker) (cron : Text) (t : Ticking Env)
        → Kept t
        → Kept (cron_step calls now worker cron t)
    unfolding cron_step
    cron_step-IsKept worker cron t kept = due_step-IsKept worker cron _ t kept refl

    pub crons_loop-IsKept :
        (worker : ScheduledWorker) (crons : List Text) (t : Ticking Env)
        → Kept t
        → IsKept (ledger (crons_loop calls now worker crons t))
    unfolding crons_loop
    crons_loop-IsKept worker [] t kept = kept
    crons_loop-IsKept worker (cron ∷ crons) t kept =
        crons_loop-IsKept worker crons _ (cron_step-IsKept worker cron t kept)

    workers_loop-IsKept :
        (workers : List ScheduledWorker) (t : Ticking Env)
        → Kept t
        → IsKept (ledger (workers_loop calls now workers t))
    unfolding workers_loop
    workers_loop-IsKept [] t kept = kept
    workers_loop-IsKept (worker ∷ workers) t kept =
        workers_loop-IsKept workers _ (crons_loop-IsKept worker worker.crons t kept)

    pub tick_crons-IsKept :
        (workers : List ScheduledWorker) (env : Env)
        → IsKept (ledger (tick_crons calls now workers before env))
    unfolding tick_crons
    tick_crons-IsKept workers env =
        workers_loop-IsKept workers (record { state = before; fired = []; env = env })
          (record { begun = refl; timely = tt; stamped = tt; others = λ key. inl refl })

    -- Every firing of a pass is for the first time that its schedule matches since the last firing
    -- before the pass, or since the start; that time has come; and the pass is recorded as the last
    -- firing of that schedule.
    pub tick_crons-IsTimely :
        (workers : List ScheduledWorker) (env : Env)
        → let t = tick_crons calls now workers before env in
          All IsTimely t.fired
          × All (λ f. get (key_of f) t.state.last_fired_at_ms ≡ some now) t.fired
    tick_crons-IsTimely workers env =
        let kept = tick_crons-IsKept workers env in (kept.timely, kept.stamped)
