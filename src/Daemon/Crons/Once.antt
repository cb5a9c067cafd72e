-- ===== src/Daemon/Crons/Once.antt =====
-- Two passes in a row.
use hobbyist.Base.{
  ℕ, ◌<◌, ◌≡◌, refl, ap, subst, Bool, true, not, ◌||◌, ltb, Text, text_eq, text_eq_iff, List, [],
  ◌∷◌, All, all, some, get_or_else, arith, Bool-cases, inl, inr,
}
use hobbyist.Base.TextMaps.{get}
use hobbyist.Daemon.Crons.{ScheduledWorker, CronFiring, CronState, Calls, tick_crons}
use hobbyist.Daemon.Crons.Ledger.{key_of}
use hobbyist.Daemon.Crons.Timely.{has_fired, IsTimely, tick_crons-IsTimely}

stamped_of :
    (key : Text) (last : List (Text × ℕ)) (now : ℕ) (fired : List CronFiring)
    → All (λ f. get (key_of f) last ≡ some now) fired
    → has_fired key fired ≡ true
    → get key last ≡ some now
stamped_of key last now [] h p = absurd (ground (arith, p))
stamped_of key last now (f ∷ fired) (e, h) p = elim (Bool-cases (text_eq (key_of f) key)) [
  | inl same ↦ subst (λ k. get k last ≡ some now) ((text_eq_iff (key_of f) key).0 same) e
  | inr other ↦ stamped_of key last now fired h (ground (arith, p, other))
]

-- Of the firings `later`, those under a key of `sooner` are for times after `now`.
abbrev pub is_no_repeat : ℕ → List CronFiring → List CronFiring → Bool
is_no_repeat now sooner later =
    all (λ g. not (has_fired (key_of g) sooner) || ltb now g.scheduled_time_ms) later

timely_no_repeat :
    (s : CronState) (now now' : ℕ) (sooner later : List CronFiring)
    → All (λ f. get (key_of f) s.last_fired_at_ms ≡ some now) sooner
    → All (IsTimely s now') later
    → is_no_repeat now sooner later ≡ true
timely_no_repeat s now now' sooner [] h k = refl
timely_no_repeat s now now' sooner (g ∷ later) h (p, k) =
    elim (Bool-cases (has_fired (key_of g) sooner)) [
      | inl repeat ↦
          let stamp =
            ap (λ o. get_or_else o s.started_at_ms)
              (stamped_of (key_of g) s.last_fired_at_ms now sooner h repeat) in
          let after : now < g.scheduled_time_ms = omega (arith, stamp, p.is_due.first.0) in
          ground (arith, repeat, after, timely_no_repeat s now now' sooner later h k)
      | inr first ↦ ground (arith, first, timely_no_repeat s now now' sooner later h k)
    ]

-- What a pass has fired, the next pass fires again only for a time after the earlier pass: no time of
-- a schedule is fired twice, and none that was missed before the earlier pass is made up for.
pub tick_crons_twice :
    {Env : Type 0} (calls : Calls Env) (before : CronState) (now now' : ℕ)
    (workers workers' : List ScheduledWorker) (env env' : Env)
    → let first = tick_crons calls now workers before env in
      is_no_repeat now first.fired (tick_crons calls now' workers' first.state env').fired ≡ true
tick_crons_twice calls before now now' workers workers' env env' =
    let first = tick_crons calls now workers before env in
    timely_no_repeat first.state now now' first.fired
      (tick_crons calls now' workers' first.state env').fired
      (tick_crons-IsTimely before now calls workers env).1
      (tick_crons-IsTimely first.state now' calls workers' env').0
