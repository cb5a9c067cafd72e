-- ===== src/Daemon/Wake/Retried.antt =====
-- A refusal ends by itself.
use hobbyist.Base.{
  ℕ, ◌+◌, ◌*◌, ◌^◌, ◌≤◌, ◌≡◌, refl, sym, ap, subst, ◌∙◌, Bool, true, false, not, ◌&&◌, ltb, Text,
  List, ◌++◌, all, if◌then◌else◌, String, str_eq, str_eq_iff, [], ◌∷◌, keep, Option, none, some,
  is_some, arith, branch,
}
use hobbyist.Base.Maps.{get, get-put, get-remove}
use hobbyist.Core.Types.{Resource, is_running}
use hobbyist.Daemon.World.{World, get_resource, bound_database}
use hobbyist.Daemon.Wake.{
  WakeRefusal, Phase, at_fence, at_database, at_start, settled, Waking, is_refused_by, failures_of,
  start_settled, finished, is_wake_refused, enter, check_row, begin, wake_if_asleep, wake_database,
  wake_bound_database, to_database, wake, after_database, called, database_settled, Event, resume,
  apply, run,
}
use hobbyist.Daemon.Wake.Held.{lasts_until, is_idle, starts_of, is_clear_of}
use hobbyist.Daemon.Wake.Refused.{run_failed-IsHeld}
use hobbyist.Daemon.Backoff.{wake_retry_delay_ms, wake_retry_delay_ms_lem}

module _ (w : World) (blocks_wake : String → Bool) (now : ℕ) where
  -- The same starts as in a state.
  abbrev Startless : Waking → Waking → Type 0
  Startless s t = t.starts ≡ s.starts

  wake_if_asleep-starts :
      (o : Option Resource) (s : Waking) → Startless s (wake_if_asleep w blocks_wake now o s)
  unfolding wake_if_asleep wake_database begin check_row
  wake_if_asleep-starts none s = refl
  wake_if_asleep-starts (some database) s =
      branch (Startless s) (is_running database.state) (λ e. refl)
        λ e.
          branch (Startless s) (is_some (get database.id s.in_flight)) (λ e. refl)
            λ e. checked (get_resource w.resources database.id)
    where
      checked :
          (o : Option Resource)
          → Startless s
              (check_row blocks_wake now database.id (λ r s. enter database.id at_database s) o s)
      checked none = refl
      checked (some r) =
          branch (Startless s) (is_wake_refused s database.id now) (λ e. refl)
            λ e. branch (Startless s) (blocks_wake r.project_id) (λ e. refl) (λ e. refl)

  -- A wake of a resource that is not refused, not held and not being woken goes to its database.
  wake_enters :
      (id : String) (r : Resource) (s : Waking)
      → get_resource w.resources id ≡ some r
      → get id s.in_flight ≡ none
      → is_wake_refused s id now ≡ false
      → blocks_wake r.project_id ≡ false
      → wake w blocks_wake now id s ≡ to_database w blocks_wake now id r s
  unfolding wake begin check_row
  wake_enters id r s found idle free unheld = rw (idle, found, free, unheld) refl

-- Once it is not refused, the next wake starts it.
free_starts :
    (w : World) (blocks_wake : String → Bool) (now now' : ℕ) (id : String) (r : Resource)
    (s : Waking)
    → get_resource w.resources id ≡ some r
    → get id s.in_flight ≡ none
    → is_wake_refused s id now ≡ false
    → blocks_wake r.project_id ≡ false
    → starts_of id (
        run
          (record { at = now; id = id; piece = called w blocks_wake }
            ∷ record { at = now'; id = id; piece = database_settled true }
            ∷ [])
          s)
      ≡ (id, now') ∷ starts_of id s
unfolding run apply resume after_database wake_bound_database
free_starts w blocks_wake now now' id r s found idle free unheld =
    ap (λ v. starts_of id (apply answer v))
      (wake_enters w blocks_wake now id r s found idle free unheld)
    ∙ subst
        (λ p.
          starts_of id (resume now' id (database_settled true) p entered)
          ≡ (id, now') ∷ starts_of id s)
        (sym awaits) started
  where
    answer : Event
    answer = record { at = now'; id = id; piece = database_settled true }

    entered : Waking
    entered = to_database w blocks_wake now id r s

    awaits : get id entered.in_flight ≡ some at_database
    awaits = ground (
      arith,
      get-put id id at_database (wake_bound_database w blocks_wake now r s).in_flight,
      str_eq_iff id id,
    )

    same : entered.starts ≡ s.starts
    same = wake_if_asleep-starts w blocks_wake now (bound_database w r) s

    started : keep (λ p. str_eq p.0 id) ((id, now') ∷ entered.starts) ≡ (id, now') ∷ starts_of id s
    started = ground (arith, str_eq_iff id id, ap (keep (λ p. str_eq p.0 id)) same)

-- The wait after a failure that `n` failures have gone before: half a minute, twice as long after
-- each, and a quarter of an hour at most.
abbrev pub wait_ms : ℕ → ℕ
wait_ms n = if ltb n 5 then 30000 * 2 ^ n else 900000

run-concat : (es fs : List Event) (s : Waking) → run (es ++ fs) s ≡ run fs (run es s)
unfolding run
run-concat [] fs s = refl
run-concat (e ∷ es) fs s = run-concat es fs (apply e s)

-- Behind the promise that has settled nobody is waking the resource.
finish_idle :
    (at : ℕ) (id : String) (s : Waking)
    → is_idle (get id s.in_flight) ≡ true
    → let t = apply (record { at = at; id = id; piece = finished }) s in
      (get id t.in_flight ≡ none) × (t.refusals ≡ s.refusals) × (t.starts ≡ s.starts)
unfolding apply resume
finish_idle at id s h = go (get id s.in_flight) refl h
  where
    go :
        (o : Option Phase)
        → get id s.in_flight ≡ o
        → is_idle o ≡ true
        → let t = resume at id finished o s in
          (get id t.in_flight ≡ none) × (t.refusals ≡ s.refusals) × (t.starts ≡ s.starts)
    go none e h = (e, refl, refl)
    go (some settled) e h =
        (ground (arith, get-remove id id s.in_flight, str_eq_iff id id), refl, refl)
    go (some at_fence) e h = absurd (ground (arith, h))
    go (some at_database) e h = absurd (ground (arith, h))
    go (some at_start) e h = absurd (ground (arith, h))

free_later :
    (retry now : ℕ) (o : Option WakeRefusal)
    → lasts_until retry o ≡ true
    → retry ≤ now
    → is_refused_by o now ≡ false
free_later retry now none h k = refl
free_later retry now (some refusal) h k = ground (arith, h, k)

-- A start that has failed is made again: after whatever happens before the end of the wait, but for
-- a refusal that is cleared by hand, the start has not been called; and once the wait is over, the next
-- wake of the resource, if it stands in the store and no snapshot holds its project, calls it once, as
-- soon as its database is awake.
pub retry_starts :
    (failed_at : ℕ) (id : String) (last_error : Text) (s : Waking) (es : List Event) (w : World)
    (blocks_wake : String → Bool) (again awake_at : ℕ) (r : Resource)
    → get id s.in_flight ≡ some at_start
    → let retry = failed_at + wait_ms (failures_of (get id s.refusals)) in
      all (λ e. ltb e.at retry && not (is_clear_of id e)) es ≡ true
      → failed_at + wait_ms (failures_of (get id s.refusals)) ≤ again
      → get_resource w.resources id ≡ some r
      → blocks_wake r.project_id ≡ false
      → let before =
          run es (
            apply
              (record { at = failed_at; id = id; piece = start_settled (some last_error) })
              s) in
        (starts_of id before ≡ starts_of id s)
        × (starts_of id (
              run
                (record { at = again; id = id; piece = finished }
                  ∷ record { at = again; id = id; piece = called w blocks_wake }
                  ∷ record { at = awake_at; id = id; piece = database_settled true }
                  ∷ [])
                before)
            ≡ (id, awake_at) ∷ starts_of id s)
unfolding run
retry_starts failed_at id last_error s es w blocks_wake again awake_at r phase early late found
      unheld =
    let n = failures_of (get id s.refusals) in
    let same : wait_ms n ≡ wake_retry_delay_ms (n + 1) = sym (wake_retry_delay_ms_lem n).1 in
    let held = run_failed-IsHeld failed_at id last_error s es phase (
      subst (λ d. all (λ e. ltb e.at (failed_at + d) && not (is_clear_of id e)) es ≡ true) same
        early) in
    let (idle, refusals, starts) = finish_idle again id _ held.idle in
    (
      held.quiet,
      free_starts w blocks_wake again awake_at id r _ found idle
            (ap (λ l. is_refused_by (get id l) again) refusals
              ∙ free_later _ again _ held.refused (subst (λ d. failed_at + d ≤ again) same late))
            unheld
          ∙ ap (λ l. (id, awake_at) ∷ keep (λ p. str_eq p.0 id) l) starts
          ∙ ap (λ l. (id, awake_at) ∷ l) held.quiet,
    )
