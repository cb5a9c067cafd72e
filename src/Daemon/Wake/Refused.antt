-- ===== src/Daemon/Wake/Refused.antt =====
-- A resource whose start has failed is left alone until its retry time.
use hobbyist.Base.{
  ℕ, ◌+◌, ◌≡◌, refl, sym, subst, true, not, ◌&&◌, ltb, String, str_eq_iff, Text, List, all, some,
  arith,
}
use hobbyist.Base.Maps.{get, get-put}
use hobbyist.Daemon.Backoff.{wake_retry_delay_ms}
use hobbyist.Daemon.Wake.{
  at_start, settled, Waking, failures_of, refusal_after, after_start, start_settled, Event, resume,
  apply, run,
}
use hobbyist.Daemon.Wake.Held.{lasts_until, starts_of, is_clear_of, IsHeld, run-IsHeld}

pub failed-IsHeld :
    (now : ℕ) (id : String) (last_error : Text) (s : Waking)
    → IsHeld id
        (now + wake_retry_delay_ms (failures_of (get id s.refusals) + 1))
        (starts_of id s)
        (after_start now id (some last_error) s)
unfolding after_start
failed-IsHeld now id last_error s = record {
  refused = ground (
    arith,
    get-put id id (refusal_after now last_error (get id s.refusals)) s.refusals,
    str_eq_iff id id,
  );
  idle = ground (arith, get-put id id settled s.in_flight, str_eq_iff id id);
  quiet = refl;
}

-- Until the retry time the resource stays refused and idle.
pub run_failed-IsHeld :
    (now : ℕ) (id : String) (last_error : Text) (s : Waking) (es : List Event)
    → get id s.in_flight ≡ some at_start
    → let retry = now + wake_retry_delay_ms (failures_of (get id s.refusals) + 1) in
      all (λ e. ltb e.at retry && not (is_clear_of id e)) es ≡ true
      → let retry = now + wake_retry_delay_ms (failures_of (get id s.refusals) + 1) in
        IsHeld id retry
          (starts_of id s)
          (run es (apply (record { at = now; id = id; piece = start_settled (some last_error) }) s))
unfolding apply resume
run_failed-IsHeld now id last_error s es phase h =
    run-IsHeld id retry (starts_of id s) es failed h first
  where
    retry : ℕ
    retry = now + wake_retry_delay_ms (failures_of (get id s.refusals) + 1)

    failed : Waking
    failed = apply (record { at = now; id = id; piece = start_settled (some last_error) }) s

    first : IsHeld id retry (starts_of id s) failed
    first =
        subst
          (λ p.
            IsHeld id retry (starts_of id s) (resume now id (start_settled (some last_error)) p s))
          (sym phase) (failed-IsHeld now id last_error s)

-- After a start has failed at a time, nothing that happens before the retry time calls the kind's
-- start of that resource again, whatever wakes are asked for and however the pieces interleave, unless
-- the refusal is cleared by hand; and at the end the resource is still refused up to the retry time,
-- which is the failure's time and the delay for the number of failures in a row.
pub run_refused :
    (now : ℕ) (id : String) (last_error : Text) (s : Waking) (es : List Event)
    → get id s.in_flight ≡ some at_start
    → let retry = now + wake_retry_delay_ms (failures_of (get id s.refusals) + 1) in
      all (λ e. ltb e.at retry && not (is_clear_of id e)) es ≡ true
      → let retry = now + wake_retry_delay_ms (failures_of (get id s.refusals) + 1) in
        let end =
          run es
            (apply (record { at = now; id = id; piece = start_settled (some last_error) }) s) in
        (starts_of id end ≡ starts_of id s) × (lasts_until retry (get id end.refusals) ≡ true)
run_refused now id last_error s es phase h =
    let held = run_failed-IsHeld now id last_error s es phase h in (held.quiet, held.refused)
