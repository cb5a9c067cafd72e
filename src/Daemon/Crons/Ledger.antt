-- ===== src/Daemon/Crons/Ledger.antt =====
-- What a pass over the schedules keeps in its books, step by step.
use hobbyist.Base.{ℕ, ◌+◌, ◌≡◌, refl, subst, Text, List, arith}
use hobbyist.Core.Types.{
  ResourceState, creating, running, starting, sleeping, stopping, failed, destroying, undeployed,
}
use hobbyist.Core.Cron.{
  CronSchedule, fires, never_fires, stuck, NextTime, next_cron_time, five_years_ms,
}
use hobbyist.Core.Cron.First.{IsFirst, next_cron_time-IsFirst}
use hobbyist.Core.Cron.Parse.{ok, invalid, Parsed, parse_cron}
use hobbyist.Daemon.Crons.{
  CronFiring, CronOutcome, cron_key, due, due_after, due_from, due_of, after_fire, after_wake,
  Answer, gave, failed_with, Calls, Ticking, fire_step, wake_step, deliver_step,
}

abbrev pub key_of : CronFiring → Text
key_of f = cron_key f.worker.resource_id f.cron

-- The time is the first one that the schedule matches after `since`.
pub record IsDue (cron : Text) (since time : ℕ) : Type 0 where
  pub schedule : CronSchedule
  pub parsed : parse_cron cron ≡ ok schedule
  pub first : IsFirst schedule (since + 1) (since + five_years_ms) (fires time)

next_time-IsDue :
    (cron : Text) (since time : ℕ) (s : CronSchedule) (r : NextTime)
    → parse_cron cron ≡ ok s
    → IsFirst s (since + 1) (since + five_years_ms) r
    → due_of r ≡ due time
    → IsDue cron since time
next_time-IsDue cron since time s (fires t) p first e = record {
  schedule = s;
  parsed = p;
  first =
      subst (λ u. IsFirst s (since + 1) (since + five_years_ms) (fires u)) (ground (arith, e))
        first;
}
next_time-IsDue cron since time s never_fires p first e = absurd (ground (arith, e))
next_time-IsDue cron since time s stuck p first e = absurd (ground (arith, e))

due_from-IsDue :
    (cron : Text) (since time : ℕ) (p : Parsed CronSchedule)
    → parse_cron cron ≡ p
    → due_from p since ≡ due time
    → IsDue cron since time
unfolding due_from
due_from-IsDue cron since time (invalid error) p e = absurd (ground (arith, e))
due_from-IsDue cron since time (ok s) p e =
    next_time-IsDue cron since time s (next_cron_time s since) p (next_cron_time-IsFirst s since) e

pub due_after-IsDue :
    (cron : Text) (since time : ℕ) → due_after cron since ≡ due time → IsDue cron since time
unfolding due_after
due_after-IsDue cron since time e = due_from-IsDue cron since time (parse_cron cron) refl e

-- The books: the firings, and the times of the last ones.
pub record Ledger : Type 0 where
  pub fired : List CronFiring
  pub started : ℕ
  pub last : List (Text × ℕ)

abbrev pub ledger : {Env : Type 0} → Ticking Env → Ledger
ledger t = record {
  fired = t.fired;
  started = t.state.started_at_ms;
  last = t.state.last_fired_at_ms;
}

module _ {Env : Type 0} (calls : Calls Env) where
  ledger-after_fire :
      (key : Text) (a : Answer Env CronOutcome) (t : Ticking Env)
      → ledger (after_fire calls key a t) ≡ ledger t
  unfolding after_fire
  ledger-after_fire key (gave o env) t = refl
  ledger-after_fire key (failed_with err env) t = refl

  ledger-fire_step :
      (key : Text) (f : CronFiring) (t : Ticking Env) → ledger (fire_step calls key f t) ≡ ledger t
  unfolding fire_step
  ledger-fire_step key f t = ledger-after_fire key (calls.fire f t.env) t

  ledger-after_wake :
      (key : Text) (f : CronFiring) (a : Answer Env (Unit {0})) (t : Ticking Env)
      → ledger (after_wake calls key f a t) ≡ ledger t
  unfolding after_wake
  ledger-after_wake key f (gave done env) t = ledger-fire_step key f (record t { env = env })
  ledger-after_wake key f (failed_with err env) t = refl

  ledger-wake_step :
      (key : Text) (f : CronFiring) (t : Ticking Env) → ledger (wake_step calls key f t) ≡ ledger t
  unfolding wake_step
  ledger-wake_step key f t = ledger-after_wake key f (calls.wake f.worker.resource_id t.env) t

  -- Whatever the calls answer, they change nothing in the books.
  pub ledger-deliver_step :
      (s : ResourceState) (key : Text) (f : CronFiring) (t : Ticking Env)
      → ledger (deliver_step calls s key f t) ≡ ledger t
  unfolding deliver_step
  ledger-deliver_step sleeping key f t = ledger-wake_step key f t
  ledger-deliver_step running key f t = ledger-fire_step key f t
  ledger-deliver_step creating key f t = refl
  ledger-deliver_step starting key f t = refl
  ledger-deliver_step stopping key f t = refl
  ledger-deliver_step failed key f t = refl
  ledger-deliver_step destroying key f t = refl
  ledger-deliver_step undeployed key f t = refl
