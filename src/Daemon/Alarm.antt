-- ===== src/Daemon/Alarm.antt =====
-- packages/do/src/sleep.ts and mirror.ts: when a namespace of Durable Objects sleeps, and when its
-- next alarm wakes it. Reading the alarms and waking are parameters, each on the world as it is
-- at that moment; a read that throws gives none.
use hobbyist.Base.{
  ℕ, ◌+◌, ◌-◌, ◌*◌, ◌≡◌, ◌≤◌, refl, Bool, false, not, ◌||◌, String, List, [], ◌∷◌, ◌++◌, Option,
  none, some, ltb, leb, All, All-append, if◌then◌else◌, arith, Bool-cases, inl, inr,
}
use hobbyist.Core.Types.{ResourceState, is_running}
use hobbyist.Proxy.Activity.{Idle, is_less}

unfoldable pub is_alarm_imminent : Option ℕ → ℕ → ℕ → Bool
is_alarm_imminent none now_ms wake_grace_seconds = false
is_alarm_imminent (some next) now_ms wake_grace_seconds =
    if ltb next now_ms then false else leb (next - now_ms) (wake_grace_seconds * 1000)

unfoldable pub is_alarm_within : Option ℕ → ℕ → ℕ → Bool
is_alarm_within none now_ms grace_seconds = false
is_alarm_within (some next) now_ms grace_seconds = leb next (now_ms + grace_seconds * 1000)

unfoldable pub is_alarm_due : Option ℕ → ℕ → Bool
is_alarm_due none now_ms = false
is_alarm_due (some next) now_ms = leb next now_ms

pub record ShouldSleepNamespaceInput : Type 0 where
  pub state : ResourceState
  pub idle_seconds : Option Idle
  pub sleep_after_seconds : Option ℕ
  pub next_alarm_at_ms : Option ℕ
  pub now_ms : ℕ
  pub wake_grace_seconds : ℕ

unfoldable pub should_sleep_namespace : ShouldSleepNamespaceInput → Bool
should_sleep_namespace input = elim input.sleep_after_seconds [
  | none ↦ false
  | some threshold ↦ if not (is_running input.state) then false else elim input.idle_seconds [
    | none ↦ false
    | some i ↦
        if is_less i threshold
        then false
        else not (is_alarm_imminent input.next_alarm_at_ms input.now_ms input.wake_grace_seconds)
  ]
]

-- An alarm is within the grace time exactly when it is due or imminent, so the two readings of
-- the grace time disagree on an alarm that has passed, and on no other.
pub is_alarm_within_lem :
    (next : Option ℕ) (now grace : ℕ)
    → is_alarm_within next now grace ≡ (is_alarm_due next now || is_alarm_imminent next now grace)
unfolding is_alarm_within is_alarm_due is_alarm_imminent
is_alarm_within_lem none now grace = refl
is_alarm_within_lem (some next) now grace = ground arith

pub record MirroredNamespace : Type 0 where
  pub resource_id : String
  pub namespace_dir : String

-- A wake that the mirror made.
pub record Wake (World : Type 0) : Type 0 where
  pub namespace : MirroredNamespace
  pub at : World

module _ {World : Type 0} (next_alarm_at_ms : World → String → Option (Option ℕ))
    (wake : World → String → World) where
  unfoldable pub mirror_step :
      ℕ → World → MirroredNamespace → List (Wake World) → World × List (Wake World)
  mirror_step now_ms w n log = elim (next_alarm_at_ms w n.namespace_dir) [
    | none ↦ (w, log)
    | some deadline ↦
        if not (is_alarm_due deadline now_ms)
        then (w, log)
        else (wake w n.resource_id, log ++ record { namespace = n; at = w } ∷ [])
  ]

  unfoldable pub mirror_once :
      ℕ → World → List MirroredNamespace → List (Wake World) → World × List (Wake World)
  mirror_once now_ms w [] log = (w, log)
  mirror_once now_ms w (n ∷ ns) log =
      let (w1, log1) = mirror_step now_ms w n log in mirror_once now_ms w1 ns log1

  -- A wake of a namespace whose alarm, read when its turn came, was due.
  pub data IsDue (now_ms : ℕ) (w : Wake World) : Type 0 where
    due :
        (at_ms : ℕ)
        → next_alarm_at_ms w.at w.namespace.namespace_dir ≡ some (some at_ms)
        → at_ms ≤ now_ms
        → IsDue now_ms w

  step-IsDue :
      (now_ms : ℕ) (w : World) (n : MirroredNamespace) (log : List (Wake World))
      → All (IsDue now_ms) log
      → All (IsDue now_ms) (mirror_step now_ms w n log).1
  unfolding mirror_step is_alarm_due
  step-IsDue now_ms w n log h = go (next_alarm_at_ms w n.namespace_dir) refl
    where
      go :
          (o : Option (Option ℕ))
          → next_alarm_at_ms w n.namespace_dir ≡ o
          → All (IsDue now_ms) (mirror_step now_ms w n log).1
      go none e = rw (All, e) h
      go (some none) e = rw (All, e) h
      go (some (some at_ms)) e = elim (Bool-cases (leb at_ms now_ms)) [
        | inr early ↦ rw (All, e, early) h
        | inl late ↦
            rw (All, e, late)
              (All-append (IsDue now_ms) log _ h (due at_ms e (ground (arith, late)), tt))
      ]

  -- Each wake that a pass of the alarm mirror adds to a log of due wakes is of a namespace whose
  -- next alarm, read at its turn, had come at the time the pass began; a namespace whose alarms
  -- cannot be read is passed over.
  pub mirror_once-IsDue :
      (now_ms : ℕ) (w : World) (ns : List MirroredNamespace) (log : List (Wake World))
      → All (IsDue now_ms) log
      → All (IsDue now_ms) (mirror_once now_ms w ns log).1
  unfolding mirror_once
  mirror_once-IsDue now_ms w [] log h = h
  mirror_once-IsDue now_ms w (n ∷ ns) log h =
      let (w1, log1) = mirror_step now_ms w n log in
      mirror_once-IsDue now_ms w1 ns log1 (step-IsDue now_ms w n log h)
