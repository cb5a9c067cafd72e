-- ===== src/Core/StopSignal.antt =====
-- packages/core/src/stop-signal.ts: "sleep until the next tick, unless stop() arrives first".
-- A wait is named by a number, which also stands for its `wake`. Between its calls the signal moves
-- by two kinds of event: a sleep wins the race of its wait, and a wait whose race is decided goes on
-- behind its `await`, where the `finally` block runs and the caller has the answer.
pub mod Clean
use hobbyist.Base.{
  ℕ, suc, Bool, true, false, ◌==◌, List, [], ◌∷◌, ◌++◌, length, Option, none, some, if◌then◌else◌,
}

-- A wait: its race is open, or decided, or the caller has the answer.
pub data Wait : Type 0 where
  racing : Wait
  decided : Bool → Wait
  returned : Bool → Wait

-- The set of the waiters in insertion order, and every wait that was begun.
pub record StopSignal : Type 0 where
  pub stopped : Bool
  pub waiters : List ℕ
  pub waits : ℕ → Option Wait
  pub next : ℕ

abbrev pub create_stop_signal : StopSignal
create_stop_signal = record { stopped = false; waiters = []; waits = λ n. none; next = 0 }

abbrev pub pending : StopSignal → ℕ
pending s = length s.waiters

abbrev pub set_wait : ℕ → Wait → (ℕ → Option Wait) → ℕ → Option Wait
set_wait n x waits m = if m == n then some x else waits m

-- `waiters.delete`.
unfoldable pub delete : ℕ → List ℕ → List ℕ
delete n [] = []
delete n (m ∷ ms) = if m == n then delete n ms else m ∷ delete n ms

-- `wait`, up to its await. The wait's number is the signal's `next`.
unfoldable pub wait : StopSignal → StopSignal
wait s =
    if s.stopped
    then record s { waits = set_wait s.next (returned false) s.waits; next = suc s.next }
    else record s {
      waiters = s.waiters ++ s.next ∷ [];
      waits = set_wait s.next racing s.waits;
      next = suc s.next;
    }

-- The first answer decides a race.
unfoldable pub decide : ℕ → Bool → (ℕ → Option Wait) → ℕ → Option Wait
decide n answer waits = elim (waits n) [
  | some racing ↦ set_wait n (decided answer) waits
  | _ ↦ waits
]

-- The sleep of a wait settles first.
unfoldable pub sleep_over : ℕ → StopSignal → StopSignal
sleep_over n s = record s { waits = decide n true s.waits }

unfoldable pub wake_all : List ℕ → (ℕ → Option Wait) → ℕ → Option Wait
wake_all [] waits = waits
wake_all (n ∷ ns) waits = wake_all ns (decide n false waits)

unfoldable pub stop : StopSignal → StopSignal
stop s =
    if s.stopped
    then s
    else record s { stopped = true; waiters = []; waits = wake_all s.waiters s.waits }

-- The wait behind its await: the `finally` block, and the answer to the caller.
unfoldable pub finish_wait : ℕ → StopSignal → StopSignal
finish_wait n s = elim (s.waits n) [
  | some (decided answer) ↦ record s {
    waiters = delete n s.waiters;
    waits = set_wait n (returned answer) s.waits;
  }
  | _ ↦ s
]

-- What happens to a signal, and a history of it.
pub data Event : Type 0 where
  waited : Event
  slept : ℕ → Event
  resumed : ℕ → Event
  was_stopped : Event

unfoldable pub step : Event → StopSignal → StopSignal
step waited s = wait s
step (slept n) s = sleep_over n s
step (resumed n) s = finish_wait n s
step was_stopped s = stop s

unfoldable pub run : List Event → StopSignal → StopSignal
run [] s = s
run (e ∷ es) s = run es (step e s)
