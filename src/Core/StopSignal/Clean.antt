-- ===== src/Core/StopSignal/Clean.antt =====
-- packages/core/src/stop-signal.ts: a wait that is over leaves nothing behind.
use hobbyist.Base.{
  ℕ, length, ◌≡◌, ◌≤◌, refl, Bool, true, false, not, ◌&&◌, ◌==◌, List, [], ◌∷◌, ◌++◌, Option, none,
  some, if◌then◌else◌, arith,
}
use hobbyist.Core.StopSignal.{
  Wait, racing, decided, returned, StopSignal, create_stop_signal, pending, delete, wait, decide,
  sleep_over, wake_all, stop, finish_wait, Event, waited, slept, resumed, was_stopped, step, run,
}

abbrev pub is_listed : ℕ → List ℕ → Bool
is_listed n [] = false
is_listed n (m ∷ ms) = if m == n then true else is_listed n ms

is_listed-append :
    (n m : ℕ) (ms : List ℕ) → is_listed n (ms ++ m ∷ []) ≡ (if m == n then true else is_listed n ms)
is_listed-append n m [] = ground arith
is_listed-append n m (k ∷ ms) = ground (arith, is_listed-append n m ms)

is_listed-delete :
    (n m : ℕ) (ms : List ℕ) → is_listed n (delete m ms) ≡ (if m == n then false else is_listed n ms)
unfolding delete
is_listed-delete n m [] = ground arith
is_listed-delete n m (k ∷ ms) = ground (arith, is_listed-delete n m ms)

-- Begun, and its caller has no answer.
abbrev pub is_out : Option Wait → Bool
is_out (some racing) = true
is_out (some (decided b)) = true
is_out _ = false

abbrev pub is_racing : Option Wait → Bool
is_racing (some racing) = true
is_racing _ = false

-- Interrupted: the answer is false.
abbrev pub is_refused : Option Wait → Bool
is_refused (some (decided b)) = not b
is_refused (some (returned b)) = not b
is_refused _ = false

decide_lem :
    (n m : ℕ) (b : Bool) (waits : ℕ → Option Wait)
    → decide m b waits n ≡ (if (m == n) && is_racing (waits n) then some (decided b) else waits n)
unfolding decide
decide_lem n m b waits = go (waits m) refl
  where
    go :
        (w : Option Wait)
        → waits m ≡ w
        → decide m b waits n
          ≡ (if (m == n) && is_racing (waits n) then some (decided b) else waits n)
    go none e = ground arith
    go (some racing) e = ground arith
    go (some (decided a)) e = ground arith
    go (some (returned a)) e = ground arith

wake_all_lem :
    (n : ℕ) (ns : List ℕ) (waits : ℕ → Option Wait)
    → wake_all ns waits n
      ≡ (if is_listed n ns && is_racing (waits n) then some (decided false) else waits n)
unfolding wake_all decide
wake_all_lem n [] waits = refl
wake_all_lem n (m ∷ ns) waits =
    ground (arith, wake_all_lem n ns (decide m false waits), decide_lem n m false waits)

-- What is true of the wait of number `n`.
abbrev pub IsCleanAt : StopSignal → ℕ → Type 0
IsCleanAt s n =
    (is_listed n s.waiters ≡ (is_out (s.waits n) && not s.stopped))
    × (is_racing (s.waits n) ≡ true → s.stopped ≡ false)
    × (is_refused (s.waits n) ≡ true → s.stopped ≡ true)
    × (s.next ≤ n → s.waits n ≡ none)

step-IsCleanAt :
    (e : Event) (s : StopSignal) → ((n : ℕ) → IsCleanAt s n) → (n : ℕ) → IsCleanAt (step e s) n
unfolding step wait sleep_over stop finish_wait decide
step-IsCleanAt waited s h n = ground (arith, h n, is_listed-append n s.next s.waiters)
step-IsCleanAt (slept m) s h n = ground (arith, h n, decide_lem n m true s.waits)
step-IsCleanAt (resumed m) s h n = go (s.waits m) refl
  where
    go : (w : Option Wait) → s.waits m ≡ w → IsCleanAt (finish_wait m s) n
    go none e = ground (arith, h n)
    go (some racing) e = ground (arith, h n)
    go (some (decided a)) e = ground (arith, h n, h m, is_listed-delete n m s.waiters)
    go (some (returned a)) e = ground (arith, h n)
step-IsCleanAt was_stopped s h n = ground (arith, h n, wake_all_lem n s.waiters s.waits)

run-keeps :
    (es : List Event) (s : StopSignal)
    → ((n : ℕ) → IsCleanAt s n)
    → (n : ℕ) → IsCleanAt (run es s) n
unfolding run
run-keeps [] s h = h
run-keeps (e ∷ es) s h = run-keeps es (step e s) (step-IsCleanAt e s h)

-- After any history of calls and settlements, a wait is among the waiters exactly while it has
-- begun, its caller has no answer and stop() has not come; no race is open once stop() has come;
-- and a wait is told that it was interrupted only after stop() has come.
pub run-IsCleanAt : (es : List Event) (n : ℕ) → IsCleanAt (run es create_stop_signal) n
run-IsCleanAt es n = run-keeps es create_stop_signal (λ m. ground arith) n

none_listed : (ns : List ℕ) → ((n : ℕ) → is_listed n ns ≡ false) → length ns ≡ 0
none_listed [] h = refl
none_listed (n ∷ ns) h = ground (arith, h n)

-- After any history in which every wait that was begun has been answered, none is pending.
pub run-pending :
    (es : List Event)
    → ((n : ℕ) → is_out ((run es create_stop_signal).waits n) ≡ false)
    → pending (run es create_stop_signal) ≡ 0
run-pending es h =
    none_listed (run es create_stop_signal).waiters (λ n. ground (arith, h n, run-IsCleanAt es n))
