-- ===== src/Proxy/Activity/Stale.antt =====
-- That a handle closed, or from before a reset, closes nothing, and since when a resource is idle.
use hobbyist.Base.{
  ℕ, ◌+◌, ◌≤◌, ◌≡◌, refl, true, false, not, String, str_eq, str_eq_iff, List, [], ◌∷◌, ◌++◌, Option,
  none, some, ◌==◌, if◌then◌else◌, keep, arith,
}
use hobbyist.Base.Maps.{get, get-put}
use hobbyist.Proxy.Activity.{ConnectionHandle, Tracker, has, live_of, close, count, idle_seconds}
use hobbyist.Proxy.Activity.Calls.{
  Call, IsTracker, call, call-IsTracker, either, has-concat, has-keep, live_of-close, live_of-open,
  live_of-reset, live_of-touch, next_id-close, next_id-open, next_id-reset, next_id-touch, run,
  opens, closes, touches, resets,
}

-- A handle that no set holds, under a number already handed out.
abbrev IsStale : Tracker → ConnectionHandle → Type 0
IsStale t h = (h.id ≤ t.next_id) × (has (live_of t h.resource_id) h.id ≡ false)

call-IsStale :
    (t : Tracker) (h : ConnectionHandle) (c : Call)
    → IsTracker t
    → IsStale t h
    → IsStale (call t c) h
unfolding call
call-IsStale t h (opens id) v (p, q) =
    (rw (next_id-open t id) (omega arith), rw (live_of-open t id h.resource_id v) (go id refl))
  where
    go :
        (k : String)
        → k ≡ id
        → has
            (if str_eq id h.resource_id
              then live_of t id ++ (t.next_id + 1) ∷ []
              else live_of t h.resource_id)
            h.id
          ≡ false
    go k e =
        ground (arith, str_eq_iff id h.resource_id, has-concat (live_of t id) (t.next_id + 1) h.id)
call-IsStale t h (closes g now) v (p, q) = (
  rw (next_id-close t g now) p,
  rw (live_of-close t g now h.resource_id) (
      either (λ s. has s h.id ≡ false) (str_eq g.resource_id h.resource_id)
        (has-keep (λ x. not (x == g.id)) (live_of t h.resource_id) h.id q) q),
)
call-IsStale t h (touches id now) v (p, q) =
    (rw (next_id-touch t id now) p, rw (live_of-touch t id h.resource_id now) q)
call-IsStale t h (resets id) v (p, q) = (
  rw (next_id-reset t id) p,
  rw (live_of-reset t id h.resource_id)
      (either (λ s. has s h.id ≡ false) (str_eq id h.resource_id) refl q),
)

run-IsStale :
    (t : Tracker) (h : ConnectionHandle) (cs : List Call)
    → IsTracker t
    → IsStale t h
    → IsStale (run t cs) h
unfolding run
run-IsStale t h [] v s = s
run-IsStale t h (c ∷ cs) v s =
    run-IsStale (call t c) h cs (call-IsTracker t c v) (call-IsStale t h c v s)

close_absent :
    (t : Tracker) (h : ConnectionHandle) (now : ℕ)
    → has (live_of t h.resource_id) h.id ≡ false
    → close t h now ≡ t
unfolding close
close_absent t h now e = go (get h.resource_id t.live) refl
  where
    go : (o : Option (List ℕ)) → get h.resource_id t.live ≡ o → close t h now ≡ t
    go none p = ground arith
    go (some s) p = ground arith

keep_held : (s : List ℕ) (n : ℕ) → has (keep (λ x. not (x == n)) s) n ≡ false
keep_held [] n = refl
keep_held (x ∷ s) n = ground (arith, keep_held s n)

str_eq_self : (s : String) → str_eq s s ≡ true
str_eq_self s = ground (arith, str_eq_iff s s)

-- The two calls after which a handle is dead: its own close, and the reset of its resource.
pub data Ends (h : ConnectionHandle) : Call → Type 0 where
  closed : (now : ℕ) → Ends h (closes h now)
  wiped : Ends h (resets h.resource_id)

call_ended-IsStale :
    (t : Tracker) (h : ConnectionHandle) (c : Call)
    → Ends h c
    → h.id ≤ t.next_id
    → IsStale (call t c) h
unfolding call
call_ended-IsStale t h (_) (closed now) p = (
  rw (next_id-close t h now) p,
  rw (live_of-close t h now h.resource_id, str_eq_self h.resource_id)
      (keep_held (live_of t h.resource_id) h.id),
)
call_ended-IsStale t h (_) wiped p = (
  rw (next_id-reset t h.resource_id) p,
  rw (live_of-reset t h.resource_id h.resource_id, str_eq_self h.resource_id) refl,
)

-- In a well-formed tracker, once a handle that it gave out was closed, or its resource was reset,
-- closing it again does nothing: whatever opens, closes, touches and resets came in between, the
-- tracker is left as it was, so neither a second close nor a socket that outlived a restart takes
-- a newer connection off the count.
pub close_again :
    (t : Tracker) (h : ConnectionHandle) (c : Call) (cs : List Call) (now : ℕ)
    → IsTracker t
    → h.id ≤ t.next_id
    → Ends h c
    → close (run (call t c) cs) h now ≡ run (call t c) cs
close_again t h c cs now v p e =
    let (_, gone) =
      run-IsStale (call t c) h cs (call-IsTracker t c v) (call_ended-IsStale t h c e p) in
    close_absent (run (call t c) cs) h now gone

-- When a held handle is closed, its resource has no idle time while another connection is open,
-- and otherwise its idle time counts from that close.
pub idle_seconds_lem :
    (t : Tracker) (h : ConnectionHandle) (now later : ℕ)
    → has (live_of t h.resource_id) h.id ≡ true
    → idle_seconds (close t h now) h.resource_id later ≡ (
        if count (close t h now) h.resource_id == 0
        then some (record { since = now; now = later })
        else none)
unfolding idle_seconds count close
idle_seconds_lem t h now later held = go (get h.resource_id t.live) refl
  where
    go :
        (o : Option (List ℕ))
        → get h.resource_id t.live ≡ o
        → idle_seconds (close t h now) h.resource_id later ≡ (
            if count (close t h now) h.resource_id == 0
            then some (record { since = now; now = later })
            else none)
    go none e = ground arith
    go (some s) e = ground (
      arith,
      str_eq_self h.resource_id,
      get-put h.resource_id h.resource_id (keep (λ x. not (x == h.id)) s) t.live,
      get-put h.resource_id h.resource_id now t.idle_since,
    )
