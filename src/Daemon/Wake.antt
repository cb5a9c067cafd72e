-- ===== src/Daemon/Wake.antt =====
-- buildWake, wakeBoundDatabase, isWakeRefused and clearWakeRefusal of
-- packages/cli/src/daemon/context.ts. The closure of buildWake runs in pieces between its awaits: each
-- piece is a function on the two maps, at a time and with the store as it then is, and a run is a list
-- of such events in any order. The promise of a wake is the phase that its id has in the in-flight map.
pub mod Held
pub mod Refused
pub mod Retried
use hobbyist.Base.{
  ℕ, ◌+◌, ◌<◌, Bool, true, false, not, ◌||◌, ◌&&◌, ◌==◌, ltb, String, str_eq, Text, List, [], ◌∷◌,
  ◌++◌, Option, none, some, is_some, if◌then◌else◌,
}
use hobbyist.Base.Maps.{get, put, remove}
use hobbyist.Core.Types.{Resource, is_running}
use hobbyist.Daemon.World.{World, get_resource, bound_database}
use hobbyist.Daemon.Backoff.{wake_retry_delay_ms}

pub record WakeRefusal : Type 0 where
  pub failures : ℕ
  pub retry_at : ℕ
  pub last_error : Text

-- Where a wake awaits: the fence of its project, the wake of its database, the kind's start; or it
-- has settled, and its entry is about to be removed.
pub data Phase : Type 0 where
  at_fence at_database at_start settled : Phase

-- The maps of the closure, and the kinds' starts that were called, by id and time.
pub record Waking : Type 0 where
  pub refusals : List (String × WakeRefusal)
  pub in_flight : List (String × Phase)
  pub starts : List (String × ℕ)

abbrev pub is_refused_by : Option WakeRefusal → ℕ → Bool
is_refused_by none now = false
is_refused_by (some refusal) now = ltb now refusal.retry_at

abbrev pub is_wake_refused : Waking → String → ℕ → Bool
is_wake_refused s id now = is_refused_by (get id s.refusals) now

abbrev pub clear_wake_refusal : String → Waking → Waking
clear_wake_refusal id s = record s { refusals = remove id s.refusals }

abbrev pub enter : String → Phase → Waking → Waking
enter id phase s = record s { in_flight = put id phase s.in_flight }

-- The checks of a call, on the row as it was read: `go_on` is what follows where nothing refuses the
-- wake or holds it.
unfoldable pub check_row :
    (String → Bool) → ℕ → String → (Resource → Waking → Waking) → Option Resource → Waking → Waking
check_row blocks_wake now id go_on none s = enter id settled s
check_row blocks_wake now id go_on (some r) s =
    if is_wake_refused s id now
    then enter id settled s
    else if blocks_wake r.project_id
    then enter id at_fence s
    else go_on r s

-- A call of the closure: one that is under way is joined.
unfoldable pub begin :
    World → (String → Bool) → ℕ → String → (Resource → Waking → Waking) → Waking → Waking
begin w blocks_wake now id go_on s =
    if is_some (get id s.in_flight)
    then s
    else check_row blocks_wake now id go_on (get_resource w.resources id) s

-- A database has no database of its own.
unfoldable pub wake_database : World → (String → Bool) → ℕ → String → Waking → Waking
wake_database w blocks_wake now id s = begin w blocks_wake now id (λ r s. enter id at_database s) s

unfoldable pub wake_if_asleep : World → (String → Bool) → ℕ → Option Resource → Waking → Waking
wake_if_asleep w blocks_wake now none s = s
wake_if_asleep w blocks_wake now (some database) s =
    if is_running database.state then s else wake_database w blocks_wake now database.id s

-- The call of wakeBoundDatabase, with the wake that it asks for.
unfoldable pub wake_bound_database : World → (String → Bool) → ℕ → Resource → Waking → Waking
wake_bound_database w blocks_wake now r s = wake_if_asleep w blocks_wake now (bound_database w r) s

abbrev pub to_database : World → (String → Bool) → ℕ → String → Resource → Waking → Waking
to_database w blocks_wake now id r s =
    enter id at_database (wake_bound_database w blocks_wake now r s)

unfoldable pub wake : World → (String → Bool) → ℕ → String → Waking → Waking
wake w blocks_wake now id s = begin w blocks_wake now id (to_database w blocks_wake now id) s

unfoldable pub behind_fence :
    World → (String → Bool) → ℕ → String → Option Resource → Waking → Waking
behind_fence w blocks_wake now id none s = enter id settled s
behind_fence w blocks_wake now id (some r) s =
    if is_running r.state
    then enter id settled (clear_wake_refusal id s)
    else to_database w blocks_wake now id r s

-- When the fence opens, the row is read again.
unfoldable pub after_fence : World → (String → Bool) → ℕ → String → Waking → Waking
after_fence w blocks_wake now id s =
    behind_fence w blocks_wake now id (get_resource w.resources id) s

-- The database's wake has succeeded or not.
unfoldable pub after_database : ℕ → String → Bool → Waking → Waking
after_database now id true s = enter id at_start (record s { starts = (id, now) ∷ s.starts })
after_database now id false s = enter id settled s

abbrev pub failures_of : Option WakeRefusal → ℕ
failures_of none = 0
failures_of (some refusal) = refusal.failures

-- Counted from the entry as it stands when the start fails.
abbrev pub refusal_after : ℕ → Text → Option WakeRefusal → WakeRefusal
refusal_after now last_error earlier = record {
  failures = failures_of earlier + 1;
  retry_at = now + wake_retry_delay_ms (failures_of earlier + 1);
  last_error = last_error;
}

-- The kind's start has succeeded, or failed with an error as it is redacted.
unfoldable pub after_start : ℕ → String → Option Text → Waking → Waking
after_start now id none s = enter id settled (clear_wake_refusal id s)
after_start now id (some last_error) s =
    let refusal = refusal_after now last_error (get id s.refusals) in
    enter id settled (record s { refusals = put id refusal s.refusals })

-- What can happen next; the id is that of the wake.
pub data Piece : Type 0 where
  called : World → (String → Bool) → Piece
  fence_opened : World → (String → Bool) → Piece
  database_settled : Bool → Piece
  start_settled : Option Text → Piece
  finished cleared : Piece

pub record Event : Type 0 where
  pub at : ℕ
  pub id : String
  pub piece : Piece

-- A piece runs only when the wake awaits it.
unfoldable pub resume : ℕ → String → Piece → Option Phase → Waking → Waking
resume now id (called w blocks_wake) phase s = wake w blocks_wake now id s
resume now id (fence_opened w blocks_wake) (some at_fence) s = after_fence w blocks_wake now id s
resume now id (database_settled succeeded) (some at_database) s = after_database now id succeeded s
resume now id (start_settled error) (some at_start) s = after_start now id error s
resume now id finished (some settled) s = record s { in_flight = remove id s.in_flight }
resume now id cleared phase s = clear_wake_refusal id s
resume now id piece phase s = s

unfoldable pub apply : Event → Waking → Waking
apply e s = resume e.at e.id e.piece (get e.id s.in_flight) s

unfoldable pub run : List Event → Waking → Waking
run [] s = s
run (e ∷ es) s = run es (apply e s)
