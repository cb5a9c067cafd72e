-- ===== src/Proxy/Activity.antt =====
-- packages/proxy/src/activity.ts: who is connected to what, and since when nobody is.
-- The clock is an argument of the calls that read it.
pub mod Calls
pub mod Stale
use hobbyist.Base.{
  ℕ, ◌+◌, ◌*◌, Bool, true, false, not, ◌&&◌, ◌||◌, String, List, [], ◌∷◌, ◌++◌, Option, none, some,
  ltb, ◌==◌, if◌then◌else◌, get_or_else, length, keep, any,
}
use hobbyist.Base.Maps.{get, put, remove, keys}

pub record ConnectionHandle : Type 0 where
  pub resource_id : String
  pub id : ℕ

-- The sets of `live` are lists of distinct numbers.
pub record Tracker : Type 0 where
  pub live : List (String × List ℕ)
  pub idle_since : List (String × ℕ)
  pub next_id : ℕ

abbrev pub empty : Tracker
empty = record { live = []; idle_since = []; next_id = 0 }

abbrev pub has : List ℕ → ℕ → Bool
has s n = any (λ x. x == n) s

-- `live.get(id) ?? new Set()`.
abbrev pub live_of : Tracker → String → List ℕ
live_of t id = get_or_else (get id t.live) []

unfoldable pub open_connection : Tracker → String → ConnectionHandle × Tracker
open_connection t resource_id =
    let id = t.next_id + 1 in
    let set = live_of t resource_id in
    (
      record { resource_id = resource_id; id = id },
      record {
        live = put resource_id (if has set id then set else set ++ id ∷ []) t.live;
        idle_since = remove resource_id t.idle_since;
        next_id = id;
      },
    )

unfoldable pub close : Tracker → ConnectionHandle → ℕ → Tracker
close t h now = elim (get h.resource_id t.live) [
  | none ↦ t
  | some set ↦
      if not (has set h.id)
      then t
      else (let rest = keep (λ x. not (x == h.id)) set in
          record t {
            live = put h.resource_id rest t.live;
            idle_since =
                if length rest == 0 then put h.resource_id now t.idle_since else t.idle_since;
          })
]

unfoldable pub touch : Tracker → String → ℕ → Tracker
touch t resource_id now = record t {
  live = put resource_id (live_of t resource_id) t.live;
  idle_since = put resource_id now t.idle_since;
}

unfoldable pub reset : Tracker → String → Tracker
reset t resource_id = record t {
  live = remove resource_id t.live;
  idle_since = remove resource_id t.idle_since;
}

unfoldable pub count : Tracker → String → ℕ
count t resource_id = length (live_of t resource_id)

-- `(now - since) / 1000`, kept as its two ends.
pub record Idle : Type 0 where
  pub since : ℕ
  pub now : ℕ

-- `idleSeconds < seconds`.
abbrev pub is_less : Idle → ℕ → Bool
is_less i seconds = ltb i.now (i.since + seconds * 1000)

unfoldable pub idle_seconds : Tracker → String → ℕ → Option Idle
idle_seconds t resource_id now =
    if ltb 0 (count t resource_id) then none else elim (get resource_id t.idle_since) [
      | none ↦ none
      | some since ↦ some (record { since = since; now = now })
    ]

unfoldable pub resources : Tracker → List String
resources t = keys t.live
