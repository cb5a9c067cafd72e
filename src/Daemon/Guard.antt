-- ===== src/Daemon/Guard.antt =====
-- packages/queue/src/guard.ts: whether a worker may be put to sleep, by the queues it consumes.
-- The file of a queue's database is not under the model's control: what opening and reading it
-- gives is a parameter.
use hobbyist.Base.{
  ℕ, ◌≡◌, ◌≢◌, ◌↔◌, inl, inr, refl, Bool, true, false, String, str_eq, List, [], ◌∷◌, none, some,
  keep, All, length, ◌==◌, if◌then◌else◌, arith, Option-cases,
}
use hobbyist.Core.Types.{
  Resource, Project, postgres_config, app_config, worker_config, queue_config,
}
use hobbyist.Queue.Table.{Table}
use hobbyist.Queue.Lease.{has_outstanding_lease}
use hobbyist.Daemon.World.{World, get_project}
use hobbyist.Daemon.Hibernator.{ActivityGuardResult, active, idle, unreachable}

-- What stands at a queue's path: no file, a file that cannot be opened, one whose read throws, or
-- a table.
pub data QueueFile : Type 0 where
  missing unopenable unreadable : QueueFile
  opened : Table → QueueFile

abbrev pub consumes : String → Resource → Bool
consumes resource_id r = elim r.config [
  | queue_config c ↦ elim c.consumer_resource_id [
    | none ↦ false
    | some consumer ↦ str_eq consumer resource_id
  ]
  | postgres_config port ↦ false
  | app_config c ↦ false
  | worker_config c ↦ false
]

module _ (file : String → String → QueueFile) where
  -- What the loop's body finds out of one queue: `unreachable` where it returns, `active` where it
  -- sets the flag.
  unfoldable pub ask : World → ℕ → Resource → ActivityGuardResult
  ask w now_ms queue = elim (get_project w.projects queue.project_id) [
    | none ↦ unreachable
    | some project ↦ elim (file project.name queue.name) [
      | missing ↦ idle
      | unopenable ↦ unreachable
      | unreadable ↦ unreachable
      | opened db ↦ if has_outstanding_lease db now_ms then active else idle
    ]
  ]

  -- The loop over the consumed queues, with `active` as the queues before have left it.
  unfoldable pub guard_loop : World → ℕ → List Resource → Bool → ActivityGuardResult
  guard_loop w now_ms [] is_active = if is_active then active else idle
  guard_loop w now_ms (queue ∷ rest) is_active = elim (ask w now_ms queue) [
    | unreachable ↦ unreachable
    | active ↦ guard_loop w now_ms rest true
    | idle ↦ guard_loop w now_ms rest is_active
  ]

  unfoldable pub queue_delivery_guard : World → String → ℕ → ActivityGuardResult
  queue_delivery_guard w resource_id now_ms =
      let consumed = keep (consumes resource_id) w.resources in
      if length consumed == 0 then idle else guard_loop w now_ms consumed false

  -- A queue that could answer, with nothing under an unexpired lease.
  pub data IsQuiet (w : World) (now_ms : ℕ) (queue : Resource) : Type 0 where
    no_file :
        (p : Project)
        → get_project w.projects queue.project_id ≡ some p
        → file p.name queue.name ≡ missing
        → IsQuiet w now_ms queue
    no_lease :
        (p : Project) (db : Table)
        → get_project w.projects queue.project_id ≡ some p
        → file p.name queue.name ≡ opened db
        → has_outstanding_lease db now_ms ≡ false
        → IsQuiet w now_ms queue

  ask-IsQuiet : (w : World) (now_ms : ℕ) (q : Resource) → ask w now_ms q ≡ idle → IsQuiet w now_ms q
  unfolding ask
  ask-IsQuiet w now_ms q e = elim (Option-cases (get_project w.projects q.project_id)) [
    | inl p ↦ ground (arith, p, e)
    | inr (p, found) ↦ go p found (file p.name q.name) refl
  ]
    where
      go :
          (p : Project)
          → get_project w.projects q.project_id ≡ some p
          → (f : QueueFile) → file p.name q.name ≡ f
          → IsQuiet w now_ms q
      go p found missing h = no_file p found h
      go p found unopenable h = ground (arith, found, h, e)
      go p found unreadable h = ground (arith, found, h, e)
      go p found (opened db) h = no_lease p db found h (ground (arith, found, h, e))

  IsQuiet-ask : (w : World) (now_ms : ℕ) (q : Resource) → IsQuiet w now_ms q → ask w now_ms q ≡ idle
  unfolding ask
  IsQuiet-ask w now_ms q (no_file p found f) = ground (arith, found, f)
  IsQuiet-ask w now_ms q (no_lease p db found f free) = ground (arith, found, f, free)

  guard_loop_active :
      (w : World) (now_ms : ℕ) (qs : List Resource) → guard_loop w now_ms qs true ≢ idle
  unfolding guard_loop
  guard_loop_active w now_ms [] = ground arith
  guard_loop_active w now_ms (q ∷ rest) = go (ask w now_ms q) refl (guard_loop_active w now_ms rest)
    where
      go :
          (a : ActivityGuardResult)
          → ask w now_ms q ≡ a
          → guard_loop w now_ms rest true ≢ idle
          → guard_loop w now_ms (q ∷ rest) true ≢ idle
      go active h ih = ground (arith, h, ih)
      go idle h ih = ground (arith, h, ih)
      go unreachable h ih = ground (arith, h)

  guard_loop-IsQuiet :
      (w : World) (now_ms : ℕ) (qs : List Resource)
      → guard_loop w now_ms qs false ≡ idle
      → All (IsQuiet w now_ms) qs
  unfolding guard_loop
  guard_loop-IsQuiet w now_ms [] e = tt
  guard_loop-IsQuiet w now_ms (q ∷ rest) e =
      go (ask w now_ms q) refl (guard_loop-IsQuiet w now_ms rest)
    where
      go :
          (a : ActivityGuardResult)
          → ask w now_ms q ≡ a
          → (guard_loop w now_ms rest false ≡ idle → All (IsQuiet w now_ms) rest)
          → IsQuiet w now_ms q × All (IsQuiet w now_ms) rest
      go active h ih = ground (arith, h, e, guard_loop_active w now_ms rest)
      go idle h ih = (ask-IsQuiet w now_ms q h, ih (ground (arith, h, e)))
      go unreachable h ih = ground (arith, h, e)

  IsQuiet-guard_loop :
      (w : World) (now_ms : ℕ) (qs : List Resource)
      → All (IsQuiet w now_ms) qs
      → guard_loop w now_ms qs false ≡ idle
  unfolding guard_loop
  IsQuiet-guard_loop w now_ms [] h = refl
  IsQuiet-guard_loop w now_ms (q ∷ rest) (p, h) =
      ground (arith, IsQuiet-ask w now_ms q p, IsQuiet-guard_loop w now_ms rest h)

  -- The guard answers idle exactly when every queue that the worker consumes could be asked, and
  -- none has a message under an unexpired lease; a queue that could not be asked is never read as
  -- permission to stop.
  pub queue_delivery_guard_iff :
      (w : World) (resource_id : String) (now_ms : ℕ)
      → (queue_delivery_guard w resource_id now_ms ≡ idle)
        ↔ All (IsQuiet w now_ms) (keep (consumes resource_id) w.resources)
  unfolding queue_delivery_guard
  queue_delivery_guard_iff w resource_id now_ms = go (keep (consumes resource_id) w.resources)
    where
      go :
          (qs : List Resource)
          → ((if length qs == 0 then idle else guard_loop w now_ms qs false) ≡ idle)
            ↔ All (IsQuiet w now_ms) qs
      go [] = (λ e. tt, λ h. refl)
      go (q ∷ rest) = (
        λ e. guard_loop-IsQuiet w now_ms (q ∷ rest) (ground (arith, e)),
        λ h. ground (arith, IsQuiet-guard_loop w now_ms (q ∷ rest) h),
      )
