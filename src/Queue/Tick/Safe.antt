-- ===== src/Queue/Tick/Safe.antt =====
-- A tick keeps every queue file of the box well formed.
use hobbyist.Base.{
  ℕ, ◌≡◌, refl, Bool, true, false, String, str_eq, List, [], ◌∷◌, Option, none, some, if◌then◌else◌,
  any, arith, Bool-cases, inl, inr, ◌⊎◌,
}
use hobbyist.Core.Types.{ResourceState, running, sleeping}
use hobbyist.Queue.Message.{Row, LeasedMessage, LeasedBatch, DeliveryResult, lease_ms}
use hobbyist.Queue.Table.{Table}
use hobbyist.Queue.Lease.{is_batch_ready, lease_batch}
use hobbyist.Queue.Settle.{Reply, done, threw, notify, Applied, Counts}
use hobbyist.Queue.Settle.OnePass.{Fate, notify_all}
use hobbyist.Queue.Settle.Committed.{
  Commits, NeverThrows, apply_result-Commits, expire_leases-Commits, apply_result_total,
  expire_leases_total,
}
use hobbyist.Queue.Retain.{insert_dead_letter}
use hobbyist.Queue.WellFormed.{IsWellFormed, sweep_retention-IsWellFormed}
use hobbyist.Queue.WellFormed.Reachable.{
  insert_dead_letter-IsWellFormed, Commits-IsWellFormed, BrokerStep-IsWellFormed, leases,
}
use hobbyist.Queue.Tick.{
  DrainableQueue, RetentionTarget, Files, write, table_at, World, Daemon, route_dead_letter,
  expire_step, sweep_step, sweep_only, apply_step, deliver_step, lease_step, after_wake, wake_step,
  upkeep, tick_one_queue, tick_queues, sweep_targets, tick_once,
}

abbrev pub IsSound : Files → Type 0
IsSound files = (p : String) → IsWellFormed (table_at files p)

write-IsSound :
    (files : Files) (path : String) (t : Table)
    → IsWellFormed t
    → IsSound files
    → IsSound (write files path t)
write-IsSound files path t w h p = elim (Bool-cases (str_eq p path)) [
  | inl here ↦ rw here w
  | inr elsewhere ↦ rw elsewhere (h p)
]

route_dead_letter-NeverThrows :
    (path : Option String) (now : ℕ) → NeverThrows (some (route_dead_letter path now))
unfolding route_dead_letter notify
route_dead_letter-NeverThrows none now files m = (files, refl)
route_dead_letter-NeverThrows (some path) now files m =
    (write files path (insert_dead_letter (table_at files path) m now), refl)

route_dead_letter-IsSound :
    (path : Option String) (now : ℕ) (files files' : Files) (m : LeasedMessage)
    → route_dead_letter path now files m ≡ done files'
    → IsSound files
    → IsSound files'
unfolding route_dead_letter
route_dead_letter-IsSound none now files files' m e h =
    let same : files ≡ files' = ground arith in rw (← same) h
route_dead_letter-IsSound (some path) now files files' m e h =
    let same : write files path (insert_dead_letter (table_at files path) m now) ≡ files' =
      ground arith in
    rw (← same) (
      write-IsSound files path _
        (insert_dead_letter-IsWellFormed (table_at files path) m now (h path)) h)

notify_all-IsSound :
    (path : Option String) (now : ℕ) (ms : List LeasedMessage) (files files' : Files)
    → notify_all (some (route_dead_letter path now)) ms files ≡ done files'
    → IsSound files
    → IsSound files'
unfolding notify_all notify
notify_all-IsSound path now [] files files' e h =
    let same : files ≡ files' = ground arith in rw (← same) h
notify_all-IsSound path now (m ∷ ms) files files' e h =
    go (route_dead_letter path now files m) refl (λ v. notify_all-IsSound path now ms v files')
  where
    go :
        (x : Reply Files)
        → route_dead_letter path now files m ≡ x
        → ((v : Files)
            → notify_all (some (route_dead_letter path now)) ms v ≡ done files'
            → IsSound v
            → IsSound files')
        → IsSound files'
    go (threw v) q ih = absurd (ground arith)
    go (done v) q ih = ih v (ground arith) (route_dead_letter-IsSound path now files v m q h)

Commits-IsSound :
    (path : Option String) (now : ℕ) (p : Row → Bool) (fate : Row → Fate) (rows t : Table)
    (files : Files) (a : Applied Files)
    → Commits (some (route_dead_letter path now)) p fate rows t files a
    → ((c : Counts) × (a.outcome ≡ some c))
    → IsSound files
    → IsSound a.world
Commits-IsSound path now p fate rows t files a (inl (rolled, same)) (c, e) h = absurd (ground arith)
Commits-IsSound path now p fate rows t files a (inr (c, committed, done_so)) e h =
    notify_all-IsSound path now c.dead_lettered files a.world done_so.world h

expire_step-IsSound :
    (q : DrainableQueue) (now : ℕ) (files : Files)
    → IsSound files
    → IsSound (expire_step q now files)
unfolding expire_step
expire_step-IsSound q now files h =
    let f = some (route_dead_letter q.dead_letter_db_path now) in
    let t = table_at files q.db_path in
    let c = expire_leases-Commits f t files q.options now (h q.db_path).distinct in
    write-IsSound _ q.db_path _ (Commits-IsWellFormed f _ _ _ t files _ c (h q.db_path)) (
      Commits-IsSound q.dead_letter_db_path now _ _ _ t files _ c
        (expire_leases_total f t files q.options now (route_dead_letter-NeverThrows _ now)) h)

apply_step-IsSound :
    (q : DrainableQueue) (b : LeasedBatch) (result : DeliveryResult) (at : ℕ) (files : Files)
    → IsSound files
    → IsSound (apply_step q b result at files)
unfolding apply_step
apply_step-IsSound q b result at files h =
    let f = some (route_dead_letter q.dead_letter_db_path at) in
    let t = table_at files q.db_path in
    let c = apply_result-Commits f t files b.lease_id result q.options at (h q.db_path).distinct in
    write-IsSound _ q.db_path _ (Commits-IsWellFormed f _ _ _ t files _ c (h q.db_path)) (
      Commits-IsSound q.dead_letter_db_path at _ _ _ t files _ c
        (apply_result_total f t files b.lease_id result q.options at
          (route_dead_letter-NeverThrows _ at))
        h)

sweep_step-IsSound :
    (path : String) (seconds now : ℕ) (files : Files)
    → IsSound files
    → IsSound (sweep_step path seconds now files)
unfolding sweep_step
sweep_step-IsSound path seconds now files h =
    write-IsSound files path _
      (sweep_retention-IsWellFormed (table_at files path) seconds now (h path)) h

upkeep-IsSound :
    (q : DrainableQueue) (now : ℕ) (files : Files) → IsSound files → IsSound (upkeep q now files)
unfolding upkeep
upkeep-IsSound q now files h =
    sweep_step-IsSound q.db_path q.retention_seconds now _
      (expire_step-IsSound q now _ (write-IsSound files q.db_path _ (h q.db_path) h))

sweep_only-IsSound :
    (target : RetentionTarget) (now : ℕ) (files : Files)
    → IsSound files
    → IsSound (sweep_only target now files)
unfolding sweep_only
sweep_only-IsSound target now files h = go (files target.db_path) refl
  where
    go : (x : Option Table) → files target.db_path ≡ x → IsSound (sweep_only target now files)
    go none e = rw (e, sweep_only) h
    go (some t) e =
        rw (e, sweep_only) (sweep_step-IsSound target.db_path target.retention_seconds now files h)

-- What else happens while a wake or a delivery is awaited leaves the files well formed.
pub record KeepsSound {Env : Type 0} (d : Daemon Env) : Type 0 where
  pub wake : (id : String) (w : World Env) → IsSound w.files → IsSound (d.wake id w).0.files
  pub deliver :
      (id : String) (b : LeasedBatch) (name : String) (w : World Env)
      → IsSound w.files
      → IsSound (d.deliver id b name w).0.files

module _ (random_int : ℕ → ℕ) {Env : Type 0} (d : Daemon Env) (k : KeepsSound d) where
  deliver_step-IsSound :
      (q : DrainableQueue) (b : LeasedBatch) (w : World Env)
      → IsSound w.files
      → IsSound (deliver_step random_int d q b w).files
  unfolding deliver_step
  deliver_step-IsSound q b w h = go (d.deliver q.consumer_resource_id b q.queue_name w).1 refl
    where
      go :
          (x : Option DeliveryResult)
          → (d.deliver q.consumer_resource_id b q.queue_name w).1 ≡ x
          → IsSound (deliver_step random_int d q b w).files
      go none e = rw (e, deliver_step) (k.deliver _ b _ w h)
      go (some result) e =
          rw (e, deliver_step) (apply_step-IsSound q b result _ _ (k.deliver _ b _ w h))

  lease_step-IsSound :
      (q : DrainableQueue) (now : ℕ) (w : World Env)
      → IsSound w.files
      → IsSound (lease_step random_int d q now w).files
  unfolding lease_step
  lease_step-IsSound q now w h =
      go (lease_batch random_int w.ids (table_at w.files q.db_path) q.options now lease_ms).batch
        refl
    where
      go :
          (x : Option LeasedBatch)
          → (lease_batch random_int w.ids (table_at w.files q.db_path) q.options now lease_ms).batch
            ≡ x
          → IsSound (lease_step random_int d q now w).files
      go none e = rw (e, lease_step) h
      go (some b) e =
          rw (e, lease_step)
            (deliver_step-IsSound q b _ (
              write-IsSound w.files q.db_path _
                (BrokerStep-IsWellFormed random_int {World = Files}
                  (leases w.ids (table_at w.files q.db_path) q.options now lease_ms) (h q.db_path))
                h))

  after_wake-IsSound :
      (q : DrainableQueue) (now : ℕ) (answer : World Env × Bool)
      → IsSound answer.0.files
      → IsSound (after_wake random_int d q now answer).files
  unfolding after_wake
  after_wake-IsSound q now (w, true) h = lease_step-IsSound q now w h
  after_wake-IsSound q now (w, false) h = h

  wake_step-IsSound :
      (q : DrainableQueue) (now : ℕ) (w : World Env)
      → IsSound w.files
      → IsSound (wake_step random_int d q now w).files
  unfolding wake_step
  wake_step-IsSound q now w h = go (d.state_of q.consumer_resource_id w.env) refl
    where
      go :
          (x : ResourceState)
          → d.state_of q.consumer_resource_id w.env ≡ x
          → IsSound (wake_step random_int d q now w).files
      go sleeping e = rw (e, wake_step) (after_wake-IsSound q now _ (k.wake _ w h))
      go running e = rw (e, wake_step) (lease_step-IsSound q now w h)
      go _ e = rw (e, wake_step) h

  tick_one_queue-IsSound :
      (q : DrainableQueue) (now : ℕ) (w : World Env)
      → IsSound w.files
      → IsSound (tick_one_queue random_int d q now w).files
  unfolding tick_one_queue
  tick_one_queue-IsSound q now w h =
      go (is_batch_ready (table_at (upkeep q now w.files) q.db_path) q.options now) refl
    where
      go :
          (x : Bool)
          → is_batch_ready (table_at (upkeep q now w.files) q.db_path) q.options now ≡ x
          → IsSound (tick_one_queue random_int d q now w).files
      go false e = rw (e, tick_one_queue) (upkeep-IsSound q now w.files h)
      go true e =
          rw (e, tick_one_queue) (wake_step-IsSound q now _ (upkeep-IsSound q now w.files h))

  tick_queues-IsSound :
      (queues : List DrainableQueue) (now : ℕ) (w : World Env)
      → IsSound w.files
      → IsSound (tick_queues random_int d queues now w).files
  unfolding tick_queues
  tick_queues-IsSound [] now w h = h
  tick_queues-IsSound (q ∷ queues) now w h =
      tick_queues-IsSound queues now _ (tick_one_queue-IsSound q now w h)

  sweep_targets-IsSound :
      (queues : List DrainableQueue) (targets : List RetentionTarget) (now : ℕ) (w : World Env)
      → IsSound w.files
      → IsSound (sweep_targets random_int d queues targets now w).files
  unfolding sweep_targets
  sweep_targets-IsSound queues [] now w h = h
  sweep_targets-IsSound queues (target ∷ targets) now w h =
      sweep_targets-IsSound queues targets now _
        (one (Bool-cases (any (λ q. str_eq q.resource_id target.resource_id) queues)))
    where
      one :
          (any (λ q. str_eq q.resource_id target.resource_id) queues ≡ true)
            ⊎ (any (λ q. str_eq q.resource_id target.resource_id) queues ≡ false)
          → IsSound
              (if any (λ q. str_eq q.resource_id target.resource_id) queues
                then w
                else record w { files = sweep_only target now w.files }).files
      one (inl drained) = rw drained h
      one (inr idle) = rw idle (sweep_only-IsSound target now w.files h)

  -- One tick of the daemon leaves every queue file well formed, with distinct ids, whole leases
  -- and right sizes, if all were and if what happens while a wake or a delivery is awaited keeps
  -- them so.
  pub tick_once-IsSound :
      (queues : List DrainableQueue) (retention : List RetentionTarget) (w : World Env)
      → IsSound w.files
      → IsSound (tick_once random_int d queues retention w).files
  unfolding tick_once
  tick_once-IsSound queues retention w h =
      sweep_targets-IsSound queues retention _ _ (tick_queues-IsSound queues _ w h)
