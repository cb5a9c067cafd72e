-- ===== src/Daemon/Queues/Split.antt =====
-- The drained queues and the swept ones share out the managed queues of the box.
use hobbyist.Base.{
  ◌≡◌, refl, Bool, true, false, String, str_eq, str_eq_iff, List, [], ◌∷◌, some, any, All, arith,
  Bool-cases, Option-cases, inl, inr, ◌⊎◌,
}
use hobbyist.Core.Types.{Resource, Project, QueueConfig}
use hobbyist.Queue.Tick.{DrainableQueue, RetentionTarget}
use hobbyist.Daemon.World.{World}
use hobbyist.Daemon.Queues.{
  queue_of, live_consumer, drainable, drainable_from, managed_project, drains, retention_target,
  drainable_queues, targets_from, retention_targets,
}

abbrev pub sweeps : List RetentionTarget → String → Bool
sweeps targets id = any (λ t. str_eq t.resource_id id) targets

-- The resource stands in the list.
pub data IsListed (r : Resource) : List Resource → Type 0 where
  first : (rs : List Resource) → IsListed r (r ∷ rs)
  later : (s : Resource) (rs : List Resource) → IsListed r rs → IsListed r (s ∷ rs)

module _ (queue_db_path : String → String → String) where
  targets_from_keeps :
      (w : World) (drained : List DrainableQueue) (s : Resource) (rs : List Resource) (id : String)
      → sweeps (targets_from queue_db_path w drained rs) id ≡ true
      → sweeps (targets_from queue_db_path w drained (s ∷ rs)) id ≡ true
  unfolding targets_from
  targets_from_keeps w drained s rs id h =
      elim (Option-cases (retention_target queue_db_path w drained s)) [
        | inl e ↦ ground (arith, e, h)
        | inr (t, e) ↦ ground (arith, e, h)
      ]

  listed-sweeps :
      (w : World) (drained : List DrainableQueue) (r : Resource) (c : QueueConfig) (p : Project)
      (rs : List Resource)
      → queue_of r.config ≡ some c
      → managed_project w r ≡ some p
      → drains drained r.id ≡ false
      → IsListed r rs
      → sweeps (targets_from queue_db_path w drained rs) r.id ≡ true
  unfolding targets_from retention_target
  listed-sweeps w drained r c p (_) q m d (first rs) = ground (arith, q, m, d, str_eq_iff r.id r.id)
  listed-sweeps w drained r c p (_) q m d (later s rs l) =
      targets_from_keeps w drained s rs r.id (listed-sweeps w drained r c p rs q m d l)

  -- Every queue of the store whose project is there and not released is drained by the tick or
  -- swept by it, so that its retention holds whether or not anything consumes it.
  pub managed_queue_covered :
      (w : World) (r : Resource) (c : QueueConfig) (p : Project)
      → IsListed r w.resources
      → queue_of r.config ≡ some c
      → managed_project w r ≡ some p
      → (drains (drainable_queues queue_db_path w) r.id ≡ true)
        ⊎ (sweeps (retention_targets queue_db_path w) r.id ≡ true)
  unfolding retention_targets
  managed_queue_covered w r c p l q m =
      elim (Bool-cases (drains (drainable_queues queue_db_path w) r.id)) [
        | inl drained ↦ inl drained
        | inr not_drained ↦
            inr (
              listed-sweeps w (drainable_queues queue_db_path w) r c p w.resources q m not_drained
                l)
      ]

  targets_from-drains :
      (w : World) (drained : List DrainableQueue) (rs : List Resource)
      → All (λ t. drains drained t.resource_id ≡ false) (targets_from queue_db_path w drained rs)
  unfolding targets_from retention_target
  targets_from-drains w drained [] = tt
  targets_from-drains w drained (r ∷ rs) =
      let rest = targets_from-drains w drained rs in
      elim (Option-cases (queue_of r.config)) [
        | inl e ↦ rw (All, e) rest
        | inr (c, e) ↦ elim (Bool-cases (drains drained r.id)) [
          | inl held ↦ rw (All, e, held) rest
          | inr free ↦ elim (Option-cases (managed_project w r)) [
            | inl m ↦ rw (All, e, free, m) rest
            | inr (p, m) ↦ rw (All, e, free, m) (free, rest)
          ]
        ]
      ]

  -- No queue is in both lists, so none is swept twice in one tick.
  pub retention_targets-drains :
      (w : World)
      → All
          (λ t. drains (drainable_queues queue_db_path w) t.resource_id ≡ false)
          (retention_targets queue_db_path w)
  unfolding retention_targets
  retention_targets-drains w = targets_from-drains w (drainable_queues queue_db_path w) w.resources

-- What the tick may deliver a queue to: a worker of the store with deployed code, for a queue of a
-- project that is not released.
pub record IsDeliverable (queue_db_path : String → String → String) (w : World) (q : DrainableQueue)
    : Type 0 where
  pub queue : Resource
  pub queue_options : QueueConfig
  pub project : Project
  pub consumer : Resource
  pub is_queue : queue_of queue.config ≡ some queue_options
  pub managed : managed_project w queue ≡ some project
  pub consumed : live_consumer w queue_options ≡ some consumer
  pub named : (q.resource_id ≡ queue.id) × (q.consumer_resource_id ≡ consumer.id)
  pub filed : q.db_path ≡ queue_db_path project.name queue.name

module _ (queue_db_path : String → String → String) where
  drainable_from-IsDeliverable :
      (w : World) (rs : List Resource)
      → All (IsDeliverable queue_db_path w) (drainable_from queue_db_path w rs)
  unfolding drainable_from drainable
  drainable_from-IsDeliverable w [] = tt
  drainable_from-IsDeliverable w (r ∷ rs) =
      let rest = drainable_from-IsDeliverable w rs in
      elim (Option-cases (queue_of r.config)) [
        | inl e ↦ rw (All, e) rest
        | inr (c, e) ↦ elim (Option-cases (live_consumer w c)) [
          | inl l ↦ rw (All, e, l) rest
          | inr (consumer, l) ↦ elim (Option-cases (managed_project w r)) [
            | inl m ↦ rw (All, e, l, m) rest
            | inr (p, m) ↦
                rw (All, e, l, m)
                  (
                    record {
                      queue = r;
                      queue_options = c;
                      project = p;
                      consumer = consumer;
                      is_queue = e;
                      managed = m;
                      consumed = l;
                      named = (refl, refl);
                      filed = refl;
                    },
                    rest,
                  )
          ]
        ]
      ]

  -- Each queue that the tick drains is of a project that is not released, stands for a queue of the
  -- store under its id, and has a worker with deployed code for a consumer.
  pub drainable_queues-IsDeliverable :
      (w : World) → All (IsDeliverable queue_db_path w) (drainable_queues queue_db_path w)
  unfolding drainable_queues
  drainable_queues-IsDeliverable w = drainable_from-IsDeliverable w w.resources
