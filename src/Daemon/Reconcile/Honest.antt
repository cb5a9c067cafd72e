-- ===== src/Daemon/Reconcile/Honest.antt =====
-- After reconcile a resource recorded running has answered.
use hobbyist.Base.{
  ℕ, ◌+◌, ◌≡◌, refl, sym, ap, ◌∙◌, fun_ext, true, false, str_eq, str_eq_iff, List, [], ◌∷◌, ◌++◌,
  append_assoc, All, All-mono, any, Option, none, some, arith, branch, ◌⊎◌, inl, inr,
}
use hobbyist.Core.Types.{Resource, destroying}
use hobbyist.Daemon.World.{World}
use hobbyist.Daemon.Reconcile.{
  ObservedBucket, ready, rank, state_eq, skip_reconcile, is_released, ContainerStatus, Calls,
  Reconciled, completed, aborted, and_then, bucket_of, after_inspect, after_destroy, reconcile_step,
  reconcile_loop, reconcile,
}
use hobbyist.Daemon.Reconcile.Rows.{
  IsDistinct, OnlyRemoves, is_running-rank, Pending, Ends, HasAnswered, HasThrown, IsPending,
  IsTurn, IsReconciled, passed-IsPending, correct-Pending, bucket_of-HasAnswered,
}

module _ {Host : Type 0} (calls : Calls Host) (deadline : ℕ) (start : World) (first : Host) where
  bucket_of-HasThrown :
      (r : Resource) (a : Option ContainerStatus × Host)
      → (bucket_of calls deadline r a).0 ≡ none
      → a.0 ≡ none
  unfolding bucket_of
  bucket_of-HasThrown r (none, h) e = refl
  bucket_of-HasThrown r (some status, h) e = absurd (ground (arith, e))

  after_inspect-Ends :
      (r : Resource) (rs : List Resource) (w : World) (o : Option ObservedBucket × Host)
      → All (λ s. str_eq s.id r.id ≡ false) rs
      → (o.0 ≡ some ready → HasAnswered calls deadline start first r)
      → (o.0 ≡ none → HasThrown calls deadline start first)
      → Pending calls deadline start first (r ∷ rs) w
      → Ends calls deadline start first rs (after_inspect calls r w o)
  unfolding after_inspect
  after_inspect-Ends r rs w (none, h) others evidence threw pending = threw refl
  after_inspect-Ends r rs w (some b, h) others evidence threw pending =
      correct-Pending calls deadline start first r rs b w h others (λ e. evidence (ap some e))
        pending

  and_then_assoc :
      (o : Reconciled Host) (f g : World → Host → Reconciled Host)
      → and_then (and_then o f) g ≡ and_then o (λ w h. and_then (f w h) g)
  and_then_assoc (completed w h) f g = refl
  and_then_assoc (aborted w h) f g = refl

  and_then_completed : (o : Reconciled Host) → and_then o (λ w h. completed w h) ≡ o
  and_then_completed (completed w h) = refl
  and_then_completed (aborted w h) = refl

  reconcile_loop-concat :
      (before rest : List Resource) (w : World) (h : Host)
      → reconcile_loop calls deadline (before ++ rest) w h
        ≡ and_then
            (reconcile_loop calls deadline before w h)
            (λ u k. reconcile_loop calls deadline rest u k)
  unfolding reconcile_loop
  reconcile_loop-concat [] rest w h = refl
  reconcile_loop-concat (x ∷ before) rest w h =
      ap (and_then (reconcile_step calls deadline x w h))
        (fun_ext λ u. fun_ext λ k. reconcile_loop-concat before rest u k)
      ∙ sym (and_then_assoc (reconcile_step calls deadline x w h) _ _)

  -- The turn after the last of `before`.
  turn_after :
      (before : List Resource) (r : Resource) (w u v : World) (h k l : Host)
      → reconcile_loop calls deadline before w h ≡ completed u k
      → reconcile_step calls deadline r u k ≡ completed v l
      → reconcile_loop calls deadline (before ++ r ∷ []) w h ≡ completed v l
  unfolding reconcile_loop
  turn_after before r w u v h k l e d =
      reconcile_loop-concat before (r ∷ []) w h
      ∙ ap (λ o. and_then o (λ u k. reconcile_loop calls deadline (r ∷ []) u k)) e
      ∙ and_then_completed (reconcile_step calls deadline r u k)
      ∙ d

  module _ (quiet : OnlyRemoves calls) where
    reconcile_step-Ends :
        (r : Resource) (rs : List Resource) (t : IsTurn calls deadline start first r)
        → All (λ s. str_eq s.id r.id ≡ false) rs
        → Pending calls deadline start first (r ∷ rs) t.world
        → Ends calls deadline start first rs (reconcile_step calls deadline r t.world t.host)
    unfolding reconcile_step is_released
    reconcile_step-Ends r rs t others (pending, projects) =
        branch (Ends calls deadline start first rs) (state_eq r.state destroying) gone λ e.
          branch (Ends calls deadline start first rs) (skip_reconcile r)
            (λ skips. passed (inl skips))
            λ d.
              branch (Ends calls deadline start first rs) (is_released t.world r)
                (λ free. passed (inr (inl (sym same ∙ free))))
                λ f.
                  after_inspect-Ends r rs t.world
                    (bucket_of calls deadline r (calls.inspect r t.host)) others
                    (bucket_of-HasAnswered calls deadline start first r t)
                    (λ e. record {
                      inspected = r;
                      turn = t;
                      threw = bucket_of-HasThrown r (calls.inspect r t.host) e;
                    })
                    (pending, projects)
      where
        same : is_released t.world r ≡ is_released start r
        same = rw projects refl

        passed :
            (skip_reconcile r ≡ true)
              ⊎ ((is_released start r ≡ true) ⊎ HasAnswered calls deadline start first r)
            → Pending calls deadline start first rs t.world
        passed why = (
          All-mono
              (λ x p.
                passed-IsPending calls deadline start first r rs x p
                  λ e k. inr (record { listed = r; turn = t; same = e; reason = why }))
              t.world.resources pending,
          projects,
        )

        gone :
            state_eq r.state destroying ≡ true
            → Ends calls deadline start first rs
                (after_destroy calls (calls.destroy r t.world t.host))
        gone e = (
          quiet.removes r t.world t.host (IsPending calls deadline start first rs) (
              All-mono
                (λ x p.
                  passed-IsPending calls deadline start first r rs x p
                    λ here k. inl (ground (arith, e, is_running-rank x.state, ap rank k)))
                t.world.resources pending),
          quiet.projects r t.world t.host ∙ projects,
        )

    reconcile_loop-Ends :
        (before todo : List Resource) (w : World) (h : Host)
        → start.resources ≡ before ++ todo
        → reconcile_loop calls deadline before start first ≡ completed w h
        → IsDistinct todo
        → Pending calls deadline start first todo w
        → Ends calls deadline start first [] (reconcile_loop calls deadline todo w h)
    unfolding reconcile_loop
    reconcile_loop-Ends before [] w h split reached d p = p
    reconcile_loop-Ends before (r ∷ rs) w h split reached (others, d) p =
        after (reconcile_step calls deadline r w h) refl (reconcile_step-Ends r rs turn others p)
          (λ v l e q.
            reconcile_loop-Ends (before ++ r ∷ []) rs v l
              (split ∙ sym (append_assoc before (r ∷ []) rs))
              (turn_after before r start w v first h l reached e) d q)
      where
        turn : IsTurn calls deadline start first r
        turn = record {
          before = before;
          behind = rs;
          split = split;
          world = w;
          host = h;
          reached = reached;
        }

        after :
            (result : Reconciled Host)
            → reconcile_step calls deadline r w h ≡ result
            → Ends calls deadline start first rs result
            → ((v : World) (l : Host)
                → reconcile_step calls deadline r w h ≡ completed v l
                → Pending calls deadline start first rs v
                → Ends calls deadline start first [] (reconcile_loop calls deadline rs v l))
            → Ends calls deadline start first []
                (and_then result λ w h. reconcile_loop calls deadline rs w h)
        after (completed v l) e q next = next v l e q
        after (aborted v l) e q next = q

    settled-IsReconciled :
        (result : Reconciled Host)
        → Ends calls deadline start first [] result
        → IsReconciled calls deadline start first result
    settled-IsReconciled (completed w h) (pending, projects) =
        All-mono
          (λ x p. elim (p.waits) [ inl e ↦ absurd (ground (arith, e)) | inr honest ↦ honest ])
          w.resources pending
    settled-IsReconciled (aborted w h) q = q

module _ {Host : Type 0} (calls : Calls Host) where
  -- A resource of the listing, among all of it.
  abbrev IsListed : List Resource → Resource → Type 0
  IsListed todo x =
      All (λ r. (str_eq r.id x.id ≡ false) ⊎ (r.state ≡ x.state)) todo
      × (any (λ r. str_eq r.id x.id) todo ≡ true)

  IsListed-behind :
      (y : Resource) (ys l : List Resource)
      → All (λ s. str_eq s.id y.id ≡ false) l
      → All (IsListed ys) l
      → All (IsListed (y ∷ ys)) l
  IsListed-behind y ys [] others p = tt
  IsListed-behind y ys (x ∷ l) (d, others) ((same, found), p) =
      let apart : str_eq y.id x.id ≡ false =
        ground (arith, d, str_eq_iff x.id y.id, str_eq_iff y.id x.id) in
      (((inl apart, same), ground (arith, found)), IsListed-behind y ys l others p)

  distinct-IsListed : (l : List Resource) → IsDistinct l → All (IsListed l) l
  distinct-IsListed [] d = tt
  distinct-IsListed (y ∷ ys) (others, d) = (
    ((inr refl, All-mono (λ s e. inl e) ys others), ground (arith, str_eq_iff y.id y.id)),
    IsListed-behind y ys ys others (distinct-IsListed ys d),
  )

  -- With resources of distinct ids and a destroy that only removes rows, reconcile ends with an
  -- error of Docker's inspect at the turn of a resource of the listing, or with a store in which a
  -- resource is recorded running only if reconcile passes over the resource of the listing with its
  -- id, as its kind says or its project was released, or if at the turn of that resource its probe
  -- answered before the deadline.
  pub reconcile-IsReconciled :
      (budget_ms : ℕ) (w : World) (h : Host)
      → OnlyRemoves calls
      → IsDistinct w.resources
      → IsReconciled calls (calls.now h + budget_ms) w h (reconcile calls budget_ms w h)
  unfolding reconcile reconcile_loop
  reconcile-IsReconciled budget_ms w h quiet d =
      settled-IsReconciled calls deadline w h quiet (reconcile_loop calls deadline w.resources w h)
        (reconcile_loop-Ends calls deadline w h quiet [] w.resources w h refl refl d (
          All-mono (λ x p. record { as_listed = p.0; waits = inl p.1 }) w.resources
              (distinct-IsListed w.resources d),
          refl,
        ))
    where
      deadline : ℕ
      deadline = calls.now h + budget_ms
