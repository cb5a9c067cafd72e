-- ===== src/Daemon/Reconcile/Rows.antt =====
-- The rows of the store while reconcile goes over its listing.
use hobbyist.Base.{
  ℕ, ◌≡◌, refl, sym, ap, subst, Bool, true, false, ◌==◌, leb, str_eq, str_eq_iff, List, [], ◌∷◌,
  ◌++◌, All, All-mono, any, Option, none, some, if◌then◌else◌, arith, branch, Bool-cases, ◌⊎◌, inl,
  inr,
}
use hobbyist.Core.Types.{
  Resource, ResourceState, creating, running, starting, sleeping, stopping, failed, destroying,
  undeployed, is_running,
}
use hobbyist.Daemon.World.{World}
use hobbyist.Daemon.Reconcile.{
  ObservedBucket, missing, stopped, booting, ready, corrected_state, rank, state_eq, skip_reconcile,
  is_released, set_state, ContainerStatus, Calls, Reconciled, completed, aborted, read_answer,
  is_ready, bucket_of, correct, reconcile_loop,
}

pub is_running-rank : (s : ResourceState) → is_running s ≡ (rank s == 1)
is_running-rank creating = refl
is_running-rank running = refl
is_running-rank starting = refl
is_running-rank sleeping = refl
is_running-rank stopping = refl
is_running-rank failed = refl
is_running-rank destroying = refl
is_running-rank undeployed = refl

is_running-corrected_state :
    (s : ResourceState) (b : ObservedBucket) → is_running (corrected_state s b) ≡ true → b ≡ ready
unfolding corrected_state
is_running-corrected_state s ready h = refl
is_running-corrected_state s booting h = absurd (ground (arith, h))
is_running-corrected_state s missing h = absurd (ground (arith, h))
is_running-corrected_state s stopped h = absurd (ground (arith, h))

-- No two resources of the list have one id.
abbrev pub IsDistinct : List Resource → Type 0
IsDistinct [] = Unit {0}
IsDistinct (r ∷ rs) = All (λ s. str_eq s.id r.id ≡ false) rs × IsDistinct rs

-- The kinds' destroy removes rows of the store and changes nothing else of it.
pub record OnlyRemoves {Host : Type 0} (calls : Calls Host) : Type 1 where
  pub removes :
      (r : Resource) (w : World) (h : Host) (P : Resource → Type 0)
      → All P w.resources
      → All P (calls.destroy r w h).0.resources
  pub projects :
      (r : Resource) (w : World) (h : Host) → (calls.destroy r w h).0.projects ≡ w.projects

module _ {Host : Type 0} (calls : Calls Host) (deadline : ℕ) (start : World) (first : Host) where
  -- The resource is of the listing, and this is the world and the host that reconcile has made of
  -- those before it.
  pub record IsTurn (r : Resource) : Type 0 where
    pub before : List Resource
    pub behind : List Resource
    pub split : start.resources ≡ before ++ r ∷ behind
    pub world : World
    pub host : Host
    pub reached : reconcile_loop calls deadline before start first ≡ completed world host

  -- At the resource's turn its probe, which followed the inspect, was made before the deadline and
  -- answered yes.
  pub record HasAnswered (r : Resource) : Type 0 where
    pub turn : IsTurn r
    pub in_time : leb deadline (calls.now (calls.inspect r turn.host).1) ≡ false
    pub answered : (calls.probe r (calls.inspect r turn.host).1).0 ≡ some true

  -- A recorded state that may say running: of the resource of the listing with this id, which
  -- reconcile passes over, or which has answered.
  pub record IsExcused (x : Resource) : Type 0 where
    pub listed : Resource
    pub turn : IsTurn listed
    pub same : str_eq listed.id x.id ≡ true
    pub reason :
        (skip_reconcile listed ≡ true) ⊎ ((is_released start listed ≡ true) ⊎ HasAnswered listed)

  abbrev pub IsHonest : Resource → Type 0
  IsHonest x = (is_running x.state ≡ false) ⊎ IsExcused x

  -- A row of the store while `todo` is left: still as it was listed, or honest.
  pub record IsPending (todo : List Resource) (x : Resource) : Type 0 where
    pub as_listed : All (λ r. (str_eq r.id x.id ≡ false) ⊎ (r.state ≡ x.state)) todo
    pub waits : (any (λ r. str_eq r.id x.id) todo ≡ true) ⊎ IsHonest x

  pub passed-IsPending :
      (r : Resource) (rs : List Resource) (x : Resource)
      → IsPending (r ∷ rs) x
      → (str_eq r.id x.id ≡ true → r.state ≡ x.state → IsHonest x)
      → IsPending rs x
  passed-IsPending r rs x p honest = record {
    as_listed = p.as_listed.1;
    waits = elim (p.waits) [
      | inr done ↦ inr done
      | inl waiting ↦ elim (p.as_listed.0) [
        | inl other ↦ inl (ground (arith, waiting, other))
        | inr kept ↦ elim (Bool-cases (str_eq r.id x.id)) [
          | inl here ↦ inr (honest here kept)
          | inr other ↦ inl (ground (arith, waiting, other))
        ]
      ]
    ];
  }

  read_answer-true : (a : Option Bool × Host) → (read_answer calls a).0 ≡ true → a.0 ≡ some true
  read_answer-true (some true, h) e = refl
  read_answer-true (some false, h) e = absurd (ground (arith, e))
  read_answer-true (none, h) e = absurd (ground (arith, e))

  is_ready-HasAnswered :
      (r : Resource) (t : IsTurn r)
      → (is_ready calls deadline r (calls.inspect r t.host).1).0 ≡ true
      → HasAnswered r
  unfolding is_ready
  is_ready-HasAnswered r t e =
      elim (Bool-cases (leb deadline (calls.now (calls.inspect r t.host).1))) [
        | inl late ↦ absurd (ground (arith, late, e))
        | inr early ↦ record {
          turn = t;
          in_time = early;
          answered =
              read_answer-true (calls.probe r (calls.inspect r t.host).1)
                (ground (arith, early, e));
        }
      ]

  pub bucket_of-HasAnswered :
      (r : Resource) (t : IsTurn r)
      → (bucket_of calls deadline r (calls.inspect r t.host)).0 ≡ some ready
      → HasAnswered r
  unfolding bucket_of
  bucket_of-HasAnswered r t = go (calls.inspect r t.host) refl
    where
      go :
          (a : Option ContainerStatus × Host)
          → calls.inspect r t.host ≡ a
          → (bucket_of calls deadline r a).0 ≡ some ready
          → HasAnswered r
      go (none, h) same e = absurd (ground (arith, e))
      go (some status, h) same e =
          let answer : (is_ready calls deadline r h).0 ≡ true = ground (arith, e) in
          is_ready-HasAnswered r t (rw same answer)

  abbrev pub Pending : List Resource → World → Type 0
  Pending todo w = All (IsPending todo) w.resources × (w.projects ≡ start.projects)

  -- At the turn of a resource Docker's inspect threw.
  pub record HasThrown : Type 0 where
    pub inspected : Resource
    pub turn : IsTurn inspected
    pub threw : (calls.inspect inspected turn.host).0 ≡ none

  -- What a step or the loop comes to.
  abbrev pub Ends : List Resource → Reconciled Host → Type 0
  Ends todo (completed w h) = Pending todo w
  Ends todo (aborted w h) = HasThrown

  -- What reconcile comes to: states that are honest, or Docker's error.
  abbrev pub IsReconciled : Reconciled Host → Type 0
  IsReconciled (completed w h) = All IsHonest w.resources
  IsReconciled (aborted w h) = HasThrown

  answered_excuses : (r x : Resource) → str_eq r.id x.id ≡ true → HasAnswered r → IsExcused x
  answered_excuses r x e a = record { listed = r; turn = a.turn; same = e; reason = inr (inr a) }

  set_state-IsPending :
      (r : Resource) (rs : List Resource) (c : ResourceState) (l : List Resource)
      → All (λ s. str_eq s.id r.id ≡ false) rs
      → (is_running c ≡ true → HasAnswered r)
      → All (IsPending (r ∷ rs)) l
      → All (IsPending rs) (set_state r.id c l)
  unfolding set_state
  set_state-IsPending r rs c [] others evidence p = tt
  set_state-IsPending r rs c (x ∷ l) others evidence (p, ps) = (
    branch (IsPending rs) (str_eq x.id r.id) here there,
    set_state-IsPending r rs c l others evidence ps,
  )
    where
      here : str_eq x.id r.id ≡ true → IsPending rs (record x { state = c })
      here e =
          let same : x.id ≡ r.id = (str_eq_iff x.id r.id).0 e in
          record {
            as_listed =
                All-mono (λ s d. inl (subst (λ i. str_eq s.id i ≡ false) (sym same) d)) rs others;
            waits = inr (elim (Bool-cases (is_running c)) [
              | inl runs ↦ inr (
                  answered_excuses r (record x { state = c }) ((str_eq_iff r.id x.id).1 (sym same))
                    (evidence runs))
              | inr not_running ↦ inl not_running
            ]);
          }

      there : str_eq x.id r.id ≡ false → IsPending rs x
      there d =
          passed-IsPending r rs x p
            λ e k. absurd (ground (arith, d, e, str_eq_iff x.id r.id, str_eq_iff r.id x.id))

  pub correct-Pending :
      (r : Resource) (rs : List Resource) (b : ObservedBucket) (w : World) (h : Host)
      → All (λ s. str_eq s.id r.id ≡ false) rs
      → (b ≡ ready → HasAnswered r)
      → Pending (r ∷ rs) w
      → Pending rs (correct calls r b w h)
  unfolding correct
  correct-Pending r rs b w h others evidence (pending, projects) =
      branch (Pending rs) (is_running c) (λ e. written) (λ e. written)
    where
      c : ResourceState
      c = corrected_state r.state b

      proof : is_running c ≡ true → HasAnswered r
      proof runs = evidence (is_running-corrected_state r.state b runs)

      kept :
          state_eq c r.state ≡ true
          → (x : Resource) → str_eq r.id x.id ≡ true
          → r.state ≡ x.state
          → IsHonest x
      kept e x here same = elim (Bool-cases (is_running c)) [
        | inl runs ↦ inr (answered_excuses r x here (proof runs))
        | inr rests ↦
            inl (ground (arith, e, rests, is_running-rank c, is_running-rank x.state, ap rank same))
      ]

      written :
          Pending rs (
            if state_eq c r.state then w else record w { resources = set_state r.id c w.resources })
      written =
          branch (Pending rs) (state_eq c r.state)
            (λ e. (
              All-mono (λ x p. passed-IsPending r rs x p (kept e x)) w.resources pending,
              projects,
            ))
            (λ e. (set_state-IsPending r rs c w.resources others proof pending, projects))
