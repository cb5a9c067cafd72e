-- ===== src/Daemon/Hibernator/Safe.antt =====
-- Of what a pass stops: nobody uses it.
use hobbyist.Base.{
  ℕ, ◌≡◌, refl, true, false, not, ◌||◌, List, [], ◌∷◌, some, All, All-append, ◌==◌, arith, ap,
  Bool-cases, Option-cases, inl, inr,
}
use hobbyist.Core.Types.{Resource, kind, is_running, is_queue}
use hobbyist.Proxy.Activity.{Idle, is_less, count, idle_seconds}
use hobbyist.Daemon.World.{World, get_resource}
use hobbyist.Daemon.Hibernator.{
  ActivityGuardResult, active, idle, unreachable, should_sleep, has_awake_dependent, threshold_of,
  Stop, stop_step, guard_step, consider, pass, tick,
}

-- A resource that a pass may ask the guard about, at a time.
pub record IsCandidate (w : World) (now : ℕ) (r : Resource) (threshold : ℕ) (i : Idle)
    : Type 0 where
  pub runs : is_running r.state ≡ true
  pub no_queue : is_queue (kind r) ≡ false
  pub not_pinned : threshold_of w r ≡ some threshold
  pub unconnected : count w.activity r.id ≡ 0
  pub idles : idle_seconds w.activity r.id now ≡ some i
  pub long_idle : is_less i threshold ≡ false
  pub independent : has_awake_dependent w r ≡ false

-- A resource that may still be stopped, in the world in which it would be.
pub record IsFree (w : World) (r : Resource) (fresh : Resource) : Type 0 where
  pub unconnected : count w.activity r.id ≡ 0
  pub stored : get_resource w.resources r.id ≡ some fresh
  pub runs : is_running fresh.state ≡ true
  pub independent : has_awake_dependent w fresh ≡ false

module _ (guard : World → Resource → ActivityGuardResult × World) (now : World → ℕ) where
  pub record IsSafe (s : Stop) : Type 0 where
    pub candidate : IsCandidate s.before (now s.before) s.listed s.threshold s.idle_for
    pub asked : guard s.before s.listed ≡ (idle, s.at)
    pub free : IsFree s.at s.listed s.resource

module _ (guard : World → Resource → ActivityGuardResult × World) (stop : World → Resource → World)
    (now : World → ℕ) where
  stop_step-IsSafe :
      (w w1 : World) (r : Resource) (threshold : ℕ) (i : Idle) (log : List Stop)
      → IsCandidate w (now w) r threshold i
      → guard w r ≡ (idle, w1)
      → All (IsSafe guard now) log
      → All (IsSafe guard now) (stop_step guard stop w w1 r threshold i log).1
  unfolding stop_step
  stop_step-IsSafe w w1 r threshold i log c a h = elim (Bool-cases (count w1.activity r.id == 0)) [
    | inr e ↦ rw e h
    | inl e ↦ elim (Option-cases (get_resource w1.resources r.id)) [
      | inl none_left ↦ rw (e, none_left) h
      | inr (fresh, found) ↦
          elim (Bool-cases (not (is_running fresh.state) || has_awake_dependent w1 fresh)) [
            | inl moved ↦ rw (e, found, moved) h
            | inr still ↦
                rw (e, found, still)
                  (All-append (IsSafe guard now) log _ h (
                    record {
                      candidate = c;
                      asked = a;
                      free = record {
                        unconnected = ground arith;
                        stored = found;
                        runs = ground arith;
                        independent = ground arith;
                      };
                    },
                    tt,
                  ))
          ]
    ]
  ]

  guard_step-IsSafe :
      (w : World) (r : Resource) (threshold : ℕ) (i : Idle) (log : List Stop)
      → IsCandidate w (now w) r threshold i
      → All (IsSafe guard now) log
      → All (IsSafe guard now) (guard_step guard stop w r threshold i log).1
  unfolding guard_step should_sleep
  guard_step-IsSafe w r threshold i log c h = go (guard w r).0 refl
    where
      go :
          (answer : ActivityGuardResult)
          → (guard w r).0 ≡ answer
          → All (IsSafe guard now) (guard_step guard stop w r threshold i log).1
      go active e = rw (e, c.runs, c.unconnected, c.long_idle) h
      go unreachable e = rw (e, c.runs, c.unconnected, c.long_idle) h
      go idle e =
          rw (e, c.runs, c.unconnected, c.long_idle)
            (stop_step-IsSafe w (guard w r).1 r threshold i log c (ap (λ a. (a, (guard w r).1)) e)
              h)

  consider-IsSafe :
      (w : World) (r : Resource) (log : List Stop)
      → All (IsSafe guard now) log
      → All (IsSafe guard now) (consider guard stop w (now w) r log).1
  unfolding consider
  consider-IsSafe w r log h = elim (Bool-cases (not (is_running r.state) || is_queue (kind r))) [
    | inl exempt ↦ rw exempt h
    | inr e ↦ elim (Option-cases (threshold_of w r)) [
      | inl pinned ↦ rw (e, pinned) h
      | inr (threshold, t) ↦ elim (Bool-cases (count w.activity r.id == 0)) [
        | inr used ↦ rw (e, t, used) h
        | inl unused ↦ elim (Option-cases (idle_seconds w.activity r.id (now w))) [
          | inl unknown ↦ rw (e, t, unused, unknown) h
          | inr (i, known) ↦ elim (Bool-cases (is_less i threshold || has_awake_dependent w r)) [
            | inl early ↦ rw (e, t, unused, known, early) h
            | inr due ↦
                rw (e, t, unused, known, due)
                  (guard_step-IsSafe w r threshold i log
                    (record {
                      runs = ground arith;
                      no_queue = ground arith;
                      not_pinned = t;
                      unconnected = ground arith;
                      idles = known;
                      long_idle = ground arith;
                      independent = ground arith;
                    })
                    h)
          ]
        ]
      ]
    ]
  ]

  pass-IsSafe :
      (w : World) (rs : List Resource) (log : List Stop)
      → All (IsSafe guard now) log
      → All (IsSafe guard now) (pass guard stop now w rs log).1
  unfolding pass
  pass-IsSafe w [] log h = h
  pass-IsSafe w (r ∷ rs) log h =
      let (w1, log1) = consider guard stop w (now w) r log in
      pass-IsSafe w1 rs log1 (consider-IsSafe w r log h)

  -- Whatever lands while the guards are asked, each resource that a pass stops was, when listed,
  -- running, no queue, of a project that is neither pinned nor released, and without connections,
  -- idle for its threshold; its guard then answered idle; and when it was stopped it still stood
  -- in the store as running, without connections, and with no awake app or worker bound to it.
  pub tick-IsSafe : (w : World) → All (IsSafe guard now) (tick guard stop now w).1
  unfolding tick
  tick-IsSafe w = pass-IsSafe w w.resources [] tt
