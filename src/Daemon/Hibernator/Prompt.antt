-- ===== src/Daemon/Hibernator/Prompt.antt =====
-- A pass stops what nobody uses.
use hobbyist.Base.{
  Bool, String, str_eq, str_eq_iff, any, branch, ◌⊎◌, Option, none, ℕ, ◌≡◌, refl, sym, subst, true,
  false, not, ◌||◌, List, [], ◌∷◌, ◌++◌, some, if◌then◌else◌, ◌==◌, arith, ◌∙◌, ap, Bool-cases, inl,
  inr,
}
use hobbyist.Core.Types.{Resource, kind, is_running, is_queue}
use hobbyist.Proxy.Activity.{Idle, is_less, count, idle_seconds}
use hobbyist.Daemon.World.{World, get_resource}
use hobbyist.Daemon.Hibernator.{
  ActivityGuardResult, idle, is_idle, should_sleep, has_awake_dependent, threshold_of, Stop,
  stop_step, guard_step, consider, pass, tick,
}
use hobbyist.Daemon.Hibernator.Safe.{IsCandidate, IsFree}

get_resource-id :
    (id : String) (rs : List Resource) (r : Resource) → get_resource rs id ≡ some r → r.id ≡ id
unfolding get_resource
get_resource-id id [] r e = absurd (ground (arith, e))
get_resource-id id (x ∷ rs) r e = elim (Bool-cases (str_eq x.id id)) [
  | inl here ↦
      let same : x ≡ r = ground (arith, here, e) in
      sym (ap (λ y. y.id) same) ∙ (str_eq_iff x.id id).0 here
  | inr other ↦ get_resource-id id rs r (ground (arith, other, e))
]

module _ (guard : World → Resource → ActivityGuardResult × World) (stop : World → Resource → World)
    (now : World → ℕ) where
  abbrev pub stop_of : World → World → Resource → Resource → ℕ → Idle → Stop
  stop_of w w1 r fresh threshold i = record {
    listed = r;
    resource = fresh;
    threshold = threshold;
    idle_for = i;
    before = w;
    at = w1;
  }

  guard_step_idle :
      (w w1 : World) (r : Resource) (threshold : ℕ) (i : Idle) (log : List Stop)
      → IsCandidate w (now w) r threshold i
      → guard w r ≡ (idle, w1)
      → guard_step guard stop w r threshold i log ≡ stop_step guard stop w w1 r threshold i log
  unfolding guard_step should_sleep
  guard_step_idle w w1 r threshold i log c a =
      subst
        (λ x.
          (if should_sleep (record {
            state = r.state;
            connections = count w.activity r.id;
            idle_seconds = some i;
            sleep_after_seconds = some threshold;
            has_active_query = not (is_idle x.0);
          })
            then stop_step guard stop w x.1 r threshold i log
            else (x.1, log))
          ≡ stop_step guard stop w w1 r threshold i log)
        (sym a) (rw (c.runs, c.unconnected, c.long_idle) refl)

  stop_step_free :
      (w w1 : World) (r fresh : Resource) (threshold : ℕ) (i : Idle) (log : List Stop)
      → IsFree w1 r fresh
      → stop_step guard stop w w1 r threshold i log
        ≡ (stop w1 fresh, log ++ stop_of w w1 r fresh threshold i ∷ [])
  unfolding stop_step
  stop_step_free w w1 r fresh threshold i log f =
      rw (f.unconnected, f.stored, f.runs, f.independent) refl

  -- A resource that is a candidate, whose guard answers idle, and which is then still free, is
  -- stopped once: the stop gets the resource as the store has it after the guard has answered.
  consider_stops :
      (w w1 : World) (r fresh : Resource) (threshold : ℕ) (i : Idle) (log : List Stop)
      → IsCandidate w (now w) r threshold i
      → guard w r ≡ (idle, w1)
      → IsFree w1 r fresh
      → consider guard stop w (now w) r log
        ≡ (stop w1 fresh, log ++ stop_of w w1 r fresh threshold i ∷ [])
  unfolding consider
  consider_stops w w1 r fresh threshold i log c a f =
      rw (c.runs, c.no_queue, c.not_pinned, c.unconnected, c.idles, c.long_idle, c.independent)
        (guard_step_idle w w1 r threshold i log c a ∙ stop_step_free w w1 r fresh threshold i log f)

  -- What `consider` comes to: nothing, the guard's call, or a stop of the row that the store has.
  consider_cases :
      (P : World × List Stop → Type 0) (w : World) (x : Resource) (log : List Stop)
      → P (w, log)
      → P ((guard w x).1, log)
      → ((fresh : Resource) (s : Stop)
          → s.listed ≡ x
          → get_resource (guard w x).1.resources x.id ≡ some fresh
          → P (stop (guard w x).1 fresh, log ++ s ∷ []))
      → P (consider guard stop w (now w) x log)
  unfolding consider guard_step stop_step
  consider_cases P w x log same asked stopped =
      branch P (not (is_running x.state) || is_queue (kind x)) (λ e. same)
        λ e. project (threshold_of w x)
    where
      stored :
          (threshold : ℕ) (i : Idle) → P (stop_step guard stop w (guard w x).1 x threshold i log)
      stored threshold i =
          branch P (not (count (guard w x).1.activity x.id == 0)) (λ e. asked)
            λ e. row (get_resource (guard w x).1.resources x.id) refl
        where
          row :
              (o : Option Resource)
              → get_resource (guard w x).1.resources x.id ≡ o
              → P (elim o [
                | none ↦ ((guard w x).1, log)
                | some fresh ↦
                    if not (is_running fresh.state) || has_awake_dependent (guard w x).1 fresh
                    then ((guard w x).1, log)
                    else (
                      stop (guard w x).1 fresh,
                      log ++ stop_of w (guard w x).1 x fresh threshold i ∷ [],
                    )
              ])
          row none e = asked
          row (some fresh) e =
              branch P (not (is_running fresh.state) || has_awake_dependent (guard w x).1 fresh)
                (λ d. asked)
                (λ d. stopped fresh (stop_of w (guard w x).1 x fresh threshold i) refl e)

      known :
          (threshold : ℕ) (o : Option Idle)
          → P (elim o [
            | none ↦ (w, log)
            | some i ↦
                if is_less i threshold || has_awake_dependent w x
                then (w, log)
                else guard_step guard stop w x threshold i log
          ])
      known threshold none = same
      known threshold (some i) =
          branch P (is_less i threshold || has_awake_dependent w x) (λ e. same)
            λ e. branch P (should_sleep _) (λ e. stored threshold i) (λ e. asked)

      project :
          (o : Option ℕ)
          → P (elim o [
            | none ↦ (w, log)
            | some threshold ↦
                if not (count w.activity x.id == 0)
                then (w, log)
                else elim (idle_seconds w.activity x.id (now w)) [
                  | none ↦ (w, log)
                  | some i ↦
                      if is_less i threshold || has_awake_dependent w x
                      then (w, log)
                      else guard_step guard stop w x threshold i log
                ]
          ])
      project none = same
      project (some threshold) =
          branch P (not (count w.activity x.id == 0)) (λ e. same)
            λ e. known threshold (idle_seconds w.activity x.id (now w))

  module _ (r : Resource) where
    -- A pass would stop the resource: it stands in the store as it is listed, running, of a project
    -- that is neither pinned nor released, no queue, without connections, idle for its threshold, and
    -- with no awake app or worker bound to it.
    pub record IsDue (w : World) : Type 0 where
      pub threshold : ℕ
      pub idle_for : Idle
      pub candidate : IsCandidate w (now w) r threshold idle_for
      pub stored : get_resource w.resources r.id ≡ some r

    abbrev pub is_stopped : List Stop → Bool
    is_stopped = any (λ s. str_eq s.listed.id r.id)

    stopped_later :
        (log : List Stop) (s : Stop) → is_stopped log ≡ true → is_stopped (log ++ s ∷ []) ≡ true
    stopped_later [] s h = absurd (ground (arith, h))
    stopped_later (x ∷ log) s h = elim (Bool-cases (str_eq x.listed.id r.id)) [
      | inl here ↦ ground (arith, here)
      | inr other ↦ ground (arith, other, stopped_later log s (ground (arith, h, other)))
    ]

    stopped_last :
        (log : List Stop) (s : Stop)
        → str_eq s.listed.id r.id ≡ true
        → is_stopped (log ++ s ∷ []) ≡ true
    stopped_last [] s h = ground (arith, h)
    stopped_last (x ∷ log) s h = ground (arith, stopped_last log s h)

    module _ (guard_leaves : (w : World) (x : Resource) → IsDue w → IsDue (guard w x).1)
        (stop_leaves : (w : World) (x : Resource)
          → str_eq x.id r.id ≡ false
          → IsDue w
          → IsDue (stop w x))
        (answers : (w : World) → IsDue w → (guard w r).0 ≡ idle) where
      abbrev Goes : World × List Stop → Type 0
      Goes (w, log) = (is_stopped log ≡ true) ⊎ IsDue w

      consider-Goes :
          (w : World) (x : Resource) (log : List Stop)
          → Goes (w, log)
          → Goes (consider guard stop w (now w) x log)
      consider-Goes w x log (inl gone) =
          consider_cases Goes w x log (inl gone) (inl gone)
            λ fresh s e f. inl (stopped_later log s gone)
      consider-Goes w x log (inr due) =
          consider_cases Goes w x log (inr due) (inr (guard_leaves w x due)) λ fresh s e f.
            elim (Bool-cases (str_eq x.id r.id)) [
              | inl here ↦ inl (stopped_last log s (ap (λ y. str_eq y.id r.id) e ∙ here))
              | inr other ↦ inr (
                  stop_leaves (guard w x).1 fresh
                    (subst (λ i. str_eq i r.id ≡ false) (sym (get_resource-id x.id _ fresh f))
                      other)
                    (guard_leaves w x due))
            ]

      -- At its turn the resource is stopped, if it was not before.
      turn_stops :
          (w : World) (log : List Stop)
          → Goes (w, log)
          → is_stopped (consider guard stop w (now w) r log).1 ≡ true
      turn_stops w log (inl gone) =
          consider_cases (λ p. is_stopped p.1 ≡ true) w r log gone gone
            λ fresh s e f. stopped_later log s gone
      turn_stops w log (inr due) =
          let after = guard_leaves w r due in
          let stops =
            consider_stops w (guard w r).1 r r due.threshold due.idle_for log due.candidate
              (ap (λ a. (a, (guard w r).1)) (answers w due))
              (record {
                unconnected = after.candidate.unconnected;
                stored = after.stored;
                runs = after.candidate.runs;
                independent = after.candidate.independent;
              }) in
          subst (λ p. is_stopped p.1 ≡ true) (sym stops)
            (stopped_last log _ ((str_eq_iff r.id r.id).1 refl))

      pass_after :
          (w : World) (rs : List Resource) (log : List Stop)
          → is_stopped log ≡ true
          → is_stopped (pass guard stop now w rs log).1 ≡ true
      unfolding pass
      pass_after w [] log gone = gone
      pass_after w (x ∷ rs) log gone =
          let (w1, log1) = consider guard stop w (now w) x log in
          pass_after w1 rs log1 (
            consider_cases (λ p. is_stopped p.1 ≡ true) w x log gone gone
              λ fresh s e f. stopped_later log s gone)

      pass_stops :
          (before after : List Resource) (w : World) (log : List Stop)
          → Goes (w, log)
          → is_stopped (pass guard stop now w (before ++ r ∷ after) log).1 ≡ true
      unfolding pass
      pass_stops [] after w log h =
          let (w1, log1) = consider guard stop w (now w) r log in
          pass_after w1 after log1 (turn_stops w log h)
      pass_stops (x ∷ before) after w log h =
          let (w1, log1) = consider guard stop w (now w) x log in
          pass_stops before after w1 log1 (consider-Goes w x log h)

      -- A resource of the listing that a pass would stop when it begins, and that guards and the
      -- stops of other resources leave so, is stopped by the pass, wherever it stands in the listing,
      -- if its guard answers idle.
      pub tick_stops :
          (before after : List Resource) (w : World)
          → w.resources ≡ before ++ r ∷ after
          → IsDue w
          → is_stopped (tick guard stop now w).1 ≡ true
      unfolding tick
      tick_stops before after w listed due =
          subst (λ l. is_stopped (pass guard stop now w l []).1 ≡ true) (sym listed)
            (pass_stops before after w [] (inr due))
