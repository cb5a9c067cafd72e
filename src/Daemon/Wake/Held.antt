-- ===== src/Daemon/Wake/Held.antt =====
-- While a resource is refused, no piece of any wake starts it.
use hobbyist.Base.{
  ℕ, ◌<◌, ◌≡◌, refl, ap, subst, ◌∙◌, Bool, true, false, not, ◌&&◌, ◌==◌, ltb, String, str_eq,
  str_eq_iff, Text, List, [], ◌∷◌, all, keep, Option, none, some, is_some, if◌then◌else◌, arith,
  branch, Bool-cases, inl, inr,
}
use hobbyist.Base.Maps.{get, remove, get-put, get-remove}
use hobbyist.Core.Types.{Resource, is_running}
use hobbyist.Daemon.World.{World, get_resource, bound_database}
use hobbyist.Daemon.Wake.{
  WakeRefusal, Phase, at_fence, at_database, at_start, settled, Waking, is_refused_by,
  is_wake_refused, clear_wake_refusal, enter, check_row, wake_if_asleep, behind_fence, begin,
  wake_database, wake_bound_database, to_database, wake, after_fence, after_database, refusal_after,
  after_start, Piece, called, fence_opened, database_settled, start_settled, finished, cleared,
  Event, resume, apply, run,
}

abbrev pub lasts_until : ℕ → Option WakeRefusal → Bool
lasts_until retry none = false
lasts_until retry (some refusal) = refusal.retry_at == retry

-- No attempt is under way.
abbrev pub is_idle : Option Phase → Bool
is_idle none = true
is_idle (some settled) = true
is_idle (some _) = false

abbrev pub starts_of : String → Waking → List (String × ℕ)
starts_of id s = keep (λ p. str_eq p.0 id) s.starts

abbrev pub is_clear_of : String → Event → Bool
is_clear_of id e = elim e.piece [ cleared ↦ str_eq e.id id | _ ↦ false ]

module _ (id : String) (retry : ℕ) (log : List (String × ℕ)) where
  -- The resource is refused until `retry`, no attempt is under way, and its starts are those of `log`.
  pub record IsHeld (s : Waking) : Type 0 where
    pub refused : lasts_until retry (get id s.refusals) ≡ true
    pub idle : is_idle (get id s.in_flight) ≡ true
    pub quiet : starts_of id s ≡ log

  enter_other-IsHeld :
      (other : String) (p : Phase) (s : Waking)
      → str_eq other id ≡ false
      → IsHeld s
      → IsHeld (enter other p s)
  enter_other-IsHeld other p s d held = record {
    refused = held.refused;
    idle = ground (arith, get-put other id p s.in_flight, d, held.idle);
    quiet = held.quiet;
  }

  enter_settled-IsHeld : (other : String) (s : Waking) → IsHeld s → IsHeld (enter other settled s)
  enter_settled-IsHeld other s held = record {
    refused = held.refused;
    idle = ground (arith, get-put other id settled s.in_flight, held.idle);
    quiet = held.quiet;
  }

  clear_other-IsHeld :
      (other : String) (s : Waking)
      → str_eq other id ≡ false
      → IsHeld s
      → IsHeld (clear_wake_refusal other s)
  clear_other-IsHeld other s d held = record {
    refused = ground (arith, get-remove other id s.refusals, d, held.refused);
    idle = held.idle;
    quiet = held.quiet;
  }

  held_refused :
      (o : Option WakeRefusal) (now : ℕ)
      → now < retry
      → lasts_until retry o ≡ true
      → is_refused_by o now ≡ true
  held_refused none now h l = absurd (ground (arith, l))
  held_refused (some refusal) now h l = ground (arith, h, l)

  apart :
      (other : String) (now : ℕ) (s : Waking)
      → now < retry
      → IsHeld s
      → is_wake_refused s other now ≡ false
      → str_eq other id ≡ false
  apart other now s early held f = elim (Bool-cases (str_eq other id)) [
    | inr d ↦ d
    | inl e ↦
        let same : is_wake_refused s id now ≡ false =
          subst (λ i. is_wake_refused s i now ≡ false) ((str_eq_iff other id).0 e) f in
        absurd (ground (arith, same, held_refused (get id s.refusals) now early held.refused))
  ]

  -- Only the wake of another resource gets behind the checks.
  check_row-IsHeld :
      (blocks_wake : String → Bool) (now : ℕ) (other : String) (go_on : Resource → Waking → Waking)
      (o : Option Resource) (s : Waking)
      → now < retry
      → (str_eq other id ≡ false → (r : Resource) → IsHeld (go_on r s))
      → IsHeld s
      → IsHeld (check_row blocks_wake now other go_on o s)
  unfolding check_row
  check_row-IsHeld blocks_wake now other go_on none s early go held =
      enter_settled-IsHeld other s held
  check_row-IsHeld blocks_wake now other go_on (some r) s early go held =
      branch IsHeld (is_wake_refused s other now) (λ f. enter_settled-IsHeld other s held)
        λ f.
          let d : str_eq other id ≡ false = apart other now s early held f in
          branch IsHeld (blocks_wake r.project_id) (λ g. enter_other-IsHeld other at_fence s d held)
            (λ g. go d r)

  begin-IsHeld :
      (w : World) (blocks_wake : String → Bool) (now : ℕ) (other : String)
      (go_on : Resource → Waking → Waking) (s : Waking)
      → now < retry
      → (str_eq other id ≡ false → (r : Resource) → IsHeld (go_on r s))
      → IsHeld s
      → IsHeld (begin w blocks_wake now other go_on s)
  unfolding begin
  begin-IsHeld w blocks_wake now other go_on s early go held =
      branch IsHeld (is_some (get other s.in_flight)) (λ e. held)
        λ e.
          check_row-IsHeld blocks_wake now other go_on (get_resource w.resources other) s early go
            held

  wake_if_asleep-IsHeld :
      (w : World) (blocks_wake : String → Bool) (now : ℕ) (o : Option Resource) (s : Waking)
      → now < retry
      → IsHeld s
      → IsHeld (wake_if_asleep w blocks_wake now o s)
  unfolding wake_if_asleep wake_database
  wake_if_asleep-IsHeld w blocks_wake now none s early held = held
  wake_if_asleep-IsHeld w blocks_wake now (some database) s early held =
      branch IsHeld (is_running database.state) (λ e. held)
        λ e.
          begin-IsHeld w blocks_wake now database.id _ s early
            (λ d r. enter_other-IsHeld database.id at_database s d held) held

  to_database-IsHeld :
      (w : World) (blocks_wake : String → Bool) (now : ℕ) (other : String) (r : Resource)
      (s : Waking)
      → now < retry
      → str_eq other id ≡ false
      → IsHeld s
      → IsHeld (to_database w blocks_wake now other r s)
  unfolding wake_bound_database
  to_database-IsHeld w blocks_wake now other r s early d held =
      enter_other-IsHeld other at_database _ d
        (wake_if_asleep-IsHeld w blocks_wake now (bound_database w r) s early held)

  wake-IsHeld :
      (w : World) (blocks_wake : String → Bool) (now : ℕ) (other : String) (s : Waking)
      → now < retry
      → IsHeld s
      → IsHeld (wake w blocks_wake now other s)
  unfolding wake
  wake-IsHeld w blocks_wake now other s early held =
      begin-IsHeld w blocks_wake now other _ s early
        (λ d r. to_database-IsHeld w blocks_wake now other r s early d held) held

  behind_fence-IsHeld :
      (w : World) (blocks_wake : String → Bool) (now : ℕ) (other : String) (o : Option Resource)
      (s : Waking)
      → now < retry
      → str_eq other id ≡ false
      → IsHeld s
      → IsHeld (behind_fence w blocks_wake now other o s)
  unfolding behind_fence
  behind_fence-IsHeld w blocks_wake now other none s early d held =
      enter_settled-IsHeld other s held
  behind_fence-IsHeld w blocks_wake now other (some r) s early d held =
      branch IsHeld (is_running r.state)
        (λ e. enter_settled-IsHeld other _ (clear_other-IsHeld other s d held))
        (λ e. to_database-IsHeld w blocks_wake now other r s early d held)

  after_database-IsHeld :
      (now : ℕ) (other : String) (succeeded : Bool) (s : Waking)
      → str_eq other id ≡ false
      → IsHeld s
      → IsHeld (after_database now other succeeded s)
  unfolding after_database
  after_database-IsHeld now other true s d held =
      enter_other-IsHeld other at_start (record s { starts = (other, now) ∷ s.starts }) d
        (record { refused = held.refused; idle = held.idle; quiet = ground (arith, d, held.quiet) })
  after_database-IsHeld now other false s d held = enter_settled-IsHeld other s held

  after_start-IsHeld :
      (now : ℕ) (other : String) (error : Option Text) (s : Waking)
      → str_eq other id ≡ false
      → IsHeld s
      → IsHeld (after_start now other error s)
  unfolding after_start
  after_start-IsHeld now other none s d held =
      enter_settled-IsHeld other _ (clear_other-IsHeld other s d held)
  after_start-IsHeld now other (some last_error) s d held = enter_settled-IsHeld other _ (record {
    refused = ground (
      arith,
      get-put other id (refusal_after now last_error (get other s.refusals)) s.refusals,
      d,
      held.refused,
    );
    idle = held.idle;
    quiet = held.quiet;
  })

  -- An awaited piece belongs to an attempt that is under way, so to another resource.
  awaited_apart :
      (other : String) (p : Phase) (s : Waking)
      → get other s.in_flight ≡ some p
      → is_idle (some p) ≡ false
      → IsHeld s
      → str_eq other id ≡ false
  awaited_apart other p s e busy held = elim (Bool-cases (str_eq other id)) [
    | inr d ↦ d
    | inl same ↦
        let there : get id s.in_flight ≡ some p =
          subst (λ i. get i s.in_flight ≡ some p) ((str_eq_iff other id).0 same) e in
        absurd (ground (arith, ap is_idle there, held.idle, busy))
  ]

  finished-IsHeld :
      (other : String) (s : Waking)
      → IsHeld s
      → IsHeld (record s { in_flight = remove other s.in_flight })
  finished-IsHeld other s held = record {
    refused = held.refused;
    idle = branch_idle (str_eq other id) (get-remove other id s.in_flight);
    quiet = held.quiet;
  }
    where
      branch_idle :
          (b : Bool)
          → get id (remove other s.in_flight) ≡ (if b then none else get id s.in_flight)
          → is_idle (get id (remove other s.in_flight)) ≡ true
      branch_idle true e = ap is_idle e
      branch_idle false e = ap is_idle e ∙ held.idle

  resume-IsHeld :
      (now : ℕ) (other : String) (piece : Piece) (phase : Option Phase) (s : Waking)
      → get other s.in_flight ≡ phase
      → now < retry
      → is_clear_of id (record { at = now; id = other; piece = piece }) ≡ false
      → IsHeld s
      → IsHeld (resume now other piece phase s)
  unfolding resume after_fence
  resume-IsHeld now other (called w blocks_wake) phase s e early kept held =
      wake-IsHeld w blocks_wake now other s early held
  resume-IsHeld now other (fence_opened w blocks_wake) (some at_fence) s e early kept held =
      behind_fence-IsHeld w blocks_wake now other (get_resource w.resources other) s early
        (awaited_apart other at_fence s e refl held) held
  resume-IsHeld now other (fence_opened w blocks_wake) (some at_database) s e early kept held = held
  resume-IsHeld now other (fence_opened w blocks_wake) (some at_start) s e early kept held = held
  resume-IsHeld now other (fence_opened w blocks_wake) (some settled) s e early kept held = held
  resume-IsHeld now other (fence_opened w blocks_wake) none s e early kept held = held
  resume-IsHeld now other (database_settled succeeded) (some at_database) s e early kept held =
      after_database-IsHeld now other succeeded s (awaited_apart other at_database s e refl held)
        held
  resume-IsHeld now other (database_settled succeeded) (some at_fence) s e early kept held = held
  resume-IsHeld now other (database_settled succeeded) (some at_start) s e early kept held = held
  resume-IsHeld now other (database_settled succeeded) (some settled) s e early kept held = held
  resume-IsHeld now other (database_settled succeeded) none s e early kept held = held
  resume-IsHeld now other (start_settled error) (some at_start) s e early kept held =
      after_start-IsHeld now other error s (awaited_apart other at_start s e refl held) held
  resume-IsHeld now other (start_settled error) (some at_fence) s e early kept held = held
  resume-IsHeld now other (start_settled error) (some at_database) s e early kept held = held
  resume-IsHeld now other (start_settled error) (some settled) s e early kept held = held
  resume-IsHeld now other (start_settled error) none s e early kept held = held
  resume-IsHeld now other finished (some settled) s e early kept held = finished-IsHeld other s held
  resume-IsHeld now other finished (some at_fence) s e early kept held = held
  resume-IsHeld now other finished (some at_database) s e early kept held = held
  resume-IsHeld now other finished (some at_start) s e early kept held = held
  resume-IsHeld now other finished none s e early kept held = held
  resume-IsHeld now other cleared phase s e early kept held = clear_other-IsHeld other s kept held

  pub run-IsHeld :
      (es : List Event) (s : Waking)
      → all (λ e. ltb e.at retry && not (is_clear_of id e)) es ≡ true
      → IsHeld s
      → IsHeld (run es s)
  unfolding run apply
  run-IsHeld [] s h held = held
  run-IsHeld (e ∷ es) s h held = run-IsHeld es _ (ground (arith, h)) (
      resume-IsHeld e.at e.id e.piece (get e.id s.in_flight) s refl (ground (arith, h))
        (ground (arith, h)) held)
