-- ===== src/Core/Ports/Probed.antt =====
-- The search that also asks the host ends, and what it gives out is free in both senses.
use hobbyist.Base.{
  ℕ, zero, suc, ◌+◌, ◌-◌, ◌≤◌, ◌<◌, ◌≡◌, refl, Bool, true, false, ◌==◌, List, [], ◌∷◌, ◌++◌, Option,
  some, arith, Bool-cases, inl, inr, ◌⊎◌,
}
use hobbyist.Core.Types.{Resource}
use hobbyist.Core.Ports.{
  stored_ports, is_taken, allocate_port, Allocation, allocated, conflict, probe_loop,
  allocate_host_port,
}
use hobbyist.Core.Ports.Fresh.{
  Found, found, exhausted, allocate_port-Found, count_free, is_taken-insert, count_free-insert-lt,
  count_free-le,
}

module _ (probe : ℕ → ℕ → Bool) (rows : List Resource) (from to : ℕ) where
  abbrev IsHeld : List ℕ → ℕ → Type 0
  IsHeld exclude q = is_taken (exclude ++ stored_ports rows) q ≡ true

  abbrev IsBusy : ℕ → Type 0
  IsBusy q = (attempt : ℕ) × (probe attempt q ≡ false)

  -- A port of the range that no row holds, that the caller does not exclude, and that the host says
  -- is free; or an error, where each port of the range is held or the host says is not.
  pub data Probed (exclude : List ℕ) : Allocation → Type 0 where
    given :
        (p attempt : ℕ)
        → from ≤ p
        → p ≤ to
        → is_taken (exclude ++ stored_ports rows) p ≡ false
        → probe attempt p ≡ true
        → Probed exclude (allocated p)
    none_left :
        ((q : ℕ) → from ≤ q → q ≤ to → IsHeld exclude q ⊎ IsBusy q) → Probed exclude conflict

  -- What the loop has added to `taken` was busy.
  record IsExtended (exclude taken : List ℕ) : Type 0 where
    wider : (q : ℕ) → IsHeld exclude q → IsHeld taken q
    busy : (q : ℕ) → IsHeld taken q → IsHeld exclude q ⊎ IsBusy q

  extend :
      (exclude taken : List ℕ) (p attempt : ℕ)
      → probe attempt p ≡ false
      → IsExtended exclude taken
      → IsExtended exclude (taken ++ p ∷ [])
  extend exclude taken p attempt refused x = record {
    wider = λ q h. rw (is_taken-insert taken (stored_ports rows) p q, x.wider q h) refl;
    busy = λ q h. elim (Bool-cases (p == q)) [
      | inl same ↦ let equal : p ≡ q = ground arith in inr (attempt, rw (← equal) refused)
      | inr other ↦ x.busy q (ground (arith, is_taken-insert taken (stored_ports rows) p q))
    ];
  }

  free_of_wider :
      (exclude taken : List ℕ) (q : ℕ)
      → IsExtended exclude taken
      → is_taken (taken ++ stored_ports rows) q ≡ false
      → is_taken (exclude ++ stored_ports rows) q ≡ false
  free_of_wider exclude taken q x free =
      elim (Bool-cases (is_taken (exclude ++ stored_ports rows) q)) [
        | inr fine ↦ fine
        | inl held ↦ let also = x.wider q held in ground (arith, also, free)
      ]

  probe_loop-Probed :
      (exclude : List ℕ) (fuel attempt : ℕ) (taken : List ℕ)
      → count_free (taken ++ stored_ports rows) from (to + 1 - from) < fuel
      → IsExtended exclude taken
      → Probed exclude (probe_loop probe rows from to fuel attempt taken)
  unfolding probe_loop allocate_port
  probe_loop-Probed exclude zero attempt taken few x = absurd (omega arith)
  probe_loop-Probed exclude (suc fuel) attempt taken few x =
      go (allocate_port rows from to taken) refl (allocate_port-Found rows from to taken)
        (λ p e refused.
          probe_loop-Probed exclude fuel (attempt + 1) (taken ++ p ∷ [])
            (ground
              (arith, count_free-insert-lt taken (stored_ports rows) p from (to + 1 - from) e, few))
            (extend exclude taken p attempt refused x))
    where
      go :
          (o : Option ℕ)
          → allocate_port rows from to taken ≡ o
          → Found (taken ++ stored_ports rows) from (to + 1 - from) o
          → ((p : ℕ)
              → allocate_port rows from to taken ≡ some p
              → probe attempt p ≡ false
              → Probed exclude (probe_loop probe rows from to fuel (attempt + 1) (taken ++ p ∷ [])))
          → Probed exclude (probe_loop probe rows from to (suc fuel) attempt taken)
      go (_) e (exhausted all) ih =
          rw (probe_loop, e) (none_left (λ q a b. x.busy q (all q a (omega arith))))
      go (_) e (found p a b free least) ih = elim (Bool-cases (probe attempt p)) [
        | inl free_now ↦
            rw (probe_loop, e, free_now)
              (given p attempt a (omega arith) (free_of_wider exclude taken p x free) free_now)
        | inr refused ↦ rw (probe_loop, e, refused) (ih p e refused)
      ]

  -- With as many rounds as the range has ports, and one more, the loop over candidates ends, and
  -- gives a port of the range that no row holds, that the caller does not exclude and that a probe
  -- found free, or an error where each port of the range is held, excluded or was found busy.
  pub allocate_host_port-Probed :
      (fuel : ℕ) (exclude : List ℕ)
      → to + 1 - from < fuel
      → Probed exclude (allocate_host_port probe rows from to fuel exclude)
  unfolding allocate_host_port
  allocate_host_port-Probed fuel exclude enough =
      probe_loop-Probed exclude fuel 0 exclude
        (ground (arith, count_free-le (exclude ++ stored_ports rows) from (to + 1 - from), enough))
        (record { wider = λ q h. h; busy = λ q h. inl h })
