-- ===== src/Core/Ports.antt =====
-- packages/core/src/store.ts, `allocatePort`, and packages/core/src/ports.ts.
-- The probe asks the operating system, so its answer is a parameter: that of each attempt to each
-- port. The loop of `allocateHostPort` has no bound in the source, and runs on fuel here.
pub mod Fresh
pub mod Probed
use hobbyist.Base.{
  ℕ, zero, suc, ◌+◌, ◌-◌, ◌==◌, Bool, true, false, List, [], ◌∷◌, ◌++◌, Option, none, some, any,
  if◌then◌else◌,
}
use hobbyist.Core.Types.{
  Resource, ResourceConfig, postgres_config, app_config, worker_config, queue_config,
}

-- The two fields that a row's configuration may hold a port under.
abbrev pub ports_of : ResourceConfig → List ℕ
ports_of (postgres_config port) = port ∷ []
ports_of (app_config c) = c.host_port ∷ []
ports_of (worker_config c) = c.host_port ∷ c.control_port ∷ []
ports_of (queue_config c) = c.host_port ∷ []

unfoldable pub stored_ports : List Resource → List ℕ
stored_ports [] = []
stored_ports (r ∷ rs) = ports_of r.config ++ stored_ports rs

abbrev pub is_taken : List ℕ → ℕ → Bool
is_taken taken port = any (λ p. p == port) taken

-- The loop over the range, with the ports left in it.
unfoldable pub first_free : List ℕ → ℕ → ℕ → Option ℕ
first_free taken port zero = none
first_free taken port (suc left) =
    let later = first_free taken (port + 1) left in if is_taken taken port then later else some port

-- `none` is the error `conflict`.
unfoldable pub allocate_port : List Resource → ℕ → ℕ → List ℕ → Option ℕ
allocate_port rows from to exclude = first_free (exclude ++ stored_ports rows) from (to + 1 - from)

pub data Allocation : Type 0 where
  allocated : ℕ → Allocation
  conflict : Allocation
  out_of_fuel : Allocation

module _ (probe : ℕ → ℕ → Bool) (rows : List Resource) (from to : ℕ) where
  unfoldable pub probe_loop : ℕ → ℕ → List ℕ → Allocation
  probe_loop zero attempt taken = out_of_fuel
  probe_loop (suc fuel) attempt taken = elim (allocate_port rows from to taken) [
    | none ↦ conflict
    | some port ↦
        let later = probe_loop fuel (attempt + 1) (taken ++ port ∷ []) in
        if probe attempt port then allocated port else later
  ]

  unfoldable pub allocate_host_port : ℕ → List ℕ → Allocation
  allocate_host_port fuel exclude = probe_loop fuel 0 exclude
