-- ===== src/Domain/State.antt =====
-- `domain.State`, and reads of its maps.
use platform_ipam.Prelude.{String, List, [], Option, none, some, lookup}
use platform_ipam.Domain.Rows.{
  Allocation, Operation, Idempotency, Observation, Finding, Event, zero_allocation, zero_operation,
}

pub record State : Type 0 where
  pub allocations : List (String × Allocation)
  pub operations : List (String × Operation)
  pub requests : List (String × Idempotency)
  pub observations : List (String × List Observation)
  pub findings : List (String × Finding)
  pub events : List Event
  pub coverage : List (String × String)

-- `domain.NewState`
unfoldable pub new_state : State
new_state = record {
  allocations = [];
  operations = [];
  requests = [];
  observations = [];
  findings = [];
  events = [];
  coverage = [];
}

abbrev pub or_zero {ℓ} : {A : Type ℓ} → A → Option A → A
or_zero z none = z
or_zero z (some a) = a

-- `st.Allocations[id]` and its kin, with the zero value where the key is missing.
abbrev pub allocation_at : State → String → Allocation
allocation_at st id = or_zero zero_allocation (lookup id st.allocations)

abbrev pub operation_at : State → String → Operation
operation_at st id = or_zero zero_operation (lookup id st.operations)

abbrev pub observations_at : State → String → List Observation
observations_at st id = or_zero [] (lookup id st.observations)
