-- ===== src/Service/Worker/Tick.antt =====
-- Two phases of `Tick` in internal/service/service.go: the observation of a domain, and the pending
-- bindings.
use platform_ipam.Prelude.{
  ℕ, String, List, [], ◌∷◌, Bool, false, not, ◌&&◌, ◌||◌, Option, none, some, ◌==◌, string_eq,
  lookup, insert, if◌then◌else◌,
}
use platform_ipam.Domain.Policy.{Config, Domain}
use platform_ipam.Domain.Errors.{Result, ok, err}
use platform_ipam.Domain.Rows.{
  Allocation, Operation, Binding, Observation, Finding, is_pending, is_bind,
}
use platform_ipam.Domain.State.{State}
use platform_ipam.Service.Digests.{Digests, finding_id}
use platform_ipam.Service.Eligible.{domain_for}
use platform_ipam.Service.Observe.{record_observation, trusted_observation, binding_observed}
use platform_ipam.Service.Lifecycle.{Stamp, finish_binding}
use platform_ipam.Service.Reclaim.{resource_of}
use platform_ipam.Service.Worker.{observe}
use platform_ipam.Service.Worker.Reconcile.{is_reconciled}

abbrev incomplete : Domain → ℕ → String → Observation
incomplete d now error = record {
  domain_id = d.id;
  generation = d.coverage_generation;
  complete = false;
  started_at = 0;
  finished_at = now;
  resources = [];
  error = error;
}

-- What is recorded of an answer; `text` is that of its error.
unfoldable pub observed_or_failed : Domain → ℕ → String → Result (Option Observation) → Observation
observed_or_failed d now text (ok (some o)) = o
observed_or_failed d now text (ok none) = incomplete d now ""
observed_or_failed d now text (err e) = incomplete d now text

unfoldable pub falls_short : Domain → Observation → Bool
falls_short d o = not o.complete || not (o.generation == d.coverage_generation)

abbrev new_blind : String → String → Domain → Allocation → ℕ → Finding
new_blind key id d a at = record {
  id = key;
  tenant_id = a.tenant_id;
  domain_id = d.id;
  allocation_id = id;
  code = "coverage_incomplete";
  severity = "WARNING";
  status = "OPEN";
  account_id = "";
  region = "";
  resource_type = "";
  resource_id = "";
  first_observed_at = at;
  last_observed_at = at;
}

abbrev blind_again : Option Finding → Finding → Finding
blind_again none fresh = fresh
blind_again (some f) fresh = if f.id == "" then fresh else f

-- One round of the loop over the allocations.
unfoldable pub flag_blind : Digests → Domain → Observation → String → Allocation → State → State
unfolding finding_id falls_short
flag_blind h d o id a st =
    let key = finding_id h "coverage_incomplete" id in
    let f = blind_again (lookup key st.findings) (new_blind key id d a o.finished_at) in
    if a.domain_id == d.id && is_reconciled a && falls_short d o
    then record st {
      findings =
          insert key (record f { last_observed_at = o.finished_at; status = "OPEN" }) st.findings;
    }
    else st

unfoldable pub flag_all_blind :
    Digests → Domain → Observation → List (String × Allocation) → State → State
unfolding flag_blind
flag_all_blind h d o [] st = st
flag_all_blind h d o ((id, a) ∷ rest) st = flag_all_blind h d o rest (flag_blind h d o id a st)

-- The transaction of one domain.
unfoldable pub record_tick :
    Digests → Domain → ℕ → String → Result (Option Observation) → State → State
unfolding observed_or_failed flag_all_blind
record_tick h d now text answer st =
    let o = observed_or_failed d now text answer in
    let st' = record_observation st o in flag_all_blind h d o st'.allocations st'

-- A pending binding with what the worker reads of its allocation.
pub record BindingJob : Type 0 where
  pub allocation : Allocation
  pub operation : Operation
  pub candidate : Binding
  pub parent : String

abbrev parent_id : State → Allocation → String
parent_id st a = elim (lookup a.parent_allocation_id st.allocations) [
  | none ↦ ""
  | some parent ↦ resource_of parent.binding
]

abbrev is_waiting : Operation → Bool
is_waiting o = is_pending o.status && is_bind o.type

-- The read of the pending bindings.
unfoldable pub binding_jobs : State → List Operation → List BindingJob
binding_jobs st [] = []
binding_jobs st (o ∷ os) =
    let rest = binding_jobs st os in
    elim o.candidate [
      | none ↦ rest
      | some b ↦ elim (lookup o.allocation_id st.allocations) [
        | none ↦ rest
        | some a ↦
            if is_waiting o
            then record { allocation = a; operation = o; candidate = b; parent = parent_id st a }
              ∷ rest
            else rest
      ]
    ]

abbrev left_by {ℓ} : {A : Type ℓ} → Result (A × State) → State → State
left_by (err e) st = st
left_by (ok (a, st')) st = st'

-- One pending binding against a fresh observation; whatever `finishBinding` answers is dropped.
unfoldable pub complete_binding :
    Config → BindingJob → Option (Result Observation) → ℕ → Stamp → State → State
unfolding observe
complete_binding cfg j answer now stamp st =
    let d = domain_for cfg j.operation.domain_id in
    let a = j.allocation in
    elim (observe answer d) [
      | err e ↦ st
      | ok none ↦ st
      | ok (some o) ↦
          if trusted_observation o d now cfg.lifecycle.max_observation_age
            && binding_observed o j.candidate a.id a.allocation_key a.cidr a.availability_zone_id
                j.parent
          then left_by (finish_binding a.id j.operation j.candidate stamp st) st
          else st
    ]
