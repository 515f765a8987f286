-- ===== src/Service/Worker/Reconcile.antt =====
-- `reconcileAllocations` of internal/service/worker.go: the ledger against the latest trusted
-- observation of each routing domain.
use platform_ipam.Prelude.{
  ℕ, String, List, [], ◌∷◌, ◌+◌, Bool, true, false, not, ◌&&◌, ◌||◌, Option, none, some, ltb, leb,
  ◌==◌, string_eq, bytes_eq, nat_eq, last?, length, keep_if, lookup, insert, if◌then◌else◌,
}
use platform_ipam.Domain.Policy.{Config, Domain}
use platform_ipam.Domain.Rows.{
  Allocation, Operation, Binding, Resource, Observation, Finding, active, bind_operation, succeeded,
  is_active, is_quarantined, is_released,
}
use platform_ipam.Domain.State.{State, or_zero, allocation_at, observations_at}
use platform_ipam.Domain.Time.{sub, hours}
use platform_ipam.Service.Digests.{Digests}
use platform_ipam.Service.Eligible.{domain_for, pending_for_allocation}
use platform_ipam.Service.Observe.{trusted_observation, observation_conflict, binding_observed}
use platform_ipam.Service.Raise.{worker_finding, worker_event}

-- The codes that a pass raises anew, and so resolves first.
unfoldable pub is_reconciled_code : String → Bool
is_reconciled_code code =
    code == "coverage_incomplete"
    || code == "resource_missing"
    || code == "binding_mismatch"
    || code == "multiple_resource_claims"
    || code == "unmanaged_occupancy"
    || code == "reservation_aged"
    || code == "cloud_occupancy"

unfoldable pub resolve_codes : List (String × Finding) → List (String × Finding)
unfolding is_reconciled_code
resolve_codes [] = []
resolve_codes ((id, f) ∷ rest) =
    (id, if is_reconciled_code f.code then record f { status = "RESOLVED" } else f)
    ∷ resolve_codes rest

-- The latest observation of a domain, where it is trusted.
unfoldable pub latest_trusted : Config → Domain → String → ℕ → State → Option Observation
latest_trusted cfg d id now st = elim (last? (observations_at st id)) [
  | none ↦ none
  | some o ↦ if trusted_observation o d now cfg.lifecycle.max_observation_age then some o else none
]

abbrev pub claim_of : Resource → String
claim_of x = or_zero "" (lookup "platform-ipam:allocation-id" x.tags)

unfoldable pub claimed_by : String → Observation → List Resource
claimed_by id o = keep_if (λ x. claim_of x == id) o.resources

-- The resource of an active and bound parent; an allocation that is no subnet has no parent.
unfoldable pub required_parent : State → Allocation → Option String
required_parent st a =
    if a.scope == "subnet"
    then (let parent = allocation_at st a.parent_allocation_id in
        if not (is_active parent.state)
        then none
        else elim parent.binding [ none ↦ none | some b ↦ some b.resource_id ])
    else some ""

-- What the pass does with a row: nothing, a finding, or a binding.
pub data Decision : Type 0 where
  agrees : Decision
  raises : String → String → Decision
  takes : Binding → Decision

abbrev pub candidate_binding : Allocation → Resource → Binding
candidate_binding a x = record {
  provider = "aws";
  resource_type = a.scope;
  resource_id = x.id;
  account_id = a.account_id;
  region = a.region;
  verified_at = none;
}

abbrev shows : Allocation → Observation → String → Binding → Bool
shows a o parent b = binding_observed o b a.id a.allocation_key a.cidr a.availability_zone_id parent

abbrev pub shows_bound : Allocation → Observation → String → Option Binding → Bool
shows_bound a o parent none = false
shows_bound a o parent (some b) = shows a o parent b

unfoldable pub judge_active : Allocation → Observation → String → List Resource → Decision
judge_active a o parent claimed =
    if shows_bound a o parent a.binding
    then agrees
    else raises (if ltb 0 (length claimed) then "binding_mismatch" else "resource_missing")
        "CRITICAL"

-- A hold that is older than the configured hours is worth a warning.
unfoldable pub judge_unclaimed : Config → ℕ → Allocation → Decision
judge_unclaimed cfg now a =
    let limit = cfg.lifecycle.reservation_age_alert_hours in
    if ltb 0 limit && leb (hours limit) (sub now a.created_at)
    then raises "reservation_aged" "WARNING"
    else agrees

abbrev is_busy : Option Operation → Bool
is_busy none = false
is_busy (some o) = true

unfoldable pub judge_reserved :
    Config → ℕ → State → Allocation → Observation → String → List Resource → Decision
unfolding judge_unclaimed
judge_reserved cfg now st a o parent [] = judge_unclaimed cfg now a
judge_reserved cfg now st a o parent (x ∷ xs) =
    let b = candidate_binding a x in
    if not (shows a o parent b)
    then raises "binding_mismatch" "CRITICAL"
    else if is_busy (pending_for_allocation st a.id)
    then agrees
    else takes (record b { verified_at = some o.finished_at })

-- The row by its state, once the parent is known.
unfoldable pub judge_with : Config → ℕ → State → Allocation → Observation → String → Decision
unfolding judge_active judge_reserved
judge_with cfg now st a o parent =
    let claimed = claimed_by a.id o in
    if is_quarantined a.state
    then if observation_conflict a o parent then raises "cloud_occupancy" "WARNING" else agrees
    else if is_active a.state
    then judge_active a o parent claimed
    else judge_reserved cfg now st a o parent claimed

unfoldable pub judge : Config → ℕ → State → Allocation → Observation → Decision
unfolding judge_with
judge cfg now st a o =
    if ltb 1 (length (claimed_by a.id o))
    then raises "multiple_resource_claims" "CRITICAL"
    else elim (required_parent st a) [
      | none ↦ agrees
      | some parent ↦ judge_with cfg now st a o parent
    ]

-- A row that is bound to what was observed.
abbrev pub bound_observed : Allocation → Binding → ℕ → Allocation
bound_observed a b now = record a {
  binding = some b;
  state = active;
  revision = a.revision + 1;
  updated_at = now;
  inventory_sync = "PENDING";
}

unfoldable pub bind_succeeded : String → Allocation → Binding → ℕ → Operation
bind_succeeded id a b now = record {
  id = id;
  type = bind_operation;
  status = succeeded;
  allocation_id = a.id;
  tenant_id = a.tenant_id;
  domain_id = a.domain_id;
  result = some (("allocation_id", a.id) ∷ []);
  error = none;
  candidate = some b;
  adoption = none;
  created_at = now;
  updated_at = now;
}

-- What `domain.NewID` gives for the operation and the event of an allocation.
abbrev pub NewIds : Type 0
NewIds = String → String × String

unfoldable pub carry_out :
    Digests → ℕ → NewIds → String → Allocation → Observation → Decision → State → State
unfolding bind_succeeded
carry_out h now ids id a o agrees st = st
carry_out h now ids id a o (raises code severity) st =
    worker_finding h a code severity o.finished_at st
carry_out h now ids id a o (takes b) st =
    let row = bound_observed a b now in
    let op = bind_succeeded (ids id).0 row b now in
    worker_event (ids id).1 row "binding_verified" now (record st {
      allocations = insert id row st.allocations;
      operations = insert op.id op st.operations;
    })

abbrev pub seen_at : Allocation → ℕ → Allocation
seen_at a at = record a { last_observed_at = some at }

unfoldable pub is_reconciled : Allocation → Bool
is_reconciled a = a.committed && not (is_released a.state)

-- A row whose domain has a trusted observation.
unfoldable pub sight_row :
    Digests → Config → ℕ → NewIds → String → Allocation → Observation → State → State
unfolding judge carry_out
sight_row h cfg now ids id a o st =
    let st' : State = record st { allocations = insert id a st.allocations } in
    carry_out h now ids id a o (judge cfg now st' a o) st'

-- One round of the loop over the allocations.
unfoldable pub reconcile_row : Digests → Config → ℕ → NewIds → String → Allocation → State → State
unfolding latest_trusted sight_row is_reconciled
reconcile_row h cfg now ids id a st =
    if not (is_reconciled a)
    then st
    else elim (latest_trusted cfg (domain_for cfg a.domain_id) a.domain_id now st) [
      | none ↦ worker_finding h a "coverage_incomplete" "WARNING" now st
      | some o ↦ sight_row h cfg now ids id (seen_at a o.finished_at) o st
    ]

-- Each id of the iteration with the row that the ledger then has under it.
unfoldable pub reconcile_rows :
    Digests → Config → ℕ → NewIds → List (String × Allocation) → State → State
unfolding reconcile_row
reconcile_rows h cfg now ids [] st = st
reconcile_rows h cfg now ids ((id, _) ∷ rest) st =
    reconcile_rows h cfg now ids rest
      (elim (lookup id st.allocations) [ none ↦ st | some a ↦ reconcile_row h cfg now ids id a st ])
