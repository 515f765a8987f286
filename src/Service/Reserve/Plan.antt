-- ===== src/Service/Reserve/Plan.antt =====
-- The transaction that holds a candidate: `reserve`'s first `Update`.
use platform_ipam.Prelude.{
  ℕ, String, List, [], ◌∷◌, ◌++◌, Bool, true, false, not, ◌&&◌, ◌||◌, Option, none, some, ◌==◌,
  string_eq, ltb, leb, last?, lookup, insert, if◌then◌else◌,
}
use platform_ipam.Domain.Policy.{Request, Pool, Domain, Config, Principal}
use platform_ipam.Domain.Errors.{Result, ok, fail, refuse_if, ◌>>=◌, ◌>>◌}
use platform_ipam.Domain.Rows.{
  Allocation, Operation, Idempotency, Event, Observation, InventorySnapshot, AdoptionRecord,
  AllocationState, reserved, pending, is_reserved, is_active,
}
use platform_ipam.Domain.State.{State, allocation_at, observations_at}
use platform_ipam.Domain.Time.{before}
use platform_ipam.Service.Eligible.{pending_domain, count_tenant, count_children}
use platform_ipam.Service.Choose.{choose_cidr}
use platform_ipam.Service.Observe.{trusted_observation, record_observation}
use platform_ipam.Service.Reserve.Replay.{
  Kind, Reply, copy_allocation, replay_request, holder, check_holder, unfinished,
}

-- What `reserve` has computed when the transaction starts. `now` is its clock then, `clock` the
-- one that the transaction reads; the ids are what `domain.NewID` returns.
pub record Planning : Type 0 where
  pub cfg : Config
  pub kind : Kind
  pub actor : String
  pub principal : Principal
  pub wanted : Request
  pub pool : Pool
  pub domain : Domain
  pub key : String
  pub request_id : String
  pub hash : String
  pub body_hash : String
  pub planning_observation : Observation
  pub observed : Option Observation
  pub now : ℕ
  pub clock : ℕ
  pub allocation_id : String
  pub operation_id : String
  pub event_id : String

-- The candidate that is held, with the reviewed record of an adoption.
pub record Selected : Type 0 where
  pub cidr : List ℕ
  pub adoption : Option AdoptionRecord

abbrev pub Selection : Type 0
Selection = State → Observation → Result Selected

-- `chooseCIDR` as the selection of a reservation.
unfoldable pub reservation_selection : Pool → Request → InventorySnapshot → Selection
reservation_selection pool r snap st latest = elim (choose_cidr pool r snap latest st) [
  | none ↦ fail 409 "pool_exhausted"
  | some cidr ↦ ok (record { cidr = cidr; adoption = none })
]

-- The reply of the transaction; `attempt` says that the caller may create the network.
pub record Planned : Type 0 where
  pub reply : Reply
  pub attempt : Bool

is_live : AllocationState → Bool
is_live s = is_reserved s || is_active s

unfoldable pub check_quota : State → Pool → String → Result (Unit {0})
check_quota st pool tenant =
    refuse_if
      (ltb 0 pool.max_allocations && leb pool.max_allocations (count_tenant st tenant pool.id)) 409
      "quota_exceeded"

unfoldable pub parent_matches : Allocation → String → Request → Bool
unfolding is_live
parent_matches parent tenant r =
    not (parent.id == "")
    && parent.tenant_id == tenant
    && parent.scope == "vpc"
    && is_live parent.state
    && parent.account_id == r.account_id
    && parent.region == r.region

unfoldable pub check_parent : State → Config → String → Request → Result (Unit {0})
check_parent st cfg tenant r =
    if r.scope == "subnet"
    then (do
      let parent = allocation_at st r.parent_allocation_id
      refuse_if (not (parent_matches parent tenant r)) 409 "invalid_parent"
      refuse_if
          (ltb 0 cfg.subnet_policy.max_children
            && leb cfg.subnet_policy.max_children (count_children st parent.id))
          409 "quota_exceeded")
    else ok tt

-- The ledger's last observation, unless the one that was read before is newer.
abbrev newer_of : Observation → Option Observation → Observation
newer_of planning none = planning
newer_of planning (some last) =
    if not (before last.finished_at planning.finished_at) then last else planning

unfoldable pub latest_observation : State → String → Observation → Observation
latest_observation st id planning = newer_of planning (last? (observations_at st id))

module _ (pl : Planning) where
  unfoldable pub held_allocation : List ℕ → Allocation
  held_allocation cidr = record {
    request = pl.wanted;
    id = pl.allocation_id;
    tenant_id = pl.principal.tenant_id;
    domain_id = pl.domain.id;
    request_hash = pl.hash;
    cidr = cidr;
    pool_id = pl.pool.id;
    state = reserved;
    revision = 1;
    policy_version = pl.cfg.policy_version;
    inventory_id = "";
    inventory_sync = "PENDING";
    binding = none;
    created_at = pl.now;
    updated_at = pl.now;
    release_requested_at = none;
    quarantine_until = none;
    last_observed_at = none;
    release_blockers = [];
    committed = false;
  }

  unfoldable pub held_operation : Option AdoptionRecord → Operation
  held_operation adoption = record {
    id = pl.operation_id;
    type = pl.kind.operation;
    status = pending;
    allocation_id = pl.allocation_id;
    tenant_id = pl.principal.tenant_id;
    domain_id = pl.domain.id;
    result = none;
    error = none;
    candidate = none;
    adoption = adoption;
    created_at = pl.now;
    updated_at = pl.now;
  }

  planned_event : Event
  planned_event = record {
    id = pl.event_id;
    allocation_id = pl.allocation_id;
    tenant_id = pl.principal.tenant_id;
    actor = pl.actor;
    action = pl.kind.planned;
    at = pl.now;
    revision = 1;
  }

  unfoldable pub idempotency : String → String → Idempotency
  idempotency allocation_id operation_id = record {
    tenant_id = pl.principal.tenant_id;
    method = pl.kind.method;
    path = pl.kind.path;
    key = pl.key;
    hash = pl.body_hash;
    allocation_id = allocation_id;
    operation_id = operation_id;
  }

  abbrev with_observation : Option Observation → State → State
  with_observation none st = st
  with_observation (some o) st = record_observation st o

  -- The hold: the allocation, its operation, the event and the idempotency record.
  unfoldable pub hold : Selected → State → State
  unfolding planned_event idempotency
  hold s st = with_observation pl.observed (record st {
    allocations = insert pl.allocation_id (held_allocation s.cidr) st.allocations;
    operations = insert pl.operation_id (held_operation s.adoption) st.operations;
    events = st.events ++ planned_event ∷ [];
    requests = insert pl.request_id (idempotency pl.allocation_id pl.operation_id) st.requests;
  })

  -- The reply to an allocation that another request made under the same key.
  unfoldable pub join : Allocation → State → Planned × State
  unfolding idempotency
  join old st = (
    record {
      reply = record {
        allocation = some (copy_allocation old);
        operation = unfinished st old;
        status = if old.committed then 200 else 202;
      };
      attempt = false;
    },
    record st { requests = insert pl.request_id (idempotency old.id "") st.requests },
  )

  module _ (select : Selection) where
    -- A request whose key is new.
    unfoldable pub plan_new : State → Result (Planned × State)
    plan_new st = do
      refuse_if (elim (pending_domain st pl.domain.id) [ none ↦ false | some o ↦ true ]) 503
          "domain_busy"
      check_quota st pl.pool pl.principal.tenant_id
      check_parent st pl.cfg pl.principal.tenant_id pl.wanted
      let latest = latest_observation st pl.domain.id pl.planning_observation
      refuse_if
          (not (trusted_observation latest pl.domain pl.clock pl.cfg.lifecycle.max_observation_age))
          503 "dependency_unavailable"
      s ← select st latest
      ok (
        record {
          reply = record {
            allocation = some (copy_allocation (held_allocation s.cidr));
            operation = some (held_operation s.adoption);
            status = 202;
          };
          attempt = true;
        },
        hold s st,
      )

    unfoldable pub plan_tx : State → Result (Planned × State)
    unfolding plan_new
    plan_tx st = elim (lookup pl.request_id st.requests) [
      | some old ↦ do
        reply ← replay_request st pl.body_hash old
        ok (record { reply = reply; attempt = false }, st)
      | none ↦ elim (holder st pl.principal.tenant_id pl.wanted.allocation_key) [
        | some old ↦ do check_holder st pl.hash old; ok (join old st)
        | none ↦ plan_new st
      ]
    ]
