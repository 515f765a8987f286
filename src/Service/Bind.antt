-- ===== src/Service/Bind.antt =====
-- `Service.Bind` of internal/service/service.go: what it checks, the transaction that plans a
-- verification, and the observations that complete it.
pub mod Plan
pub mod Seen
pub mod Activated
pub mod Bound
use Prim.Native.String.{◌++◌ as join}
use platform_ipam.Prelude.{
  ℕ, String, List, [], Bool, true, false, not, ◌&&◌, ◌||◌, Option, none, some, last?, lookup,
  insert, ◌==◌, string_eq, if◌then◌else◌,
}
use platform_ipam.Domain.Policy.{Config, Principal}
use platform_ipam.Domain.Errors.{Result, ok, err, fail, refuse_if, ◌>>=◌, ◌>>◌}
use platform_ipam.Domain.Rows.{
  Allocation, Operation, Binding, Observation, Idempotency, OperationType, bind_operation, pending,
  is_bind,
}
use platform_ipam.Domain.State.{State, observations_at}
use platform_ipam.Service.Digests.{Digests, binding_hash, idempotency_id}
use platform_ipam.Service.Eligible.{pending_for_allocation, same_binding, domain_for}
use platform_ipam.Service.Observe.{trusted_observation, binding_observed}
use platform_ipam.Service.Reserve.Replay.{is_retired}
use platform_ipam.Service.Lifecycle.{Stamp, owned, finish_binding}

-- What the first read carries out of the ledger.
pub record Expected : Type 0 where
  pub key : String
  pub cidr : List ℕ
  pub zone : String
  pub parent : String
  pub domain : String
  pub operation : Option Operation
  pub observed : Option Observation

-- The allocation is bound already, or the binding is to be verified.
pub data Known : Type 0 where
  already : Allocation → Known
  expects : Expected → Known

abbrev resource_of : Option Binding → String
resource_of none = ""
resource_of (some b) = b.resource_id

abbrev parent_of : State → Allocation → String
parent_of st a =
    if a.parent_allocation_id == ""
    then ""
    else elim (lookup a.parent_allocation_id st.allocations) [
      | none ↦ ""
      | some parent ↦ resource_of parent.binding
    ]

fits_target : Allocation → Binding → Bool
fits_target a b =
    b.provider == "aws"
    && b.resource_type == a.scope
    && not (b.resource_id == "")
    && b.account_id == a.account_id
    && b.region == a.region

abbrev pub is_candidate : Option Binding → Binding → Bool
is_candidate none b = false
is_candidate (some c) b = same_binding c b

-- A pending operation that verifies this binding is taken up; one that verifies another is a
-- conflict.
unfoldable pub pending_binding : Option Operation → Binding → Result (Option Operation)
pending_binding none b = ok none
pending_binding (some o) b =
    if is_bind o.type && is_candidate o.candidate b
    then ok (some o)
    else if is_bind o.type
    then fail 409 "binding_conflict"
    else ok none

-- The last observation is read only where no verification is taken up.
observed_unless : Option Operation → List Observation → Option Observation
observed_unless none rows = last? rows
observed_unless (some o) rows = none

unfoldable pub expected_of : State → Allocation → Option Operation → Expected
unfolding observed_unless
expected_of st a o = record {
  key = a.allocation_key;
  cidr = a.cidr;
  zone = a.availability_zone_id;
  parent = parent_of st a;
  domain = a.domain_id;
  operation = o;
  observed = observed_unless o (observations_at st a.domain_id);
}

unfoldable pub known_of : State → String → Allocation → Binding → Option Binding → Result Known
unfolding pending_binding expected_of
known_of st id a b none = do
  o ← pending_binding (pending_for_allocation st id) b
  ok (expects (expected_of st a o))
known_of st id a b (some c) =
    if same_binding c b then ok (already a) else fail 409 "binding_conflict"

-- The first ledger read.
unfoldable pub read_binding : State → Principal → String → Binding → Result Known
unfolding fits_target
read_binding st p id b = do
  a ← owned st p id
  refuse_if (not (fits_target a b)) 422 "invalid_request"
  known_of st id a b a.binding

binding_path : String → String
binding_path id = join (join "/v1/allocations/" id) "/binding"

unfoldable pub bind_request_id : Digests → Principal → String → String → String
unfolding binding_path
bind_request_id h p id key = idempotency_id h p.tenant_id "PUT" (binding_path id) key

module _ (h : Digests) (p : Principal) (id key : String) (b : Binding) (stamp : Stamp) where
  unfoldable pub bind_plan : Allocation → Operation
  bind_plan a = record {
    id = stamp.operation_id;
    type = bind_operation;
    status = pending;
    allocation_id = id;
    tenant_id = p.tenant_id;
    domain_id = a.domain_id;
    result = none;
    error = none;
    candidate = some b;
    adoption = none;
    created_at = stamp.now;
    updated_at = stamp.now;
  }

  unfoldable pub bind_record : Idempotency
  unfolding binding_path
  bind_record = record {
    tenant_id = p.tenant_id;
    method = "PUT";
    path = binding_path id;
    key = key;
    hash = binding_hash h id b;
    allocation_id = id;
    operation_id = stamp.operation_id;
  }

  -- Where no request is known and nothing is pending, the verification is recorded.
  unfoldable pub fresh_plan : Allocation → Option Operation → State → Option Operation × State
  fresh_plan a (some o) st = (some o, st)
  fresh_plan a none st = (
    some (bind_plan a),
    record st {
      operations = insert stamp.operation_id (bind_plan a) st.operations;
      requests = insert (bind_request_id h p id key) bind_record st.requests;
    },
  )

  -- The transaction that plans a verification; its operation is the one found before where none is
  -- found here.
  unfoldable pub bind_tx : Option Operation → State → Result (Option Operation × State)
  bind_tx before st = do
    a ← owned st p id
    refuse_if (is_retired a.state) 409 "allocation_key_retired"
    elim (lookup (bind_request_id h p id key) st.requests) [
      | some old ↦ do
        refuse_if (not (old.hash == binding_hash h id b)) 409 "idempotency_mismatch"
        elim (pending_for_allocation st id) [ none ↦ ok (before, st) | some o ↦ ok (some o, st) ]
      | none ↦ ok (fresh_plan a (pending_for_allocation st id) st)
    ]

-- The answers of the observer and of the clock after the plan; `none` where the observer is
-- missing, fails, or has nothing.
pub record Sight : Type 0 where
  pub configured : Bool
  pub first : Option Observation
  pub second : Option Observation
  pub clocks : ℕ × ℕ × ℕ
  pub before_finish : State → State

-- A trusted observation that shows the binding.
unfoldable pub shows_binding :
    Config → String → Binding → String → Expected → ℕ → Option Observation → Bool
shows_binding cfg domain_id b id e now none = false
shows_binding cfg domain_id b id e now (some o) =
    trusted_observation o (domain_for cfg domain_id) now cfg.lifecycle.max_observation_age
    && binding_observed o b id e.key e.cidr e.zone e.parent

-- `obsByDomain[op.DomainID]`
abbrev pub stored_for : Expected → Operation → Option Observation
stored_for e o = if e.domain == o.domain_id then e.observed else none

-- The binding is shown by the ledger's last observation and by a fresh one, or by two fresh ones.
unfoldable pub sees_twice :
    Config → String → Binding → Operation → Expected → Option Observation → Sight → Bool
unfolding shows_binding
sees_twice cfg id b o e stored sight =
    let (now, now', now'') = sight.clocks in
    if shows_binding cfg o.domain_id b id e now stored
    then shows_binding cfg o.domain_id b id e now' sight.first
    else sight.configured
      && shows_binding cfg o.domain_id b id e now' sight.first
      && shows_binding cfg o.domain_id b id e now'' sight.second

pub record BindReply : Type 0 where
  pub allocation : Option Allocation
  pub operation : Option Operation
  pub status : ℕ

unfoldable pub finished :
    Result ((Allocation × Operation) × State) → State → Result BindReply × State
finished (err e) st = (err e, st)
finished (ok ((a, o), st')) st =
    (ok (record { allocation = some a; operation = some o; status = 200 }), st')

-- What follows the plan.
unfoldable pub verify_binding :
    Config
    → String
    → Binding
    → Stamp
    → Expected
    → Sight
    → Operation
    → State
    → Result BindReply × State
unfolding finished sees_twice
verify_binding cfg id b stamp e sight o st =
    if sees_twice cfg id b o e (stored_for e o) sight
    then finished (finish_binding id o b stamp (sight.before_finish st)) (sight.before_finish st)
    else (ok (record { allocation = none; operation = some o; status = 202 }), st)

unfoldable pub after_plan :
    Config
    → String
    → Binding
    → Stamp
    → Expected
    → Sight
    → Option Operation
    → State
    → Result BindReply × State
unfolding verify_binding
after_plan cfg id b stamp e sight none st = (fail 503 "ledger_error", st)
after_plan cfg id b stamp e sight (some o) st = verify_binding cfg id b stamp e sight o st

-- `Bind`; `before_plan` is what other processes do between its read and its transaction.
unfoldable pub bind :
    Digests
    → Config
    → Principal
    → String
    → String
    → Binding
    → Stamp
    → Sight
    → (State → State)
    → State
    → Result BindReply × State
unfolding read_binding bind_tx after_plan
bind h cfg p id key b stamp sight before_plan st =
    if key == "" then (fail 400 "idempotency_key_required", st) else elim (read_binding st p id b) [
      | err f ↦ (err f, st)
      | ok (already a) ↦ (ok (record { allocation = some a; operation = none; status = 200 }), st)
      | ok (expects e) ↦ elim (bind_tx h p id key b stamp e.operation (before_plan st)) [
        | err f ↦ (err f, before_plan st)
        | ok (o, st') ↦ after_plan cfg id b stamp e sight o st'
      ]
    ]
