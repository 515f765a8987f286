-- ===== src/Service/Lifecycle.antt =====
-- The changes of a committed allocation in internal/service/service.go: the transactions of
-- `Patch`, `Bind`, `finishBinding` and `Release`.
pub mod Changes
pub mod Quarantine
pub mod Endings
use Prim.Native.String.{len, ◌++◌ as join}
use platform_ipam.Prelude.{
  ℕ, suc, String, List, [], ◌∷◌, ◌++◌, ◌+◌, Bool, true, false, not, ◌&&◌, ◌||◌, Option, none, some,
  any, ltb, ◌==◌, string_eq, nat_eq, values, lookup, insert, if◌then◌else◌,
}
use platform_ipam.Domain.Policy.{Config, Principal, Labels}
use platform_ipam.Domain.Errors.{Result, ok, err, fail, refuse_if, api_error, ◌>>=◌, ◌>>◌}
use platform_ipam.Domain.Rows.{
  Allocation, Operation, Binding, Event, Idempotency, active, quarantined, is_reserved, is_active,
  is_released, bind_operation, pending, failed, is_pending, is_bind,
}
use platform_ipam.Domain.State.{State, operation_at}
use platform_ipam.Domain.Time.{hours}
use platform_ipam.Service.Digests.{Digests, patch_hash, binding_hash, idempotency_id}
use platform_ipam.Service.Eligible.{pending_for_allocation, same_binding, valid_labels}
use platform_ipam.Service.Reserve.Replay.{is_retired}
use platform_ipam.Service.Reserve.Commit.{succeeded_operation}

-- The allocation, if it is the tenant's own and committed.
unfoldable pub owned : State → Principal → String → Result Allocation
owned st p id = elim (lookup id st.allocations) [
  | none ↦ fail 404 "not_found"
  | some a ↦ if a.tenant_id == p.tenant_id && a.committed then ok a else fail 404 "not_found"
]

-- What a transaction reads of the clock and of `domain.NewID`.
pub record Stamp : Type 0 where
  pub now : ℕ
  pub operation_id : String
  pub event_id : String

abbrev with_description : Option String → Allocation → Result Allocation
with_description none a = ok a
with_description (some d) a =
    if ltb 512 (len d)
    then fail 422 "invalid_request"
    else ok (record a { request = record a.request { description = d } })

-- `cloneLabels` makes an empty map of a nil one.
abbrev pub cloned : Labels → Labels
cloned none = some []
cloned (some l) = some l

abbrev with_labels : Option Labels → Allocation → Result Allocation
with_labels none a = ok a
with_labels (some l) a =
    if valid_labels l
    then ok (record a { request = record a.request { labels = cloned l } })
    else fail 422 "invalid_request"

abbrev is_none {ℓ} : {A : Type ℓ} → Option A → Bool
is_none none = true
is_none (some a) = false

abbrev allocation_path : String → String
allocation_path id = join "/v1/allocations/" id

-- The transaction of `Service.Patch`.
module _ (h : Digests) (p : Principal) (id key : String) (description : Option String)
    (labels : Option Labels) (etag : ℕ) (stamp : Stamp) where
  unfoldable pub patch_request_id : String
  unfolding idempotency_id
  patch_request_id = idempotency_id h p.tenant_id "PATCH" (allocation_path id) key

  unfoldable pub patch_record : Idempotency
  patch_record = record {
    tenant_id = p.tenant_id;
    method = "PATCH";
    path = allocation_path id;
    key = key;
    hash = patch_hash h id description labels etag;
    allocation_id = id;
    operation_id = "";
  }

  unfoldable pub patch_event : Allocation → Event
  patch_event a = record {
    id = stamp.event_id;
    allocation_id = id;
    tenant_id = p.tenant_id;
    actor = p.subject;
    action = "PATCH";
    at = stamp.now;
    revision = a.revision;
  }

  replay_patch : Idempotency → State → Result (Allocation × State)
  replay_patch old st = do
    refuse_if (not (old.hash == patch_hash h id description labels etag)) 409 "idempotency_mismatch"
    a ← owned st p id
    refuse_if (a.id == "") 404 "not_found"
    ok (a, st)

  unfoldable pub patched : Allocation → Result Allocation
  patched a = do
    refuse_if (is_none description && is_none labels) 422 "invalid_request"
    b ← with_description description a
    c ← with_labels labels b
    ok (record c { revision = c.revision + 1; updated_at = stamp.now })

  unfoldable pub new_patch : State → Result (Allocation × State)
  unfolding patch_request_id patch_record patch_event
  new_patch st = do
    a ← owned st p id
    refuse_if (is_retired a.state) 409 "allocation_key_retired"
    refuse_if (not (a.revision == etag)) 412 "revision_conflict"
    b ← patched a
    ok (
      b,
      record st {
        allocations = insert id b st.allocations;
        requests = insert patch_request_id patch_record st.requests;
        events = st.events ++ patch_event b ∷ [];
      },
    )

  unfoldable pub patch_tx : State → Result (Allocation × State)
  unfolding patch_request_id replay_patch new_patch
  patch_tx st = elim (lookup patch_request_id st.requests) [
    | some old ↦ replay_patch old st
    | none ↦ new_patch st
  ]

  unfoldable pub patch : State → Result (Allocation × State)
  unfolding patch_tx
  patch st = if key == "" then fail 400 "idempotency_key_required" else patch_tx st

-- `finishBinding`: the parent of a subnet has to be bound.
abbrev pub is_bound : Option Binding → Bool
is_bound none = false
is_bound (some b) = true

unfoldable pub parent_bound : State → Allocation → Result (Unit {0})
parent_bound st x =
    if x.scope == "subnet"
    then elim (lookup x.parent_allocation_id st.allocations) [
      | none ↦ fail 409 "invalid_parent"
      | some parent ↦
          refuse_if (not (is_active parent.state && is_bound parent.binding)) 409 "invalid_parent"
    ]
    else ok tt

abbrev is_candidate : Option Binding → Binding → Bool
is_candidate none b = false
is_candidate (some c) b = same_binding c b

-- An allocation that takes its verified binding.
unfoldable pub bound : Allocation → Binding → ℕ → Allocation
bound x b now = record x {
  binding = some (record b { verified_at = some now });
  state = active;
  inventory_sync = "PENDING";
  revision = x.revision + 1;
  updated_at = now;
}

unfoldable pub bind_event : Stamp → String → Allocation → Event
bind_event stamp id x = record {
  id = stamp.event_id;
  allocation_id = id;
  tenant_id = x.tenant_id;
  actor = "";
  action = "BIND";
  at = stamp.now;
  revision = x.revision;
}

unfoldable pub finish_binding :
    String → Operation → Binding → Stamp → State → Result ((Allocation × Operation) × State)
unfolding parent_bound bound bind_event
finish_binding id op b stamp st = elim (lookup id st.allocations) [
  | none ↦ fail 404 "not_found"
  | some x ↦ do
    refuse_if (not (is_reserved x.state) || is_bound x.binding) 409 "binding_conflict"
    let o = operation_at st op.id
    refuse_if (not (is_pending o.status && is_candidate o.candidate b)) 409 "binding_conflict"
    parent_bound st x
    let y = bound x b stamp.now
    let done = succeeded_operation o id stamp.now
    ok (
      (y, done),
      record st {
        allocations = insert id y st.allocations;
        operations = insert done.id done st.operations;
        events = st.events ++ bind_event stamp id y ∷ [];
      },
    )
]

-- `Service.Release`: a child that is not released blocks it.
unfoldable pub blocks_release : State → String → Allocation → Bool
blocks_release st id child =
    child.parent_allocation_id == id
    && (not child.committed && not (is_released child.state)
        || is_reserved child.state
        || is_active child.state
        || elim (pending_for_allocation st child.id) [ none ↦ false | some o ↦ true ])

unfoldable pub ends_binding : String → Operation → Bool
ends_binding id o = o.allocation_id == id && is_pending o.status && is_bind o.type

unfoldable pub fail_binding : String → ℕ → Operation → Operation
unfolding ends_binding
fail_binding id now o =
    if ends_binding id o
    then record o {
      status = failed;
      error = some (api_error 409 "allocation_key_retired");
      updated_at = now;
    }
    else o

abbrev pub map_values {ℓ} : {V : Type ℓ} → (V → V) → List (String × V) → List (String × V)
map_values f [] = []
map_values f ((k, v) ∷ m) = (k, f v) ∷ map_values f m

abbrev pub quarantine_hours : Config → ℕ
quarantine_hours cfg =
    if cfg.lifecycle.quarantine_hours == 0 then 168 else cfg.lifecycle.quarantine_hours

unfoldable pub released_by : Config → Allocation → ℕ → Allocation
released_by cfg a now = record a {
  state = quarantined;
  inventory_sync = "PENDING";
  release_requested_at = some now;
  quarantine_until = some (now + hours (quarantine_hours cfg));
  updated_at = now;
  revision = a.revision + 1;
  release_blockers = "quarantine_not_elapsed" ∷ [];
}

unfoldable pub release_event : Principal → Stamp → String → Allocation → Event
release_event p stamp id a = record {
  id = stamp.event_id;
  allocation_id = id;
  tenant_id = p.tenant_id;
  actor = p.subject;
  action = "RELEASE_REQUESTED";
  at = stamp.now;
  revision = a.revision;
}

unfoldable pub new_release :
    Config → Principal → String → Stamp → Allocation → State → Result (Allocation × State)
unfolding released_by fail_binding release_event
new_release cfg p id stamp a st = do
  refuse_if (any (blocks_release st id) (values st.allocations)) 409 "children_present"
  let b = released_by cfg a stamp.now
  ok (
    b,
    record st {
      allocations = insert id b st.allocations;
      operations = map_values (fail_binding id stamp.now) st.operations;
      events = st.events ++ release_event p stamp id b ∷ [];
    },
  )

unfoldable pub release_tx :
    Config → Principal → String → Stamp → State → Result (Allocation × State)
unfolding owned new_release
release_tx cfg p id stamp st = do
  a ← owned st p id
  if is_retired a.state then ok (a, st) else new_release cfg p id stamp a st

-- The status that `Release` answers with.
abbrev pub release_status : Allocation → ℕ
release_status a = if is_released a.state then 204 else 202
