-- ===== src/Service/Reserve/Commit.antt =====
-- The transaction that commits a hold after the inventory confirmed it: `reserve`'s second
-- `Update`, and the worker's `commitRecovered`.
use platform_ipam.Prelude.{
  ℕ, String, [], ◌∷◌, ◌++◌, Bool, true, false, not, ◌||◌, Option, none, some, ◌==◌, string_eq,
  lookup, insert, if◌then◌else◌,
}
use platform_ipam.Domain.Rows.{
  Allocation, Operation, Event, OperationType, no_type, reserve_operation, adopt_operation,
  bind_operation, reclaim_operation, succeeded, is_pending, is_reserved,
}
use platform_ipam.Domain.State.{State, allocation_at, operation_at}
use platform_ipam.Service.Digests.{Digests}
use platform_ipam.Service.Raise.{resolve_finding}
use platform_ipam.Service.Reserve.Replay.{Kind, copy_allocation, is_retired}

abbrev pub committed_allocation : Allocation → String → ℕ → Allocation
committed_allocation a inventory_id at = record a {
  committed = true;
  inventory_id = inventory_id;
  inventory_sync = "CURRENT";
  updated_at = at;
}

-- `o.Status = operationSucceeded; o.Result = {"allocation_id": id}; o.UpdatedAt = at`
abbrev pub succeeded_operation : Operation → String → ℕ → Operation
succeeded_operation o allocation_id at = record o {
  status = succeeded;
  result = some (("allocation_id", allocation_id) ∷ []);
  updated_at = at;
}

-- What the closure leaves in the variables of `reserve`.
pub record Settled : Type 0 where
  pub allocation : Allocation
  pub operation : Operation
  pub found : Bool

-- The arguments of the commit: the actor is the operator of an adoption, and empty otherwise.
pub record Commit : Type 0 where
  pub kind : Kind
  pub actor : String
  pub inventory_id : String
  pub clock : ℕ
  pub event_id : String

unfoldable pub settled_already : Allocation → Operation → Bool
settled_already a o = a.committed || is_retired a.state || not (is_pending o.status)

unfoldable pub commit_event : Commit → Allocation → Event
commit_event c a = record {
  id = c.event_id;
  allocation_id = a.id;
  tenant_id = a.tenant_id;
  actor = c.actor;
  action = c.kind.committed;
  at = c.clock;
  revision = a.revision;
}

abbrev with_operation : Operation → State → State
with_operation o st =
    if not (o.id == "") then record st { operations = insert o.id o st.operations } else st

unfoldable pub commit_hold : Digests → Commit → Allocation → Operation → State → State
unfolding commit_event
commit_hold h c a o st =
    let b = committed_allocation a c.inventory_id c.clock in
    resolve_finding h b c.kind.stuck (
      with_operation (succeeded_operation o b.id c.clock) (record st {
        allocations = insert b.id b st.allocations;
        events = st.events ++ commit_event c b ∷ [];
      }))

abbrev or_else {ℓ} : {A : Type ℓ} → Option A → A → A
or_else none z = z
or_else (some a) z = a

-- `held` and `operation` are what `reserve` planned. A hold that a withdrawal has deleted is not
-- found, and the operation that the ledger still has is carried out.
unfoldable pub commit_tx : Digests → Commit → Allocation → Operation → State → Settled × State
unfolding settled_already
commit_tx h c held operation st =
    let a = allocation_at st held.id in
    let o = operation_at st operation.id in
    if a.id == ""
    then (
      record {
        allocation = held;
        operation = or_else (lookup operation.id st.operations) operation;
        found = false;
      },
      st,
    )
    else if settled_already a o
    then (record { allocation = copy_allocation a; operation = o; found = true }, st)
    else (
      record {
        allocation = committed_allocation a c.inventory_id c.clock;
        operation = if o.id == "" then o else succeeded_operation o a.id c.clock;
        found = true;
      },
      commit_hold h c a o st,
    )

-- `o.Type == t`
abbrev pub type_eq : OperationType → OperationType → Bool
type_eq no_type no_type = true
type_eq reserve_operation reserve_operation = true
type_eq adopt_operation adopt_operation = true
type_eq bind_operation bind_operation = true
type_eq reclaim_operation reclaim_operation = true
type_eq _ _ = false

-- The guard of `commitRecovered`.
unfoldable pub cannot_recover : Allocation → Operation → State → Bool
cannot_recover a job st =
    let o = operation_at st job.id in
    a.committed
    || not (is_reserved a.state)
    || not (is_pending o.status)
    || not (type_eq o.type job.type)

-- `commitRecovered`, where `event` is what the caller records.
unfoldable pub commit_recovered :
    String → Operation → String → ℕ → (Allocation → State → State) → State → State
commit_recovered allocation_id job inventory_id clock event st =
    elim (lookup allocation_id st.allocations) [
      | none ↦ st
      | some a ↦
          let o = operation_at st job.id in
          let b = committed_allocation a inventory_id clock in
          if cannot_recover a job st
          then st
          else event b (record st {
            allocations = insert b.id b st.allocations;
            operations = insert o.id (succeeded_operation o b.id clock) st.operations;
          })
    ]
