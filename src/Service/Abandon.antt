-- ===== src/Service/Abandon.antt =====
-- AbandonAdoption of internal/service/abandon.go: its judgement, the transaction that fences the
-- hold, and the one that deletes it once the inventory has given the prefix back.
pub mod Handler
pub mod Target
pub mod Fenced
pub mod Deleted
pub mod Finished
use platform_ipam.Prelude.{
  remove, ℕ, String, List, [], ◌∷◌, ◌++◌, Bool, true, false, not, ◌&&◌, ◌||◌, keep_if, values,
  Option, none, some, ◌==◌, string_eq, lookup, insert, if◌then◌else◌,
}
use platform_ipam.Domain.Errors.{Result, ok, fail, refuse_if, api_error, ◌>>=◌, ◌>>◌}
use platform_ipam.Domain.Rows.{
  Allocation, Operation, Finding, failed, succeeded, is_pending, is_adopt,
}
use platform_ipam.Domain.State.{State}
use platform_ipam.Service.Digests.{Digests, finding_id, idempotency_id}
use platform_ipam.Service.Raise.{resolve_finding}
use platform_ipam.Service.Withdrawal.{fenced_with, adoption_abandoned_code, committed_hold_refusal}
use platform_ipam.Service.Reserve.Replay.{adopt_kind}
use platform_ipam.Service.Cancel.{forget_requests}

pub record AbandonTarget : Type 0 where
  pub allocation : Allocation
  pub operation : Operation
  pub already_fenced : Bool

-- `abandonFenced`
unfoldable pub abandon_fenced : Operation → Bool
unfolding fenced_with
abandon_fenced o = fenced_with o adoption_abandoned_code

-- The operations of the allocation, all of them or the one that is named.
unfoldable pub operations_of : String → String → List Operation → List Operation
operations_of id operation_id =
    keep_if (λ o. o.allocation_id == id && (operation_id == "" || o.id == operation_id))

-- An adoption that is pending, or that an earlier run has fenced.
unfoldable pub judge_adoption : Allocation → Operation → Result AbandonTarget
unfolding abandon_fenced
judge_adoption a o =
    let target : AbandonTarget = record {
      allocation = a;
      operation = o;
      already_fenced = not (is_pending o.status);
    } in
    refuse_if (not (is_adopt o.type)) 409 "abandon_not_an_adoption"
    >> (if is_pending o.status
        then ok target
        else if abandon_fenced o
        then ok target
        else elim o.status [
          | succeeded ↦ fail 409 "abandon_operation_succeeded"
          | _ ↦ fail 409 "abandon_operation_terminal"
        ])

unfoldable pub judge_found : Allocation → String → List Operation → Result AbandonTarget
unfolding judge_adoption
judge_found a operation_id [] =
    if operation_id == ""
    then fail 409 "abandon_no_operation"
    else fail 409 "abandon_operation_mismatch"
judge_found a operation_id (o ∷ []) = judge_adoption a o
judge_found a operation_id (o ∷ other ∷ more) = fail 409 "abandon_ambiguous_operation"

-- `abandonCheck`
unfoldable pub abandon_check : String → String → State → Result AbandonTarget
unfolding operations_of committed_hold_refusal judge_found
abandon_check allocation_id operation_id st = elim (lookup allocation_id st.allocations) [
  | none ↦ fail 404 "abandon_unknown_allocation"
  | some a ↦
      committed_hold_refusal a "abandon_committed"
      >> judge_found a operation_id (operations_of a.id operation_id (values st.operations))
]

abbrev pub abandoned_operation : Operation → ℕ → Operation
abandoned_operation o now = record o {
  status = failed;
  error = some (api_error 409 adoption_abandoned_code);
  updated_at = now;
}

unfoldable pub write_abandon : String → ℕ → String → AbandonTarget → State → State
write_abandon operator now event_id t st = record st {
  operations = insert t.operation.id (abandoned_operation t.operation now) st.operations;
  events =
      st.events
      ++ record {
        id = event_id;
        allocation_id = t.allocation.id;
        tenant_id = t.allocation.tenant_id;
        actor = operator;
        action = "ADOPT_ABANDONED";
        at = now;
        revision = t.allocation.revision;
      }
        ∷ [];
}

-- The transaction that fences: the target, and the state it leaves.
unfoldable pub abandon_fence :
    String → String → String → ℕ → String → State → Result (AbandonTarget × State)
abandon_fence allocation_id operation_id operator now event_id st =
    abandon_check allocation_id operation_id st >>= λ t.
    if t.already_fenced
    then ok (t, st)
    else ok (
      record t { operation = abandoned_operation t.operation now },
      write_abandon operator now event_id t st,
    )

-- The record of the adoption itself goes by its key, and any other that names the allocation.
unfoldable pub drop_adoption : Digests → Allocation → State → State
unfolding idempotency_id
drop_adoption h a st =
    let own = idempotency_id h a.tenant_id adopt_kind.method adopt_kind.path a.allocation_key in
    resolve_finding h a adopt_kind.stuck (record st {
      allocations = remove a.id st.allocations;
      requests = forget_requests a.id (remove own st.requests);
    })

abbrev still_abandoned : Option Operation → String → Bool
still_abandoned none id = false
still_abandoned (some o) id = if o.allocation_id == id then abandon_fenced o else false

abbrev is_unresolved : Option Finding → Bool
is_unresolved none = false
is_unresolved (some f) = not (f.status == "RESOLVED")

-- The transaction that deletes: whether it resolved a finding, and the state it leaves.
unfoldable pub abandon_delete : Digests → AbandonTarget → State → Result (Bool × State)
unfolding finding_id
abandon_delete h t st = elim (lookup t.allocation.id st.allocations) [
  | none ↦ ok (false, st)
  | some a ↦
      refuse_if a.committed 409 "abandon_state_changed"
      >> refuse_if (not (still_abandoned (lookup t.operation.id st.operations) a.id)) 409
          "abandon_state_changed"
      >> ok (
        is_unresolved (lookup (finding_id h adopt_kind.stuck a.id) st.findings),
        drop_adoption h a st,
      )
]
