-- ===== src/Service/Cancel.antt =====
-- CancelReservation of internal/service/cancel.go: its judgement, the transaction that fences the
-- hold, and the one that deletes it once the inventory has removed the prefix.
pub mod Fenced
pub mod Deleted
pub mod Handler
pub mod Target
pub mod Finished
use platform_ipam.Prelude.{
  remove, ℕ, String, List, [], ◌∷◌, ◌++◌, Bool, true, false, not, ◌&&◌, ◌||◌, Option, none, some,
  ◌==◌, string_eq, lookup, insert, if◌then◌else◌,
}
use platform_ipam.Domain.Policy.{Principal}
use platform_ipam.Domain.Errors.{Result, ok, fail, refuse_if, api_error, ◌>>=◌, ◌>>◌}
use platform_ipam.Domain.Rows.{
  Allocation, Operation, Idempotency, Finding, failed, succeeded, is_pending, is_reserve,
  zero_allocation,
}
use platform_ipam.Domain.State.{State, allocation_at}
use platform_ipam.Service.Digests.{Digests, finding_id}
use platform_ipam.Service.Raise.{resolve_finding}
use platform_ipam.Service.Withdrawal.{
  fenced_with, reservation_cancelled_code, committed_hold_refusal,
}
use platform_ipam.Service.Reserve.Replay.{reserve_kind}

-- What the judgement finds. Its finding is only quoted in the reason of the event.
pub record CancelTarget : Type 0 where
  pub operation : Operation
  pub allocation : Allocation
  pub already_fenced : Bool
  pub done : Bool

-- `cancelFenced`
unfoldable pub cancel_fenced : Operation → Bool
unfolding fenced_with
cancel_fenced o = fenced_with o reservation_cancelled_code

abbrev is_open : Option Finding → Bool
is_open none = false
is_open (some f) = f.status == "OPEN"

abbrev is_unresolved : Option Finding → Bool
is_unresolved none = false
is_unresolved (some f) = not (f.status == "RESOLVED")

-- An operation whose row is gone: an earlier run has finished.
unfoldable pub withdrawn : Operation → Result CancelTarget
unfolding cancel_fenced
withdrawn o =
    if is_reserve o.type && cancel_fenced o
    then ok (record {
      operation = o;
      allocation = record zero_allocation {
        id = o.allocation_id;
        tenant_id = o.tenant_id;
        domain_id = o.domain_id;
      };
      already_fenced = true;
      done = true;
    })
    else fail 409 "cancel_no_allocation"

-- An operation whose row stands: pending and declared stuck, or fenced by an earlier run.
unfoldable pub judge_held : Digests → Allocation → Operation → State → Result CancelTarget
unfolding cancel_fenced finding_id
judge_held h a o st =
    let target : CancelTarget = record {
      operation = o;
      allocation = a;
      already_fenced = not (is_pending o.status);
      done = false;
    } in
    refuse_if (not (is_reserve o.type)) 409 "cancel_not_a_reservation"
    >> (if is_pending o.status
        then refuse_if (not (is_open (lookup (finding_id h reserve_kind.stuck a.id) st.findings)))
            409 "reservation_not_stuck"
          >> ok target
        else if cancel_fenced o
        then ok target
        else elim o.status [
          | succeeded ↦ fail 409 "cancel_operation_succeeded"
          | _ ↦ fail 409 "cancel_operation_terminal"
        ])

-- `cancelCheck`
unfoldable pub cancel_check : Digests → Principal → String → State → Result CancelTarget
unfolding withdrawn judge_held committed_hold_refusal
cancel_check h p operation_id st = elim (lookup operation_id st.operations) [
  | none ↦ fail 404 "not_found"
  | some o ↦
      refuse_if (p.tenant_id == "" || not (o.tenant_id == p.tenant_id)) 404 "not_found"
      >> committed_hold_refusal (allocation_at st o.allocation_id) "cancel_committed"
      >> elim (lookup o.allocation_id st.allocations) [
        | none ↦ withdrawn o
        | some a ↦ judge_held h a o st
      ]
]

abbrev pub cancelled_operation : Operation → ℕ → Operation
cancelled_operation o now = record o {
  status = failed;
  error = some (api_error 409 reservation_cancelled_code);
  updated_at = now;
}

unfoldable pub write_fence : Principal → ℕ → String → CancelTarget → State → State
write_fence p now event_id t st = record st {
  operations = insert t.operation.id (cancelled_operation t.operation now) st.operations;
  events =
      st.events
      ++ record {
        id = event_id;
        allocation_id = t.allocation.id;
        tenant_id = t.allocation.tenant_id;
        actor = p.subject;
        action = "RESERVE_CANCELLED";
        at = now;
        revision = t.allocation.revision;
      }
        ∷ [];
}

-- The transaction that fences: the target, and the state it leaves.
unfoldable pub cancel_fence :
    Digests → Principal → String → ℕ → String → State → Result (CancelTarget × State)
cancel_fence h p operation_id now event_id st = cancel_check h p operation_id st >>= λ t.
    if t.already_fenced
    then ok (t, st)
    else ok (
      record t { operation = cancelled_operation t.operation now },
      write_fence p now event_id t st,
    )

-- `for id, request := range st.Requests`: the records that name the allocation go.
unfoldable pub forget_requests : String → List (String × Idempotency) → List (String × Idempotency)
forget_requests id [] = []
forget_requests id ((k, r) ∷ m) =
    let rest = forget_requests id m in if r.allocation_id == id then rest else (k, r) ∷ rest

unfoldable pub drop_hold : Digests → Allocation → State → State
drop_hold h a st = resolve_finding h a reserve_kind.stuck (record st {
  allocations = remove a.id st.allocations;
  requests = forget_requests a.id st.requests;
})

abbrev still_fenced : Option Operation → String → Bool
still_fenced none id = false
still_fenced (some o) id = if o.allocation_id == id then cancel_fenced o else false

-- The transaction that deletes: whether it resolved a finding, and the state it leaves.
unfoldable pub cancel_delete : Digests → CancelTarget → State → Result (Bool × State)
cancel_delete h t st = elim (lookup t.allocation.id st.allocations) [
  | none ↦ ok (false, st)
  | some a ↦
      refuse_if a.committed 409 "cancel_state_changed"
      >> refuse_if (not (still_fenced (lookup t.operation.id st.operations) a.id)) 409
          "cancel_state_changed"
      >> ok (
        is_unresolved (lookup (finding_id h reserve_kind.stuck a.id) st.findings),
        drop_hold h a st,
      )
]
