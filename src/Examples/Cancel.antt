-- ===== src/Examples/Cancel.antt =====
-- A reservation that the platform declared stuck, and its cancel: the fence and the deletion.
use platform_ipam.Prelude.{
  String, text_eq_iff, string_eq, arith, ◌≡◌, refl, [], ◌∷◌, false, true, none, some, lookup,
  insert,
}
use platform_ipam.Domain.Errors.{ok}
use platform_ipam.Domain.Rows.{Allocation, Operation, Finding}
use platform_ipam.Domain.State.{State, new_state}
use platform_ipam.Service.Digests.{finding_id}
use platform_ipam.Service.Withdrawal.{fenced_with, committed_hold_refusal}
use platform_ipam.Service.Reserve.Plan.{held_allocation, held_operation}
use platform_ipam.Service.Cancel.{
  CancelTarget, cancel_fenced, withdrawn, judge_held, cancel_check, cancelled_operation,
  write_fence, cancel_fence, drop_hold, cancel_delete,
}
use platform_ipam.Service.Cancel.Fenced.{Fenced, cancel_fence-Fenced}
use platform_ipam.Service.Cancel.Deleted.{Deleted, cancel_delete-Deleted}
use platform_ipam.Service.Cancel.Handler.{
  removed, CancelOutside, cancel_report, cancel_remove_error, delete_cancelled, remove_cancelled,
  cancel_reservation,
}
use platform_ipam.Service.Cancel.Finished.{Finished, cancel_reservation-Finished}
use platform_ipam.Examples.{digests, noon, red, plan, block_text}

abbrev stuck_row : Allocation
stuck_row = held_allocation plan block_text

abbrev stuck_operation : Operation
stuck_operation = held_operation plan none

abbrev stuck : Finding
stuck = record {
  id = "joined";
  tenant_id = "red";
  domain_id = "home";
  allocation_id = "a1";
  code = "reservation_stuck";
  severity = "CRITICAL";
  status = "OPEN";
  account_id = "111";
  region = "eu";
  resource_type = "";
  resource_id = "";
  first_observed_at = noon;
  last_observed_at = noon;
}

abbrev stuck_state : State
stuck_state = record new_state {
  allocations = ("a1", stuck_row) ∷ [];
  operations = ("o1", stuck_operation) ∷ [];
  findings = ("joined", stuck) ∷ [];
}

abbrev judged : CancelTarget
judged = record {
  operation = stuck_operation;
  allocation = stuck_row;
  already_fenced = false;
  done = false;
}

abbrev fenced_target : CancelTarget
fenced_target = record judged { operation = cancelled_operation stuck_operation noon }

abbrev fenced_state : State
fenced_state = write_fence red noon "e2" judged stuck_state

finds_operation : lookup "o1" stuck_state.operations ≡ some stuck_operation
unfolding lookup
finds_operation = refl

named : stuck_operation.id ≡ "o1"
unfolding held_operation
named = refl

fences : cancel_fence digests red "o1" noon "e2" stuck_state ≡ ok (fenced_target, fenced_state)
unfolding cancel_fence cancel_check judge_held withdrawn committed_hold_refusal write_fence lookup
    insert new_state held_allocation held_operation finding_id cancel_fenced fenced_with
fences = refl

cancel_fence-Fenced_example : Fenced "o1" fenced_state
cancel_fence-Fenced_example =
    cancel_fence-Fenced digests red "o1" noon "e2" stuck_state stuck_operation fenced_target
      fenced_state finds_operation named fences

finds_row : lookup fenced_target.allocation.id fenced_state.allocations ≡ some stuck_row
unfolding lookup write_fence held_allocation
finds_row = refl

deletes :
    cancel_delete digests fenced_target fenced_state
    ≡ ok (true, drop_hold digests stuck_row fenced_state)
unfolding cancel_delete write_fence lookup insert new_state held_allocation held_operation
    finding_id cancel_fenced fenced_with
deletes = refl

cancel_delete-Deleted_example :
    Deleted stuck_row.id fenced_target.operation.id stuck_row fenced_state
      (drop_hold digests stuck_row fenced_state)
cancel_delete-Deleted_example =
    cancel_delete-Deleted digests fenced_target fenced_state stuck_row true
      (drop_hold digests stuck_row fenced_state) finds_row deletes

-- The same cancel as one call, with an inventory that confirms both removals.
abbrev outside : CancelOutside
outside = record {
  ledger_ready = true;
  inventory_configured = true;
  now = noon;
  event_id = "e2";
  first_removal = removed;
  second_removal = removed;
  before_fence = λ st. st;
  before_delete = λ _. fenced_state;
}

only_row : (k : String) (a : Allocation) → lookup k fenced_state.allocations ≡ some a → a.id ≡ k
unfolding lookup write_fence held_allocation
only_row k a e = ground (arith, e, text_eq_iff "a1" k)

held_only : (k : String) (a : Allocation) → lookup k stuck_state.allocations ≡ some a → a.id ≡ k
unfolding lookup held_allocation
held_only k a e = ground (arith, e, text_eq_iff "a1" k)

cancels : (cancel_reservation digests red "o1" outside stuck_state).failure ≡ none
unfolding cancel_reservation remove_cancelled delete_cancelled cancel_remove_error cancel_report
    cancel_fence cancel_check judge_held withdrawn committed_hold_refusal write_fence lookup insert
    new_state held_allocation held_operation finding_id cancel_fenced fenced_with cancel_delete
cancels = refl

cancel_reservation-Finished_example :
    Finished "o1" outside stuck_state (cancel_reservation digests red "o1" outside stuck_state)
cancel_reservation-Finished_example =
    cancel_reservation-Finished digests red "o1" outside stuck_state held_only
      (λ t st a c m. only_row t.allocation.id a m) cancels
