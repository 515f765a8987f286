-- ===== src/Examples/Abandon.antt =====
-- An adoption that cannot finish, and its abandon.
use platform_ipam.Prelude.{
  ◌≡◌, refl, String, [], ◌∷◌, false, true, none, some, lookup, insert, values, Memᴰ, text_eq_iff,
  string_eq, arith,
}
use platform_ipam.Domain.Errors.{ok}
use platform_ipam.Domain.Rows.{Allocation, Operation, adopt_operation}
use platform_ipam.Domain.State.{State, new_state}
use platform_ipam.Service.Digests.{finding_id}
use platform_ipam.Service.Withdrawal.{fenced_with, committed_hold_refusal}
use platform_ipam.Service.Reserve.Plan.{held_allocation, held_operation}
use platform_ipam.Service.Cancel.Handler.{removed}
use platform_ipam.Service.Cancel.Fenced.{Fenced}
use platform_ipam.Service.Abandon.{
  AbandonTarget, abandon_fenced, operations_of, judge_adoption, judge_found, abandon_check,
  abandoned_operation, write_abandon, abandon_fence, abandon_delete,
}
use platform_ipam.Service.Abandon.Handler.{
  AbandonOutside, abandon_inputs, abandon_claim, abandon_clear_error, delete_abandoned,
  clear_abandoned, abandon_report, abandon_adoption,
}
use platform_ipam.Service.Abandon.Fenced.{abandon_fence-Fenced}
use platform_ipam.Service.Abandon.Target.{Aimed}
use platform_ipam.Service.Abandon.Finished.{Finished, abandon_adoption-Finished}
use platform_ipam.Examples.{digests, noon, plan, block_text}

abbrev row : Allocation
row = held_allocation plan block_text

abbrev adoption : Operation
adoption = record (held_operation plan none) { type = adopt_operation }

abbrev start : State
start = record new_state { allocations = ("a1", row) ∷ []; operations = ("o1", adoption) ∷ [] }

abbrev judged : AbandonTarget
judged = record { allocation = row; operation = adoption; already_fenced = false }

abbrev fenced_target : AbandonTarget
fenced_target = record judged { operation = abandoned_operation adoption noon }

abbrev fenced_state : State
fenced_state = write_abandon "ops" noon "e2" judged start

fences : abandon_fence "a1" "" "ops" noon "e2" start ≡ ok (fenced_target, fenced_state)
unfolding abandon_fence abandon_check operations_of judge_found judge_adoption
    committed_hold_refusal write_abandon lookup insert new_state held_allocation held_operation
    abandon_fenced fenced_with
fences = refl

named : (o : Operation) → Memᴰ o (values start.operations) → lookup o.id start.operations ≡ some o
unfolding lookup held_operation
named o (Memᴰ.head e) = rw e refl
named o (Memᴰ.tail m) = elim m [ ]

own_row : (a : Allocation) → lookup "a1" start.allocations ≡ some a → a.id ≡ "a1"
unfolding lookup held_allocation
own_row a e = ground (arith, e)

abandon_fence-Fenced_example :
    Aimed "a1" "" start fenced_target fenced_state × Fenced fenced_target.operation.id fenced_state
abandon_fence-Fenced_example =
    abandon_fence-Fenced "a1" "" "ops" noon "e2" start fenced_target fenced_state own_row named
      fences

abbrev outside : AbandonOutside
outside = record {
  ledger_ready = true;
  inventory_configured = true;
  now = noon;
  event_id = "e2";
  snapshot = none;
  first_clear = removed;
  second_clear = removed;
  before_fence = λ st. st;
  before_delete = λ _. fenced_state;
}

only_row : (k : String) (a : Allocation) → lookup k fenced_state.allocations ≡ some a → a.id ≡ k
unfolding lookup write_abandon held_allocation
only_row k a e = ground (arith, e, text_eq_iff "a1" k)

abandons : (abandon_adoption digests "a1" "" "ops" "gone" outside start).failure ≡ none
unfolding abandon_adoption abandon_inputs abandon_claim abandon_report abandon_clear_error
    clear_abandoned delete_abandoned abandon_delete abandon_fence abandon_check operations_of
    judge_found judge_adoption committed_hold_refusal write_abandon lookup insert new_state
    held_allocation held_operation finding_id abandon_fenced fenced_with
abandons = refl

abandon_adoption-Finished_example :
    Finished "a1" "" "ops" outside start
      (abandon_adoption digests "a1" "" "ops" "gone" outside start)
abandon_adoption-Finished_example =
    abandon_adoption-Finished digests "a1" "" "ops" "gone" outside start own_row named
      (λ t st a c m. only_row t.allocation.id a m) abandons
