-- ===== src/Examples/Answers.antt =====
-- Concrete answers of a reservation and of the reads.
use platform_ipam.Prelude.{
  ◌≡◌, ◌↔◌, text_eq_iff, refl, [], ◌∷◌, values, Memᴰ, sym, ◌∙◌, ap, string_eq, true, false, none,
  some, some_eq, lookup, insert, arith,
}
use platform_ipam.Domain.Errors.{ok, fail}
use platform_ipam.Domain.Rows.{Allocation, Operation}
use platform_ipam.Domain.State.{State, new_state}
use platform_ipam.Service.Observe.{record_observation, append_observation, newest, next_rows}
use platform_ipam.Service.Observe.History.{Kept, record_observation-Kept}
use platform_ipam.Service.Raise.{resolve_finding}
use platform_ipam.Service.Digests.{finding_id}
use platform_ipam.Service.Reserve.Replay.{Reply, reserve_kind}
use platform_ipam.Service.Reserve.Plan.{
  held_allocation, held_operation, reservation_selection, plan_tx, hold, idempotency,
}
use platform_ipam.Service.Reserve.Commit.{
  succeeded_operation, committed_allocation, settled_already, commit_event, commit_hold, commit_tx,
}
use platform_ipam.Service.Reserve.Handler.{
  Outside, Mode, reply_of, after_commit, commit_of, confirm, finish,
}
use platform_ipam.Service.Reserve.Again.{plan_tx-again}
use platform_ipam.Service.Reserve.Outcome.{Created, finish-Created}
use platform_ipam.Service.Reads.{visible_to, get, list}
use platform_ipam.Service.Reads.Access.{get_iff}
use platform_ipam.Service.Reads.Order.{Distinct}
use platform_ipam.Service.Reads.Listed.{Listed, list-Listed}
use platform_ipam.Service.Eligible.{eligible_string, contains_int, valid_key, valid_labels}
use platform_ipam.Service.Validate.{
  Validated, validate_request, check_form, with_account, find_parent, offered, find_domain,
}
use platform_ipam.Service.Validate.Granted.{Granted, validate_request-Granted}
use platform_ipam.Examples.{
  config, digests, noon, clean, red, vpcs, wanted, empty_inventory, plan, block_text, held_state,
  owned_row, owned_state, home,
}
use platform_ipam.Examples.Ledger.{first_reply, plans_first, held_found}

-- The same request from another process, an hour later.
plan_tx-again_example :
    plan_tx
      (record plan { clock = 99_000_000_000_000; allocation_id = "a2" })
      (λ st o. fail 409 "pool_exhausted")
      held_state
    ≡ ok (record { reply = first_reply.reply; attempt = false }, held_state)
plan_tx-again_example =
    plan_tx-again plan (reservation_selection vpcs wanted empty_inventory) new_state first_reply
      held_state (record plan { clock = 99_000_000_000_000; allocation_id = "a2" })
      (λ st o. fail 409 "pool_exhausted") plans_first refl (unfold new_state in tt) refl refl

-- The inventory confirms the network.
abbrev outside : Outside
outside = record {
  ledger_ready = true;
  inventory_configured = true;
  snapshot = ok empty_inventory;
  observed = ok (some clean);
  now = noon;
  plan_clock = noon;
  commit_clock = noon;
  allocation_id = "a1";
  operation_id = "o1";
  planned_event_id = "e1";
  committed_event_id = "e2";
  ensured = λ a o. ok "net-1";
  before_plan = λ st. st;
  before_commit = λ st. st;
}

abbrev mode : Mode
mode = record {
  kind = reserve_kind;
  actor = "ci";
  commit_actor = "";
  selection = reservation_selection;
  reviewed = λ o i. true;
}

abbrev held_row : Allocation
held_row = held_allocation plan block_text

abbrev held_by : Operation
held_by = held_operation plan none

abbrev created_row : Allocation
created_row = committed_allocation held_row "net-1" noon

abbrev created_reply : Reply
created_reply = reply_of created_row (succeeded_operation held_by "a1" noon) 201

created_state : State
created_state = (commit_tx digests (commit_of mode outside "net-1") held_row held_by held_state).1

finishes :
    finish digests mode outside held_row held_by held_state ≡ (ok created_reply, created_state)
unfolding finish confirm after_commit created_state commit_tx settled_already commit_hold
    commit_event resolve_finding finding_id held_state hold idempotency record_observation
    append_observation newest next_rows held_allocation held_operation new_state lookup insert
finishes = refl

row_id : (x : Allocation) → lookup held_row.id held_state.allocations ≡ some x → x.id ≡ held_row.id
unfolding held_allocation
row_id x e = ap (λ (a : Allocation). a.id) (some_eq (sym e ∙ held_found))

finish-Created_example :
    (x : Allocation) × (created_reply.allocation ≡ some x) × Created held_row.id x created_state
finish-Created_example =
    finish-Created digests mode outside held_row held_by held_state created_state created_reply
      row_id finishes refl

-- Reads of a ledger with one committed allocation.
get_iff_example : (get red "a1" owned_state ≡ ok owned_row) ↔ (
    (lookup "a1" owned_state.allocations ≡ some owned_row)
    × (owned_row.committed ≡ true)
    × (visible_to red owned_row.tenant_id ≡ true))
get_iff_example = get_iff red "a1" owned_state owned_row

-- A ledger that visits its rows against the order of their ids.
abbrev second_row : Allocation
second_row = record owned_row { id = "a2" }

abbrev two_rows : State
two_rows = record owned_state { allocations = ("a2", second_row) ∷ ("a1", owned_row) ∷ [] }

two_rows-Distinct : Distinct (λ (a : Allocation). a.id) (values two_rows.allocations)
unfolding held_allocation
two_rows-Distinct = ((λ e. absurd (ground (arith, (text_eq_iff "a2" "a1").1 e)), tt), (tt, tt))

under_own :
    (a : Allocation)
    → Memᴰ a (values two_rows.allocations)
    → lookup a.id two_rows.allocations ≡ some a
unfolding lookup held_allocation
under_own a (Memᴰ.head e) = rw e refl
under_own a (Memᴰ.tail (Memᴰ.head e)) = rw e refl
under_own a (Memᴰ.tail (Memᴰ.tail m)) = elim m [ ]

list-Listed_example : Listed red two_rows (list red two_rows)
list-Listed_example = list-Listed red two_rows two_rows-Distinct under_own

no_history : Kept new_state
unfolding new_state lookup
no_history d = record { few = omega arith; ordered = tt; same_generation = tt }

record_observation-Kept_example : Kept (record_observation new_state clean)
record_observation-Kept_example = record_observation-Kept new_state clean no_history

abbrev validated : Validated
validated = record { wanted = wanted; pool = vpcs; domain = home }

validates : validate_request config owned_state red wanted ≡ ok validated
unfolding validate_request check_form with_account find_parent offered find_domain eligible_string
    contains_int valid_key valid_labels
validates = refl

validate_request-Granted_example : Granted config owned_state red wanted validated
validate_request-Granted_example =
    validate_request-Granted config owned_state red wanted validated validates
