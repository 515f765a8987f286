-- ===== src/Examples/Ledger.antt =====
-- Concrete runs of the ledger's transactions, for the theorems about them.
use platform_ipam.Prelude.{◌≡◌, refl, true, none, some, values, lookup, insert, AllPairs}
use platform_ipam.Netip.{addr_int, contains, overlaps, size, masked, prefix_from_int}
use platform_ipam.Netip.Text.{
  print_prefix, print_decimal, decimal_le, join_octets, parse_addr, parse_fields, parse_prefix,
  print_addr, split_last, split_on,
}
use platform_ipam.Service.Choose.{choose_cidr, search_from, candidate, is_free, overlaps_excluded}
use platform_ipam.Service.Eligible.{pending_domain, count_tenant}
use platform_ipam.Domain.Errors.{ok}
use platform_ipam.Domain.Rows.{Allocation}
use platform_ipam.Domain.State.{State, new_state}
use platform_ipam.Service.Observe.{
  record_observation, trusted_observation, now_fresh, append_observation, newest, next_rows,
}
use platform_ipam.Service.Reserve.Replay.{reserve_kind, copy_allocation, holder}
use platform_ipam.Service.Reserve.Plan.{
  check_quota, check_parent, latest_observation, plan_new, Planned, reservation_selection, plan_tx,
  hold, held_allocation, held_operation,
}
use platform_ipam.Service.Reserve.Commit.{
  Commit, commit_tx, committed_allocation, commit_hold, settled_already,
}
use platform_ipam.Service.Raise.{resolve_finding}
use platform_ipam.Ledger.{Apart, Distinct, IsSound}
use platform_ipam.Ledger.Steps.{
  Steps, done, then, plans, commits, observes, reachable-IsSound, reachable-space, reachable-keys,
}
use platform_ipam.Ledger.Persists.{Persists, Steps-Persists}
use platform_ipam.Examples.{
  digests, noon, clean, plan, vpcs, wanted, empty_inventory, held_state, block_text,
}

abbrev pub first_reply : Planned
first_reply = record {
  reply = record {
    allocation = some (copy_allocation (held_allocation plan block_text));
    operation = some (held_operation plan none);
    status = 202;
  };
  attempt = true;
}

pub plans_first :
    plan_tx plan (reservation_selection vpcs wanted empty_inventory) new_state
    ≡ ok (first_reply, held_state)
unfolding plan_tx reservation_selection held_state hold new_state lookup insert record_observation
    held_allocation held_operation copy_allocation addr_int contains overlaps size masked
    prefix_from_int print_prefix print_decimal decimal_le join_octets parse_addr parse_fields
    parse_prefix print_addr split_last split_on choose_cidr search_from candidate is_free
    overlaps_excluded pending_domain count_tenant trusted_observation now_fresh append_observation
    newest next_rows check_quota check_parent latest_observation plan_new holder
plans_first = refl

-- A plan, its commit, and an observation after it.
abbrev commit : Commit
commit = record {
  kind = reserve_kind;
  actor = "";
  inventory_id = "net-1";
  clock = noon;
  event_id = "e2";
}

abbrev held_row : Allocation
held_row = held_allocation plan block_text

abbrev committed_state : State
committed_state = (commit_tx digests commit held_row (held_operation plan none) held_state).1

nothing_yet : lookup "a1" new_state.allocations ≡ none
unfolding lookup new_state
nothing_yet = refl

run : Steps new_state (record_observation committed_state clean)
run =
    then
      (then (then done (plans plan empty_inventory first_reply nothing_yet refl plans_first))
        (commits digests commit held_row (held_operation plan none)))
      (observes clean)

reachable-space_example :
    AllPairs Apart (values (record_observation committed_state clean).allocations)
reachable-space_example = reachable-space (record_observation committed_state clean) run

reachable-keys_example :
    AllPairs Distinct (values (record_observation committed_state clean).allocations)
reachable-keys_example = reachable-keys (record_observation committed_state clean) run

held_state-IsSound : IsSound held_state.allocations
held_state-IsSound =
    reachable-IsSound held_state
      (then done (plans plan empty_inventory first_reply nothing_yet refl plans_first))

pub held_found : lookup "a1" held_state.allocations ≡ some held_row
unfolding held_state hold record_observation new_state lookup insert held_allocation next_rows
    append_observation newest
held_found = refl

abbrev committed_row : Allocation
committed_row = committed_allocation held_row "net-1" noon

committed_found : lookup "a1" committed_state.allocations ≡ some committed_row
unfolding commit_tx commit_hold resolve_finding settled_already held_state hold record_observation
    new_state lookup insert held_allocation held_operation next_rows append_observation newest
committed_found = refl

committed_state-IsSound : IsSound committed_state.allocations
committed_state-IsSound = reachable-IsSound committed_state (
    then (then done (plans plan empty_inventory first_reply nothing_yet refl plans_first))
      (commits digests commit held_row (held_operation plan none)))

Steps-Persists_example :
    Persists "a1" committed_row (record_observation committed_state clean).allocations
Steps-Persists_example =
    Steps-Persists committed_state (record_observation committed_state clean)
      (then done (observes clean)) committed_state-IsSound "a1" committed_row committed_found refl
