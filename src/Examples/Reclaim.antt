-- ===== src/Examples/Reclaim.antt =====
-- A quarantined allocation whose space may be reclaimed.
use platform_ipam.Prelude.{ℕ, ◌≡◌, refl, [], ◌∷◌, true, false, some, lookup, insert}
use platform_ipam.Netip.Text.{
  decimal_le, join_octets, parse_addr, parse_fields, parse_prefix, split_last, split_on,
}
use platform_ipam.Domain.Rows.{
  Allocation, Operation, Observation, quarantined, is_released, zero_operation, reclaim_operation,
  pending,
}
use platform_ipam.Domain.State.{State, new_state}
use platform_ipam.Service.Eligible.{domain_for}
use platform_ipam.Service.Observe.{
  now_fresh, trusted_observation, observation_conflict, snapshot_conflict,
}
use platform_ipam.Service.Reserve.Plan.{held_allocation}
use platform_ipam.Service.Reclaim.{
  Job, Seen, settle_reclaim, goes_through, verified, reclaim_fence, complete_reclaim,
  released_allocation, shows_absence, count_scans, quarantine_over, gate_of, reclaim_eligible,
}
use platform_ipam.Service.Reclaim.Gates.{Grounds, reclaim_eligible-Grounds}
use platform_ipam.Service.Raise.{worker_event}
use platform_ipam.Ledger.Reclaimed.{Reclaimed, settle_reclaim-Reclaimed}
use platform_ipam.Examples.{empty_inventory, config, clean, plan, block_text}

abbrev given_up : Allocation
given_up = record (held_allocation plan block_text) {
  state = quarantined;
  committed = true;
  release_requested_at = some 43_000_000_000_000;
  quarantine_until = some 43_100_000_000_000;
}

-- Two scans, 400 seconds apart.
abbrev earlier : Observation
earlier = record clean { started_at = 43_199_000_000_000; finished_at = 43_199_050_000_000 }

abbrev later : Observation
later = record clean { started_at = 43_599_000_000_000; finished_at = 43_599_050_000_000 }

abbrev scanned : State
scanned = record new_state {
  allocations = ("a1", given_up) ∷ [];
  observations = ("home", earlier ∷ later ∷ []) ∷ [];
}

abbrev today : ℕ
today = 43_600_000_000_000

is_eligible : reclaim_eligible scanned given_up config today ≡ true
unfolding reclaim_eligible quarantine_over count_scans shows_absence gate_of domain_for
    trusted_observation now_fresh observation_conflict parse_prefix decimal_le join_octets
    parse_addr parse_fields split_last split_on held_allocation new_state lookup
is_eligible = refl

reclaim_eligible-Grounds_example : Grounds scanned given_up config today
reclaim_eligible-Grounds_example =
    reclaim_eligible-Grounds scanned given_up config today is_eligible

-- The deletion of its network, and the second transaction.
abbrev deletion : Operation
deletion = record zero_operation {
  id = "o7";
  type = reclaim_operation;
  status = pending;
  allocation_id = "a1";
  tenant_id = "red";
  domain_id = "home";
}

abbrev deleting : State
deleting = record scanned { operations = ("o7", deletion) ∷ [] }

abbrev job : Job
job = record { allocation = given_up; operation_id = "o7" }

abbrev seen : Seen
seen = record {
  deleted = true;
  snapshot = some empty_inventory;
  observation = some later;
  parent_id = "";
  checked_at = today;
  clock = today;
  event_id = "e7";
}

is_found : lookup job.allocation.id deleting.allocations ≡ some given_up
unfolding lookup held_allocation
is_found = refl

is_live : is_released given_up.state ≡ false
is_live = refl

is_gone :
    lookup job.allocation.id (settle_reclaim config job seen deleting).allocations
    ≡ some (released_allocation given_up today)
unfolding settle_reclaim goes_through verified reclaim_fence complete_reclaim released_allocation
    worker_event snapshot_conflict reclaim_eligible quarantine_over count_scans shows_absence
    gate_of domain_for trusted_observation now_fresh observation_conflict parse_prefix decimal_le
    join_octets parse_addr parse_fields split_last split_on held_allocation new_state lookup insert
is_gone = refl

settle_reclaim-Reclaimed_example : Reclaimed config job seen deleting given_up
settle_reclaim-Reclaimed_example =
    settle_reclaim-Reclaimed config job seen deleting given_up (released_allocation given_up today)
      is_found refl is_live is_gone (unfold released_allocation in refl)
