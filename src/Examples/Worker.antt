-- ===== src/Examples/Worker.antt =====
-- The worker finishes a reservation and an adoption, binds a row to what carries its tags, and
-- records what the inventory answered.
use platform_ipam.Prelude.{
  ◌==◌, string_eq, ◌&&◌, ◌≡◌, refl, List, [], ◌∷◌, true, false, none, some, lookup, insert, arith,
  values, All, inl, string_eq,
}
use platform_ipam.Netip.{contains, overlaps, size, masked, prefix_eq}
use platform_ipam.Netip.Text.{
  decimal_le, join_octets, parse_addr, parse_fields, parse_prefix, split_last, split_on,
}
use platform_ipam.Domain.Errors.{ok, err, fault}
use platform_ipam.Domain.Rows.{
  Allocation, Binding, Operation, Observation, Finding, adopt_operation, is_active,
}
use platform_ipam.Domain.State.{State, new_state}
use platform_ipam.Service.Digests.{finding_id}
use platform_ipam.Service.Eligible.{domain_for, pending_for_allocation}
use platform_ipam.Service.Choose.{overlapping}
use platform_ipam.Service.Observe.{
  trusted_observation, now_fresh, binding_observed, carries_binding,
}
use platform_ipam.Service.Raise.{resolve_finding, worker_event}
use platform_ipam.Service.Adopt.{
  adopted_the_reviewed, reviewed_network, reviewed_children, reviewed_occupancy, child_of_reviewed,
  reviewed_resource, review_networks, verdict_on, one_found,
}
use platform_ipam.Service.Reserve.Plan.{held_allocation, held_operation}
use platform_ipam.Service.Reserve.Commit.{commit_recovered, committed_allocation, cannot_recover}
use platform_ipam.Service.Worker.{
  RecoveryJob, RecoveryOutside, answers, observe, recovery_evidence,
  pending_reservation_observation_safe, is_parent_vpc, is_own_resource, range_forbids,
  resource_forbids, reservation_recovered, recover_reservation, adoption_recovered,
  convert_adoption, review_adoption, observe_adoption, recover_adoption,
}
use platform_ipam.Service.Worker.Held.{Uncommitted}
use platform_ipam.Service.Worker.Recovered.{Ensured, recover_reservation-Ensured}
use platform_ipam.Service.Worker.Converted.{Converted, recover_adoption-Converted}
use platform_ipam.Service.Worker.Projections.{SyncResult, apply_results, record_results}
use platform_ipam.Service.Worker.Projected.{Settled, record_results-apply_results}
use platform_ipam.Service.Worker.Reconcile.{
  NewIds, is_reconciled, latest_trusted, required_parent, claimed_by, judge, judge_with,
  judge_reserved, sight_row, reconcile_row, carry_out, bind_succeeded, bound_observed, seen_at,
}
use platform_ipam.Service.Worker.Claimed.{Bound, reconcile_row-Bound}
use platform_ipam.Service.Worker.Tick.{falls_short, observed_or_failed, record_tick}
use platform_ipam.Service.Worker.Blind.{record_tick-Open}
use platform_ipam.Service.Worker.Unmanaged.{reconcile_allocations}
use platform_ipam.Service.Worker.Open.{Open}
use platform_ipam.Service.Worker.Alarms.{unseen, reconcile_allocations-Open}
use platform_ipam.Ledger.{Keyed}
use platform_ipam.Examples.{
  home, config, digests, noon, plan, block_text, owned_row, owned_state, empty_inventory,
}
use platform_ipam.Examples.Bind.{wanted_binding, sighting, observed_state}
use platform_ipam.Examples.Adopt.{inventory, cloud}

-- The reservation whose commit was lost, and the resource that its own apply has made.
abbrev held_row : Allocation
held_row = held_allocation plan block_text

abbrev held_op : Operation
held_op = held_operation plan none

abbrev job : RecoveryJob
job = record { allocation = held_row; operation = held_op }

abbrev waiting : State
waiting = record new_state {
  allocations = ("a1", held_row) ∷ [];
  operations = ("o1", held_op) ∷ [];
}

abbrev outside : RecoveryOutside
outside = record {
  observed = some (ok sighting);
  trust_clock = noon;
  snapshot = answers empty_inventory;
  converted = answers "net-1";
  age_clock = noon;
  clock = noon;
  event_id = "e2";
  before_update = λ st. st;
}

held_free : Uncommitted "a1" waiting
unfolding lookup held_allocation
held_free a e = ground (arith, e)

abbrev recovered_row : Allocation
recovered_row = committed_allocation held_row "net-1" noon

recovers :
    lookup "a1" (recover_reservation digests config job outside waiting).allocations
    ≡ some recovered_row
unfolding recover_reservation recovery_evidence observe pending_reservation_observation_safe
    is_parent_vpc is_own_resource range_forbids resource_forbids reservation_recovered
    commit_recovered cannot_recover resolve_finding worker_event finding_id lookup insert new_state
    held_allocation held_operation domain_for trusted_observation now_fresh parse_prefix overlapping
    overlaps size decimal_le join_octets parse_addr parse_fields split_last split_on contains
recovers = refl

recover_reservation-Ensured_example : Ensured digests config job outside waiting "a1" recovered_row
recover_reservation-Ensured_example =
    recover_reservation-Ensured digests config job outside waiting "a1" recovered_row refl held_free
      held_free recovers

-- An adoption whose commit was lost.
abbrev adoption_op : Operation
adoption_op = record held_op {
  type = adopt_operation;
  adoption = some (record {
    operator = "op";
    network_id = "n1";
    resource_id = "vpc-1";
    import_batch = "b1";
    prior_status = "active";
    prior_account_id = "111";
    prior_region = "eu";
  });
}

abbrev adoption_job : RecoveryJob
adoption_job = record { allocation = held_row; operation = adoption_op }

abbrev adopting : State
adopting = record waiting { operations = ("o1", adoption_op) ∷ [] }

abbrev adoption_outside : RecoveryOutside
adoption_outside = record outside {
  observed = some (ok cloud);
  snapshot = answers inventory;
  converted = answers "n1";
}

abbrev adopted_row : Allocation
adopted_row = committed_allocation held_row "n1" noon

adopting_free : Uncommitted "a1" adopting
unfolding lookup held_allocation
adopting_free a e = ground (arith, e)

adopts :
    lookup "a1" (recover_adoption digests config adoption_job adoption_outside adopting).allocations
    ≡ some adopted_row
unfolding recover_adoption observe_adoption review_adoption convert_adoption adoption_recovered
    recovery_evidence observe adopted_the_reviewed reviewed_network reviewed_children
    reviewed_occupancy child_of_reviewed reviewed_resource review_networks verdict_on one_found
    commit_recovered cannot_recover resolve_finding finding_id lookup insert new_state
    held_allocation held_operation domain_for trusted_observation now_fresh parse_prefix overlapping
    overlaps size masked prefix_eq decimal_le join_octets parse_addr parse_fields split_last
    split_on contains
adopts = refl

recover_adoption-Converted_example :
    Converted digests config adoption_job adoption_outside adopting "a1" adopted_row
recover_adoption-Converted_example =
    recover_adoption-Converted digests config adoption_job adoption_outside adopting "a1"
      adopted_row refl adopting_free adopting_free adopts

-- Both outcomes of a call for one row, recorded in a ledger that has an open finding.
abbrev pending_sync : Finding
pending_sync = record {
  id = "joined";
  tenant_id = "red";
  domain_id = "home";
  allocation_id = "a1";
  code = "inventory_sync_pending";
  severity = "WARNING";
  status = "OPEN";
  account_id = "111";
  region = "eu";
  resource_type = "";
  resource_id = "";
  first_observed_at = noon;
  last_observed_at = noon;
}

abbrev unsynced : State
unsynced = record owned_state { findings = ("joined", pending_sync) ∷ [] }

abbrev sync_results : List SyncResult
sync_results =
    record { allocation = owned_row; failed = false }
    ∷ record { allocation = owned_row; failed = true }
    ∷ []

unsynced-Keyed : Keyed unsynced.allocations
unfolding new_state held_allocation
unsynced-Keyed = (refl, tt)

unsynced-Settled : All Settled (values unsynced.findings)
unsynced-Settled = (inl refl, tt)

record_results-apply_results_example :
    record_results digests noon sync_results false (some unsynced) unsynced
    ≡ apply_results digests noon sync_results unsynced
record_results-apply_results_example =
    record_results-apply_results digests noon unsynced unsynced-Keyed unsynced-Settled sync_results
      false

-- A pass that binds the row to the one resource with its tags.
abbrev ids : NewIds
ids = λ _. ("o9", "e9")

abbrev shown_binding : Binding
shown_binding = record wanted_binding { verified_at = some sighting.finished_at }

abbrev bound_row : Allocation
bound_row = bound_observed (seen_at owned_row sighting.finished_at) shown_binding noon

finds_owned : lookup "a1" observed_state.allocations ≡ some owned_row
unfolding lookup
finds_owned = refl

inactive : is_active owned_row.state ≡ false
unfolding held_allocation
inactive = refl

reconciles :
    lookup "a1" (reconcile_row digests config noon ids "a1" owned_row observed_state).allocations
    ≡ some bound_row
unfolding reconcile_row is_reconciled latest_trusted required_parent claimed_by judge judge_with
    judge_reserved sight_row carry_out bind_succeeded worker_event lookup insert new_state
    held_allocation domain_for trusted_observation now_fresh binding_observed carries_binding
    pending_for_allocation
reconciles = refl

reconcile_row-Bound_example :
    (o : Observation) × (b : Binding) × Bound digests config noon ids "a1" owned_row observed_state
      o b
    × (bound_row ≡ bound_observed (seen_at owned_row o.finished_at) b noon)
reconcile_row-Bound_example =
    reconcile_row-Bound digests config noon ids "a1" owned_row observed_state bound_row finds_owned
      inactive reconciles refl

-- The same row in a ledger without an observation.
finds_unseen : lookup "a1" owned_state.allocations ≡ some owned_row
unfolding lookup
finds_unseen = refl

is_due : is_reconciled owned_row ≡ true
unfolding is_reconciled held_allocation
is_due = refl

unobserved : latest_trusted config (domain_for config "home") "home" noon owned_state ≡ none
unfolding latest_trusted new_state lookup
unobserved = refl

reconcile_allocations-Open_example :
    Open
      (finding_id digests "coverage_incomplete" "a1")
      (reconcile_allocations digests config noon ids owned_state).findings
unfolding held_allocation
reconcile_allocations-Open_example =
    reconcile_allocations-Open digests config noon ids "a1" owned_row "coverage_incomplete"
      owned_state finds_unseen is_due (unseen unobserved)

-- The observation of the domain failed.
in_domain : (owned_row.domain_id == home.id && is_reconciled owned_row) ≡ true
unfolding is_reconciled held_allocation
in_domain = refl

short : falls_short home (observed_or_failed home noon "timeout" (err fault)) ≡ true
unfolding falls_short observed_or_failed
short = refl

record_tick-Open_example :
    Open
      (finding_id digests "coverage_incomplete" "a1")
      (record_tick digests home noon "timeout" (err fault) owned_state).findings
record_tick-Open_example =
    record_tick-Open digests home noon "timeout" (err fault) owned_state "a1" owned_row finds_unseen
      in_domain short
