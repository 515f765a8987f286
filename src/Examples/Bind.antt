-- ===== src/Examples/Bind.antt =====
-- A binding that the ledger's last observation and a fresh one show.
use platform_ipam.Prelude.{◌≡◌, refl, [], ◌∷◌, true, none, some, lookup, insert, ◌⊎◌}
use platform_ipam.Domain.Errors.{ok}
use platform_ipam.Domain.Rows.{Allocation, Binding, Operation, Observation, Resource}
use platform_ipam.Domain.State.{State, new_state}
use platform_ipam.Service.Digests.{idempotency_id, binding_hash}
use platform_ipam.Service.Eligible.{same_binding, pending_for_allocation, domain_for}
use platform_ipam.Service.Observe.{
  trusted_observation, now_fresh, binding_observed, carries_binding,
}
use platform_ipam.Service.Reserve.Plan.{held_allocation}
use platform_ipam.Service.Reserve.Commit.{succeeded_operation}
use platform_ipam.Service.Lifecycle.{owned, parent_bound, bound, bind_event, finish_binding}
use platform_ipam.Service.Bind.{
  Sight, BindReply, read_binding, known_of, pending_binding, expected_of, bind_request_id,
  bind_plan, bind_record, fresh_plan, bind_tx, shows_binding, sees_twice, verify_binding,
  after_plan, finished, bind,
}
use platform_ipam.Service.Bind.Bound.{Bound, Verified, bind-Bound}
use platform_ipam.Examples.{config, digests, noon, clean, red, owned_row, owned_state, block_text}
use platform_ipam.Examples.Changes.{stamp}

abbrev pub wanted_binding : Binding
wanted_binding = record {
  provider = "aws";
  resource_type = "vpc";
  resource_id = "vpc-1";
  account_id = "111";
  region = "eu";
  verified_at = none;
}

abbrev pub tagged : Resource
tagged = record {
  account_id = "111";
  region = "eu";
  type = "vpc";
  id = "vpc-1";
  cidr = block_text;
  cidrs = [];
  parent_id = "";
  zone_id = "";
  tags = ("platform-ipam:allocation-id", "a1") ∷ ("platform-ipam:allocation-key", "k1") ∷ [];
  state = "";
}

abbrev pub sighting : Observation
sighting = record clean { resources = tagged ∷ [] }

abbrev pub observed_state : State
observed_state = record owned_state { observations = ("home", sighting ∷ []) ∷ [] }

abbrev sight : Sight
sight = record {
  configured = true;
  first = some sighting;
  second = none;
  clocks = (noon, noon, noon);
  before_finish = λ st. st;
}

new_row : Allocation
new_row = bound owned_row wanted_binding noon

new_operation : Operation
new_operation =
    succeeded_operation (bind_plan digests red "a1" "i4" wanted_binding stamp owned_row) "a1" noon

new_ledger : State
new_ledger = record observed_state {
  allocations = ("a1", new_row) ∷ [];
  operations = ("o9", new_operation) ∷ [];
  requests = ("joined", bind_record digests red "a1" "i4" wanted_binding stamp) ∷ [];
  events = bind_event stamp "a1" new_row ∷ [];
}

abbrev new_reply : BindReply
new_reply = record { allocation = some new_row; operation = some new_operation; status = 200 }

binds :
    bind digests config red "a1" "i4" wanted_binding stamp sight (λ st. st) observed_state
    ≡ (ok new_reply, new_ledger)
unfolding bind read_binding known_of pending_binding expected_of bind_request_id bind_plan
    bind_record fresh_plan bind_tx shows_binding sees_twice verify_binding after_plan finished
    new_row new_operation new_ledger owned parent_bound bound bind_event finish_binding
    held_allocation trusted_observation now_fresh binding_observed carries_binding same_binding
    pending_for_allocation domain_for idempotency_id binding_hash new_state lookup insert
binds = refl

bind-Bound_example :
    (q : Bound "a1" wanted_binding new_reply new_ledger) × ((observed_state ≡ new_ledger)
      ⊎ Verified digests config red "a1" "i4" wanted_binding stamp sight
          (λ st. st)
          observed_state
          q.row)
bind-Bound_example =
    bind-Bound digests config red "a1" "i4" wanted_binding stamp sight (λ st. st) observed_state
      new_ledger new_reply binds refl
