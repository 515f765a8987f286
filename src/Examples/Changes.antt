-- ===== src/Examples/Changes.antt =====
-- Concrete patches, bindings and releases.
use platform_ipam.Prelude.{◌≡◌, refl, String, [], ◌∷◌, false, Option, none, some, lookup, insert}
use platform_ipam.Domain.Errors.{ok, fail}
use platform_ipam.Domain.Rows.{
  Allocation, Operation, Binding, bind_operation, pending, zero_operation,
}
use platform_ipam.Domain.State.{State, new_state}
use platform_ipam.Service.Digests.{Digests, patch_hash, idempotency_id}
use platform_ipam.Service.Eligible.{same_binding}
use platform_ipam.Service.Reserve.Replay.{is_retired}
use platform_ipam.Service.Reserve.Plan.{held_allocation}
use platform_ipam.Service.Reserve.Commit.{succeeded_operation}
use platform_ipam.Service.Lifecycle.{
  Stamp, owned, patch_request_id, patched, patch_record, patch_event, new_patch, patch_tx, patch,
  parent_bound, bound, bind_event, finish_binding, blocks_release, released_by, release_event,
  new_release, release_tx,
}
use platform_ipam.Service.Lifecycle.Changes.{relabelled, patch-stale}
use platform_ipam.Service.Lifecycle.Endings.{
  finish_binding-once, Released, release_tx-Released, release_tx-again,
}
use platform_ipam.Examples.{config, digests, noon, red, owned_row, owned_state}

abbrev pub stamp : Stamp
stamp = record { now = noon; operation_id = "o9"; event_id = "e9" }

abbrev described : Option String
described = some "new"

abbrev separate : Digests
separate = record digests { of_joined = λ ts. elim ts [ a ∷ b ∷ c ∷ key ∷ [] ↦ key | _ ↦ "" ] }

patched_row : Allocation
patched_row = relabelled owned_row "new" (some []) noon

patched_state : State
patched_state = record owned_state {
  allocations = ("a1", patched_row) ∷ [];
  requests = ("i2", patch_record separate red "a1" "i2" described none 1 stamp) ∷ [];
  events = patch_event separate red "a1" "i2" described none 1 stamp patched_row ∷ [];
}

patches_once :
    patch separate red "a1" "i2" described none 1 stamp owned_state
    ≡ ok (patched_row, patched_state)
unfolding patch patch_tx new_patch patched owned patch_request_id patch_record patch_event
    patched_row patched_state lookup insert new_state held_allocation idempotency_id patch_hash
patches_once = refl

first_is_new :
    lookup (patch_request_id separate red "a1" "i2" described none 1 stamp) owned_state.requests
    ≡ none
unfolding lookup new_state
first_is_new = refl

second_is_new :
    lookup
      (patch_request_id separate red "a1" "i3" none (some (some [])) 1 stamp)
      patched_state.requests
    ≡ none
unfolding lookup patched_state patch_request_id idempotency_id
second_is_new = refl

patch-stale_example :
    patch separate red "a1" "i3" none (some (some [])) 1 stamp patched_state
    ≡ fail 412 "revision_conflict"
patch-stale_example =
    patch-stale separate red "a1" "i2" 1 stamp "i3" stamp described none none (some (some []))
      owned_state patched_row patched_state first_is_new patches_once refl second_is_new

-- A release, and the release again.
released_row : Allocation
released_row = released_by config owned_row noon

released_state : State
released_state = record owned_state {
  allocations = ("a1", released_row) ∷ [];
  events = release_event red stamp "a1" released_row ∷ [];
}

releases : release_tx config red "a1" stamp owned_state ≡ ok (released_row, released_state)
unfolding release_tx owned new_release blocks_release released_by release_event released_row
    released_state lookup insert new_state held_allocation
releases = refl

found_owned : lookup "a1" owned_state.allocations ≡ some owned_row
unfolding lookup
found_owned = refl

not_retired : is_retired owned_row.state ≡ false
unfolding held_allocation
not_retired = refl

release_tx-Released_example : Released config red "a1" stamp owned_state released_row released_state
release_tx-Released_example =
    release_tx-Released config red "a1" stamp owned_state owned_row released_row released_state
      found_owned not_retired releases

release_tx-again_example :
    release_tx config red "a1" (record stamp { now = 99 }) released_state
    ≡ ok (released_row, released_state)
release_tx-again_example =
    release_tx-again config config red "a1" stamp (record stamp { now = 99 }) owned_state
      released_row released_state releases

-- A verification of a binding that is pending.
abbrev resource : Binding
resource = record {
  provider = "aws";
  resource_type = "vpc";
  resource_id = "vpc-1";
  account_id = "111";
  region = "eu";
  verified_at = none;
}

abbrev verification : Operation
verification = record zero_operation {
  id = "o5";
  type = bind_operation;
  status = pending;
  allocation_id = "a1";
  candidate = some resource;
}

abbrev binding_state : State
binding_state = record owned_state { operations = ("o5", verification) ∷ [] }

bound_row : Allocation
bound_row = bound owned_row resource noon

bound_state : State
bound_state = record owned_state {
  allocations = ("a1", bound_row) ∷ [];
  operations = ("o5", succeeded_operation verification "a1" noon) ∷ [];
  events = bind_event stamp "a1" bound_row ∷ [];
}

binds_once :
    finish_binding "a1" verification resource stamp binding_state
    ≡ ok ((bound_row, succeeded_operation verification "a1" noon), bound_state)
unfolding finish_binding parent_bound bound bind_event bound_row bound_state same_binding lookup
    insert new_state held_allocation
binds_once = refl

finish_binding-once_example :
    finish_binding "a1" verification resource (record stamp { now = 99 }) bound_state
    ≡ fail 409 "binding_conflict"
finish_binding-once_example =
    finish_binding-once "a1" verification verification resource resource stamp
      (record stamp { now = 99 }) binding_state bound_row
      (succeeded_operation verification "a1" noon) bound_state binds_once
