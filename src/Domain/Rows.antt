-- ===== src/Domain/Rows.antt =====
-- The rows of internal/domain/types.go: allocations, operations, observations, findings.
use platform_ipam.Prelude.{ℕ, String, List, [], Bool, true, false, Option, none, pos}
use platform_ipam.Domain.Policy.{Request}
use platform_ipam.Domain.Errors.{ApiError}

-- `Allocation.State`; `unset` is the empty string of a zero value.
pub data AllocationState : Type 0 where
  unset reserved active quarantined released : AllocationState

abbrev pub is_reserved : AllocationState → Bool
is_reserved reserved = true
is_reserved _ = false

abbrev pub is_active : AllocationState → Bool
is_active active = true
is_active _ = false

abbrev pub is_quarantined : AllocationState → Bool
is_quarantined quarantined = true
is_quarantined _ = false

abbrev pub is_released : AllocationState → Bool
is_released released = true
is_released _ = false

pub record Binding : Type 0 where
  pub provider : String
  pub resource_type : String
  pub resource_id : String
  pub account_id : String
  pub region : String
  pub verified_at : Option ℕ

pub record Allocation : Type 0 where
  pub request : Request
  pub open request use *
  pub id : String
  pub tenant_id : String
  pub domain_id : String
  pub request_hash : String
  pub cidr : List ℕ
  pub pool_id : String
  pub state : AllocationState
  pub revision : ℕ
  pub policy_version : String
  pub inventory_id : String
  pub inventory_sync : String
  pub binding : Option Binding
  pub created_at : ℕ
  pub updated_at : ℕ
  pub release_requested_at : Option ℕ
  pub quarantine_until : Option ℕ
  pub last_observed_at : Option ℕ
  pub release_blockers : List String
  pub committed : Bool

pub data OperationType : Type 0 where
  no_type reserve_operation adopt_operation bind_operation reclaim_operation : OperationType

abbrev pub is_bind : OperationType → Bool
is_bind bind_operation = true
is_bind _ = false

abbrev pub is_reclaim : OperationType → Bool
is_reclaim reclaim_operation = true
is_reclaim _ = false

abbrev pub is_reserve : OperationType → Bool
is_reserve reserve_operation = true
is_reserve _ = false

abbrev pub is_adopt : OperationType → Bool
is_adopt adopt_operation = true
is_adopt _ = false

pub data OperationStatus : Type 0 where
  no_status pending succeeded failed : OperationStatus

abbrev pub is_pending : OperationStatus → Bool
is_pending pending = true
is_pending _ = false

abbrev pub is_failed : OperationStatus → Bool
is_failed failed = true
is_failed _ = false

abbrev pub is_succeeded : OperationStatus → Bool
is_succeeded succeeded = true
is_succeeded _ = false

pub record AdoptionRecord : Type 0 where
  pub operator : String
  pub network_id : String
  pub resource_id : String
  pub import_batch : String
  pub prior_status : String
  pub prior_account_id : String
  pub prior_region : String

pub record Operation : Type 0 where
  pub id : String
  pub type : OperationType
  pub status : OperationStatus
  pub allocation_id : String
  pub tenant_id : String
  pub domain_id : String
  pub result : Option (List (String × String))
  pub error : Option ApiError
  pub candidate : Option Binding
  pub adoption : Option AdoptionRecord
  pub created_at : ℕ
  pub updated_at : ℕ

pub record Idempotency : Type 0 where
  pub tenant_id : String
  pub method : String
  pub path : String
  pub key : String
  pub hash : String
  pub allocation_id : String
  pub operation_id : String

pub record Event : Type 0 where
  pub id : String
  pub allocation_id : String
  pub tenant_id : String
  pub actor : String
  pub action : String
  pub at : ℕ
  pub revision : ℕ

pub record Finding : Type 0 where
  pub id : String
  pub tenant_id : String
  pub domain_id : String
  pub allocation_id : String
  pub code : String
  pub severity : String
  pub status : String
  pub account_id : String
  pub region : String
  pub resource_type : String
  pub resource_id : String
  pub first_observed_at : ℕ
  pub last_observed_at : ℕ

pub record Resource : Type 0 where
  pub account_id : String
  pub region : String
  pub type : String
  pub id : String
  pub cidr : List ℕ
  pub cidrs : List (List ℕ)
  pub parent_id : String
  pub zone_id : String
  pub tags : List (String × String)
  pub state : String

pub record Observation : Type 0 where
  pub domain_id : String
  pub generation : String
  pub complete : Bool
  pub started_at : ℕ
  pub finished_at : ℕ
  pub resources : List Resource
  pub error : String

-- A network of the inventory; what no rule of the service reads is left out.
pub record Network : Type 0 where
  pub id : String
  pub cidr : List ℕ
  pub allocation_id : String
  pub operation_id : String
  pub parent_pool : Bool
  pub imported : Bool
  pub owned : Bool
  pub import_batch : String
  pub status : String
  pub aws_account_id : String
  pub aws_region : String

pub record InventorySnapshot : Type 0 where
  pub networks : List Network
  pub complete : Bool

-- The zero values that a read of a missing map key gives.
abbrev pub zero_request : Request
zero_request = record {
  allocation_key = "";
  scope = "";
  environment = "";
  region = "";
  account_id = "";
  address_family = "";
  prefix_length = pos 0;
  parent_allocation_id = "";
  availability_zone_id = "";
  description = "";
  labels = none;
}

abbrev pub zero_allocation : Allocation
zero_allocation = record {
  request = zero_request;
  id = "";
  tenant_id = "";
  domain_id = "";
  request_hash = "";
  cidr = [];
  pool_id = "";
  state = unset;
  revision = 0;
  policy_version = "";
  inventory_id = "";
  inventory_sync = "";
  binding = none;
  created_at = 0;
  updated_at = 0;
  release_requested_at = none;
  quarantine_until = none;
  last_observed_at = none;
  release_blockers = [];
  committed = false;
}

abbrev pub zero_operation : Operation
zero_operation = record {
  id = "";
  type = no_type;
  status = no_status;
  allocation_id = "";
  tenant_id = "";
  domain_id = "";
  result = none;
  error = none;
  candidate = none;
  adoption = none;
  created_at = 0;
  updated_at = 0;
}
