-- ===== src/Domain/Policy.antt =====
-- internal/domain/config.go, and `Request` and `Principal` of internal/domain/types.go.
use platform_ipam.Prelude.{ℕ, String, List, Bool, Option, ℤ, ◌==◌, string_eq}

pub record Backend : Type 0 where
  pub kind : String
  pub vrf_id : ℕ
  pub require_unique_prefixes : Bool
  pub parent_prefix_id : ℕ

pub record Cell : Type 0 where
  pub account_id : String
  pub role_arn : String
  pub regions : List String

pub record Domain : Type 0 where
  pub id : String
  pub description : String
  pub coverage_generation : String
  pub backend : Backend
  pub cloud_coverage : List Cell

pub record Pool : Type 0 where
  pub id : String
  pub domain_id : String
  pub cidr : List ℕ
  pub address_family : String
  pub scope : String
  pub environment : String
  pub region : String
  pub eligible_tenants : List String
  pub eligible_accounts : List String
  pub allowed_prefix_lengths : List ℕ
  pub excluded_cidrs : List (List ℕ)
  pub max_allocations : ℕ
  pub backend : Backend

pub record SubnetPolicy : Type 0 where
  pub require_parent_scope : String
  pub inherit_parent_target : Bool
  pub allowed_prefix_lengths : List ℕ
  pub max_children : ℕ
  pub allow_nested_subnets : Bool

-- A count that `config.Validate` bounds from below is a number: the code tests it against a
-- positive bound only, where a negative value and 0 behave alike.
pub record Lifecycle : Type 0 where
  pub reservation_expiry_enabled : Bool
  pub reservation_age_alert_hours : ℕ
  pub quarantine_hours : ℕ
  pub required_absence_scans : ℕ
  pub min_scan_spacing : ℕ
  pub max_observation_age : ℕ

pub record Principal : Type 0 where
  pub subject : String
  pub tenant_id : String
  pub accounts : List String
  pub environments : List String
  pub regions : List String
  pub role : String

abbrev pub operator_role : String
operator_role = "operator"

-- `Principal.IsOperator`.
unfoldable pub is_operator : Principal → Bool
is_operator p = p.role == operator_role

pub record Config : Type 0 where
  pub schema_version : ℕ
  pub policy_version : String
  pub domains : List Domain
  pub pools : List Pool
  pub subnet_policy : SubnetPolicy
  pub lifecycle : Lifecycle
  pub identities : List Principal

-- A map of labels; `none` is the nil map.
abbrev pub Labels : Type 0
Labels = Option (List (String × String))

pub record Request : Type 0 where
  pub allocation_key : String
  pub scope : String
  pub environment : String
  pub region : String
  pub account_id : String
  pub address_family : String
  pub prefix_length : ℤ
  pub parent_allocation_id : String
  pub availability_zone_id : String
  pub description : String
  pub labels : Labels
