-- ===== src/Examples.antt =====
-- Sample data for the tests: one domain, its pool 10.0.0.0/24, a tenant and its request for a /26.
pub mod Space
pub mod Ledger
pub mod Reclaim
pub mod Changes
pub mod Answers
pub mod Adopt
pub mod Bind
pub mod Cancel
pub mod Abandon
pub mod Assess
pub mod Worker
pub mod Capacity
use platform_ipam.Prelude.{ℕ, String, List, [], ◌∷◌, true, false, Option, none, some, pos}
use platform_ipam.Netip.{Prefix}
use platform_ipam.Domain.Policy.{
  Backend, Cell, Domain, Pool, SubnetPolicy, Lifecycle, Principal, Config, Request,
}
use platform_ipam.Domain.Rows.{Allocation, Observation, InventorySnapshot, Binding}
use platform_ipam.Domain.State.{State, new_state}
use platform_ipam.Service.Digests.{Digests}
use platform_ipam.Service.Reserve.Replay.{reserve_kind}
use platform_ipam.Service.Reserve.Plan.{
  Planning, Planned, Selected, hold, held_allocation, held_operation,
}

-- 10.0.0.0/24 and 10.0.0.0/26
abbrev pub pool_text : List ℕ
pool_text = 49 ∷ 48 ∷ 46 ∷ 48 ∷ 46 ∷ 48 ∷ 46 ∷ 48 ∷ 47 ∷ 50 ∷ 52 ∷ []

abbrev pub block_text : List ℕ
block_text = 49 ∷ 48 ∷ 46 ∷ 48 ∷ 46 ∷ 48 ∷ 46 ∷ 48 ∷ 47 ∷ 50 ∷ 54 ∷ []

abbrev pub backend : Backend
backend = record {
  kind = "netbox";
  vrf_id = 1;
  require_unique_prefixes = true;
  parent_prefix_id = 7;
}

abbrev pub home : Domain
home = record {
  id = "home";
  description = "";
  coverage_generation = "g1";
  backend = backend;
  cloud_coverage = record { account_id = "111"; role_arn = "role"; regions = "eu" ∷ [] } ∷ [];
}

abbrev pub vpcs : Pool
vpcs = record {
  id = "vpcs";
  domain_id = "home";
  cidr = pool_text;
  address_family = "ipv4";
  scope = "vpc";
  environment = "prod";
  region = "eu";
  eligible_tenants = "red" ∷ [];
  eligible_accounts = "111" ∷ [];
  allowed_prefix_lengths = 26 ∷ [];
  excluded_cidrs = [];
  max_allocations = 4;
  backend = backend;
}

abbrev pub red : Principal
red = record {
  subject = "ci";
  tenant_id = "red";
  accounts = "111" ∷ [];
  environments = "prod" ∷ [];
  regions = "eu" ∷ [];
  role = "";
}

abbrev pub config : Config
config = record {
  schema_version = 1;
  policy_version = "p1";
  domains = home ∷ [];
  pools = vpcs ∷ [];
  subnet_policy = record {
    require_parent_scope = "vpc";
    inherit_parent_target = true;
    allowed_prefix_lengths = 28 ∷ [];
    max_children = 2;
    allow_nested_subnets = false;
  };
  lifecycle = record {
    reservation_expiry_enabled = false;
    reservation_age_alert_hours = 24;
    quarantine_hours = 1;
    required_absence_scans = 2;
    min_scan_spacing = 300;
    max_observation_age = 600;
  };
  identities = red ∷ [];
}

abbrev pub wanted : Request
wanted = record {
  allocation_key = "k1";
  scope = "vpc";
  environment = "prod";
  region = "eu";
  account_id = "111";
  address_family = "ipv4";
  prefix_length = pos 26;
  parent_allocation_id = "";
  availability_zone_id = "";
  description = "";
  labels = some [];
}

-- A clock some hours in, in nanoseconds.
abbrev pub noon : ℕ
noon = 43_200_000_000_000

abbrev pub clean : Observation
clean = record {
  domain_id = "home";
  generation = "g1";
  complete = true;
  started_at = 43_199_000_000_000;
  finished_at = 43_199_500_000_000;
  resources = [];
  error = "";
}

abbrev pub empty_inventory : InventorySnapshot
empty_inventory = record { networks = []; complete = true }

abbrev pub plan : Planning
plan = record {
  cfg = config;
  kind = reserve_kind;
  actor = "ci";
  principal = red;
  wanted = wanted;
  pool = vpcs;
  domain = home;
  key = "i1";
  request_id = "r1";
  hash = "h1";
  body_hash = "b1";
  planning_observation = clean;
  observed = some clean;
  now = noon;
  clock = noon;
  allocation_id = "a1";
  operation_id = "o1";
  event_id = "e1";
}

abbrev pub chosen : Selected
chosen = record { cidr = block_text; adoption = none }

unfoldable pub held_state : State
held_state = hold plan chosen new_state

-- Digests that spell out what they are of.
abbrev pub digests : Digests
digests = record {
  of_request = λ r. r.allocation_key;
  of_patch = λ id d l e. id;
  of_binding = λ id b. id;
  of_joined = λ ts. "joined";
}

-- The first allocation, committed.
abbrev pub owned_row : Allocation
owned_row = record (held_allocation plan block_text) { committed = true; inventory_id = "net-1" }

abbrev pub owned_state : State
owned_state = record new_state { allocations = ("a1", owned_row) ∷ [] }

abbrev pub blue : Principal
blue = record red { tenant_id = "blue" }
