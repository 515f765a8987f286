-- ===== src/Service/Capacity/Report.antt =====
-- `capacity` of internal/service/capacity.go: what a pool holds, by the length of a block.
use platform_ipam.Prelude.{
  ℕ, ◌-◌, ◌^◌, String, List, [], ◌∷◌, ◌++◌, Bool, true, false, not, ◌&&◌, ◌||◌, any, ltb, Option,
  none, some, last?, values, ◌==◌, string_eq, if◌then◌else◌,
}
use platform_ipam.Netip.{Prefix}
use platform_ipam.Netip.Text.{parse_prefix}
use platform_ipam.Domain.Policy.{Config, Domain, Pool, Principal, is_operator}
use platform_ipam.Domain.Errors.{Result, ok, fail}
use platform_ipam.Domain.Rows.{
  Allocation, Network, Resource, Observation, InventorySnapshot, AllocationState, reserved, active,
  quarantined, is_released,
}
use platform_ipam.Domain.State.{State, observations_at}
use platform_ipam.Domain.Time.{is_zero}
use platform_ipam.Service.Eligible.{eligible_string, pending_domain, domain_for}
use platform_ipam.Service.Observe.{trusted_observation}
use platform_ipam.Service.Capacity.{occupied_blocks, sub64}

-- The last pool of that id which the principal may see; an operator sees each.
unfoldable pub may_see : Principal → Pool → Bool
unfolding is_operator
may_see p pool =
    is_operator p
    || eligible_string pool.eligible_tenants p.tenant_id
      && eligible_string p.environments pool.environment
      && eligible_string p.regions pool.region
      && any (eligible_string pool.eligible_accounts) p.accounts

unfoldable pub select_last : Principal → String → List Pool → Option Pool → Option Pool
unfolding may_see
select_last p id [] found = found
select_last p id (c ∷ cs) found =
    select_last p id cs (if c.id == id && may_see p c then some c else found)

pub data Category : Type 0 where
  in_reserved in_active in_quarantined in_pending in_excluded uncounted : Category

abbrev same_category : Category → Category → Bool
same_category in_reserved in_reserved = true
same_category in_active in_active = true
same_category in_quarantined in_quarantined = true
same_category in_pending in_pending = true
same_category in_excluded in_excluded = true
same_category _ _ = false

-- What the collection has found: the occupied prefixes with their categories, and whether they
-- are all.
pub record Holdings : Type 0 where
  pub occupied : List (Prefix × Category)
  pub complete : Bool

-- `add`
unfoldable pub add : List ℕ → Category → Holdings → Holdings
add raw category x = elim (parse_prefix raw) [
  | none ↦ record x { complete = false }
  | some q ↦ record x { occupied = x.occupied ++ (q, category) ∷ [] }
]

unfoldable pub add_each : Category → List (List ℕ) → Holdings → Holdings
unfolding add
add_each category [] x = x
add_each category (raw ∷ rest) x = add_each category rest (add raw category x)

abbrev pub network_ranges : List Network → List (List ℕ)
network_ranges [] = []
network_ranges (n ∷ ns) =
    let rest = network_ranges ns in if n.parent_pool then rest else n.cidr ∷ rest

abbrev pub resource_ranges : List Resource → List (List ℕ)
resource_ranges [] = []
resource_ranges (x ∷ xs) = x.cidr ∷ x.cidrs ++ resource_ranges xs

abbrev state_category : AllocationState → Category
state_category reserved = in_reserved
state_category active = in_active
state_category quarantined = in_quarantined
state_category _ = uncounted

unfoldable pub category_of : Principal → Allocation → Category
unfolding is_operator
category_of p a =
    if (is_operator p || a.tenant_id == p.tenant_id) && a.scope == "vpc"
    then if not a.committed then in_pending else state_category a.state
    else uncounted

unfoldable pub add_allocations : Principal → String → List Allocation → Holdings → Holdings
unfolding add category_of
add_allocations p domain_id [] x = x
add_allocations p domain_id (a ∷ rest) x = add_allocations p domain_id rest (
    if not (a.domain_id == domain_id) || is_released a.state
    then x
    else add a.cidr (category_of p a) x)

unfoldable pub add_observed : Config → Domain → ℕ → Option Observation → Holdings → Holdings
unfolding add_each
add_observed cfg d now none x = record x { complete = false }
add_observed cfg d now (some o) x =
    let seen = add_each uncounted (resource_ranges o.resources) x in
    record seen {
      complete = seen.complete && trusted_observation o d now cfg.lifecycle.max_observation_age;
    }

abbrev is_fenced {ℓ} : {A : Type ℓ} → Option A → Bool
is_fenced none = false
is_fenced (some o) = true

abbrev pub networks_of : Option (InventorySnapshot × Bool) → List Network
networks_of none = []
networks_of (some (snap, failed)) = snap.networks

-- Before anything is added.
abbrev pub start : Option (InventorySnapshot × Bool) → Holdings
start none = record { occupied = []; complete = false }
start (some (snap, failed)) = record { occupied = []; complete = not failed && snap.complete }

-- The excluded ranges and the networks.
unfoldable pub add_planned : Pool → Option (InventorySnapshot × Bool) → Holdings
unfolding add_each
add_planned pool snapshot =
    add_each uncounted (network_ranges (networks_of snapshot))
      (add_each in_excluded pool.excluded_cidrs (start snapshot))

-- Everything that is in the pool's domain, in the order that it is collected.
unfoldable pub collect :
    Config → Principal → Pool → Domain → ℕ → Option (InventorySnapshot × Bool) → State → Holdings
unfolding add_planned add_observed add_allocations
collect cfg p pool d now snapshot st =
    let planned = add_planned pool snapshot in
    let seen = add_observed cfg d now (last? (observations_at st d.id)) planned in
    add_allocations p d.id (values st.allocations)
      (record seen { complete = seen.complete && not (is_fenced (pending_domain st d.id)) })

abbrev only_in : Category → List (Prefix × Category) → List Prefix
only_in c [] = []
only_in c ((q, d) ∷ rest) = let r = only_in c rest in if same_category c d then q ∷ r else r

abbrev pub prefixes : List (Prefix × Category) → List Prefix
prefixes [] = []
prefixes ((q, d) ∷ rest) = q ∷ prefixes rest

pub record Counts : Type 0 where
  pub reserved : ℕ
  pub active : ℕ
  pub quarantined : ℕ
  pub pending : ℕ
  pub excluded : ℕ
  pub allocatable : ℕ

unfoldable pub allocatable : Prefix → ℕ → Holdings → ℕ
allocatable base bits x =
    if x.complete
    then sub64 (2 ^ (bits - base.bits)) (occupied_blocks base bits (prefixes x.occupied))
    else 0

unfoldable pub counts : Prefix → ℕ → Holdings → Counts
unfolding allocatable
counts base bits x = record {
  reserved = occupied_blocks base bits (only_in in_reserved x.occupied);
  active = occupied_blocks base bits (only_in in_active x.occupied);
  quarantined = occupied_blocks base bits (only_in in_quarantined x.occupied);
  pending = occupied_blocks base bits (only_in in_pending x.occupied);
  excluded = occupied_blocks base bits (only_in in_excluded x.occupied);
  allocatable = allocatable base bits x;
}

unfoldable pub by_length : Prefix → Holdings → List ℕ → List (ℕ × Counts)
unfolding counts
by_length base x [] = []
by_length base x (bits ∷ rest) =
    let later = by_length base x rest in
    if ltb bits base.bits || ltb 32 bits then later else (bits, counts base bits x) ∷ later

pub record CapacityReport : Type 0 where
  pub pool_id : String
  pub observed_at : ℕ
  pub complete : Bool
  pub by_prefix_length : List (ℕ × Counts)

abbrev observed_time : ℕ → Option Observation → ℕ
observed_time now none = now
observed_time now (some o) = if is_zero o.finished_at then now else o.finished_at

-- `capacity`; the snapshot comes with whether its read failed, and no inventory has none.
unfoldable pub capacity :
    Config
    → Principal
    → String
    → ℕ
    → Option (InventorySnapshot × Bool)
    → State
    → Result CapacityReport
unfolding select_last collect by_length
capacity cfg p id now snapshot st = elim (select_last p id cfg.pools none) [
  | none ↦ fail 404 "not_found"
  | some pool ↦ elim (parse_prefix pool.cidr) [
    | none ↦ fail 503 "dependency_unavailable"
    | some base ↦
        let d = domain_for cfg pool.domain_id in
        let x = collect cfg p pool d now snapshot st in
        ok (record {
          pool_id = pool.id;
          observed_at = observed_time now (last? (observations_at st d.id));
          complete = x.complete;
          by_prefix_length = by_length base x pool.allowed_prefix_lengths;
        })
  ]
]
