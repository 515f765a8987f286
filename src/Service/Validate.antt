-- ===== src/Service/Validate.antt =====
-- `validateRequest` of internal/service/service.go: the request completed with its defaults, the
-- one pool that serves it, and the pool's domain.
pub mod Completed
pub mod Granted
use Prim.Native.String.{len}
use platform_ipam.Prelude.{
  ℕ, String, List, [], ◌∷◌, Bool, true, false, not, ◌&&◌, ◌||◌, Option, none, some, ◌==◌, string_eq,
  ltb, lookup, if◌then◌else◌, ℤ, pos, negsuc,
}
use platform_ipam.Domain.Policy.{Request, Pool, Domain, Config, Principal}
use platform_ipam.Domain.Errors.{Result, ok, fail, refuse_if, ◌>>=◌, ◌>>◌}
use platform_ipam.Domain.Rows.{Allocation, zero_allocation, is_reserved, is_active}
use platform_ipam.Domain.State.{State}
use platform_ipam.Service.Eligible.{eligible_string, contains_int, valid_key, valid_labels}

abbrev valid_length : ℤ → Bool
valid_length (pos bits) = not (ltb 32 bits)
valid_length (negsuc n) = false

abbrev allows : List ℕ → ℤ → Bool
allows [] n = true
allows (b ∷ bs) (pos bits) = contains_int (b ∷ bs) bits
allows (b ∷ bs) (negsuc n) = false

abbrev with_family : Request → Request
with_family r = if r.address_family == "" then record r { address_family = "ipv4" } else r

-- The checks of the request alone, up to its authorization for environment and region.
unfoldable pub check_form : Principal → Request → Result (Unit {0})
check_form p r = do
  refuse_if (not (r.scope == "vpc" || r.scope == "subnet")) 422 "invalid_request"
  refuse_if (not (r.address_family == "ipv4" && valid_length r.prefix_length)) 422 "invalid_request"
  refuse_if (not (valid_key r.allocation_key)) 422 "invalid_request"
  refuse_if (ltb 512 (len r.description)) 422 "invalid_request"
  refuse_if (not (valid_labels r.labels)) 422 "invalid_request"
  refuse_if (r.scope == "vpc" && not (r.parent_allocation_id == "" && r.availability_zone_id == ""))
      422 "invalid_request"
  refuse_if (r.scope == "subnet" && r.parent_allocation_id == "") 422 "invalid_request"
  refuse_if
      (not (eligible_string p.environments r.environment && eligible_string p.regions r.region)) 403
      "forbidden"

abbrev only_account : List String → Request → Result Request
only_account (a ∷ []) r = ok (record r { account_id = a })
only_account _ r = fail 422 "account_required"

unfoldable pub with_account : Principal → Request → Result Request
with_account p r =
    if r.account_id == ""
    then only_account p.accounts r
    else if eligible_string p.accounts r.account_id
    then ok r
    else fail 403 "forbidden"

known_parent : Principal → Allocation → Bool
known_parent p a = a.committed && a.tenant_id == p.tenant_id

fitting_parent : Config → Allocation → Request → Bool
fitting_parent cfg parent r =
    parent.scope == (
      if cfg.subnet_policy.require_parent_scope == ""
      then "vpc"
      else cfg.subnet_policy.require_parent_scope)
    && (is_reserved parent.state || is_active parent.state)
    && parent.account_id == r.account_id
    && parent.region == r.region
    && parent.environment == r.environment

-- The parent of a subnet; a VPC has none, and gets the zero allocation.
unfoldable pub find_parent : Config → State → Principal → Request → Result Allocation
unfolding known_parent fitting_parent
find_parent cfg st p r =
    if r.scope == "subnet"
    then elim (lookup r.parent_allocation_id st.allocations) [
      | none ↦ fail 409 "invalid_parent"
      | some parent ↦ do
        refuse_if (not (known_parent p parent)) 409 "invalid_parent"
        refuse_if (not (fitting_parent cfg parent r)) 409 "invalid_parent"
        refuse_if (not (allows cfg.subnet_policy.allowed_prefix_lengths r.prefix_length)) 422
            "policy_violation"
        ok parent
    ]
    else ok zero_allocation

pool_eligible : Principal → Request → Pool → Bool
pool_eligible p r pool =
    pool.environment == r.environment
    && pool.region == r.region
    && pool.address_family == r.address_family
    && eligible_string pool.eligible_tenants p.tenant_id
    && eligible_string pool.eligible_accounts r.account_id

-- The pool as the request may use it: a subnet's is narrowed to its parent's range.
unfoldable pub offered : Config → Principal → Request → Allocation → Pool → Option Pool
unfolding pool_eligible
offered cfg p r parent pool =
    if not (pool_eligible p r pool)
    then none
    else if r.scope == "subnet"
    then (if not (pool.scope == "vpc" && parent.pool_id == pool.id)
        then none
        else if allows cfg.subnet_policy.allowed_prefix_lengths r.prefix_length
        then some (record pool { scope = "subnet"; cidr = parent.cidr })
        else none)
    else if not (pool.scope == r.scope)
    then none
    else if allows pool.allowed_prefix_lengths r.prefix_length
    then some pool
    else none

select_pool : (Pool → Option Pool) → Option Pool → List Pool → Result Pool
select_pool offer none [] = fail 422 "policy_violation"
select_pool offer (some selected) [] = ok selected
select_pool offer selected (pool ∷ pools) = elim (offer pool) [
  | none ↦ select_pool offer selected pools
  | some candidate ↦ elim selected [
    | none ↦ select_pool offer (some candidate) pools
    | some other ↦ fail 422 "ambiguous_pool"
  ]
]

-- The last configured domain with the id.
last_domain : String → List Domain → Option Domain
last_domain id [] = none
last_domain id (d ∷ ds) = elim (last_domain id ds) [
  | some later ↦ some later
  | none ↦ if d.id == id then some d else none
]

unfoldable pub find_domain : Config → Pool → Result Domain
unfolding last_domain
find_domain cfg pool = elim (last_domain pool.domain_id cfg.domains) [
  | none ↦ fail 422 "policy_violation"
  | some d ↦ if d.id == "" then fail 422 "policy_violation" else ok d
]

pub record Validated : Type 0 where
  pub wanted : Request
  pub pool : Pool
  pub domain : Domain

unfoldable pub validate_request : Config → State → Principal → Request → Result Validated
unfolding check_form with_account find_parent offered select_pool find_domain
validate_request cfg st p in_request = do
  refuse_if (p.tenant_id == "") 403 "forbidden"
  let r = with_family in_request
  check_form p r
  r' ← with_account p r
  parent ← find_parent cfg st p r'
  pool ← select_pool (offered cfg p r' parent) none cfg.pools
  d ← find_domain cfg pool
  ok (record { wanted = r'; pool = pool; domain = d })
