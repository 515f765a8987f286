-- ===== src/Service/Worker/Unmanaged.antt =====
-- The second half of `reconcileAllocations` of internal/service/worker.go: occupancy that no
-- allocation claims, and the whole transaction.
use Prim.Native.String.{◌++◌ as join}
use platform_ipam.Prelude.{
  ℕ, String, List, [], ◌∷◌, Bool, false, not, ◌&&◌, ◌||◌, Option, none, some, ◌==◌, string_eq,
  bytes_eq, lookup, insert, values, if◌then◌else◌,
}
use platform_ipam.Domain.Policy.{Config, Domain, Pool}
use platform_ipam.Domain.Rows.{Allocation, Operation, Resource, Finding, is_released, is_adopt}
use platform_ipam.Domain.State.{State}
use platform_ipam.Service.Digests.{Digests, finding_id}
use platform_ipam.Service.Worker.Reconcile.{
  claim_of, resolve_codes, latest_trusted, NewIds, reconcile_rows,
}

-- `resourceIdentity`: four texts without a NUL byte, which the code joins by NUL bytes.
pub record ResourceIdentity : Type 0 where
  pub kind : String
  pub account : String
  pub region : String
  pub cidr : List ℕ

abbrev pub identity_eq : ResourceIdentity → ResourceIdentity → Bool
identity_eq x y =
    x.kind == y.kind && x.account == y.account && x.region == y.region && x.cidr == y.cidr

unfoldable pub resource_identity : String → String → String → List ℕ → ResourceIdentity
resource_identity kind account region cidr = record {
  kind = kind;
  account = account;
  region = region;
  cidr = cidr;
}

-- The resource that an adoption reviewed, and the empty id where there is none.
abbrev pub reviewed_id : Operation → String
reviewed_id o =
    if is_adopt o.type then (elim o.adoption [ none ↦ "" | some rec ↦ rec.resource_id ]) else ""

abbrev pub owns_in : String → Option Allocation → Bool
owns_in domain_id none = false
owns_in domain_id (some a) = a.committed && a.domain_id == domain_id && not (is_released a.state)

-- One round of `adoptedResources`.
unfoldable pub add_adopted :
    State → String → Operation → List (String × ResourceIdentity) → List (String × ResourceIdentity)
unfolding resource_identity
add_adopted st domain_id o out = elim (lookup o.allocation_id st.allocations) [
  | none ↦ out
  | some a ↦
      if not (reviewed_id o == "") && owns_in domain_id (some a)
      then insert (reviewed_id o) (resource_identity a.scope a.account_id a.region a.cidr) out
      else out
]

unfoldable pub add_all :
    State
    → String
    → List Operation
    → List (String × ResourceIdentity)
    → List (String × ResourceIdentity)
unfolding add_adopted
add_all st domain_id [] out = out
add_all st domain_id (o ∷ os) out = add_all st domain_id os (add_adopted st domain_id o out)

-- `adoptedResources`
unfoldable pub adopted_resources : State → String → List (String × ResourceIdentity)
unfolding add_all
adopted_resources st domain_id = add_all st domain_id (values st.operations) []

abbrev is_identity : Option ResourceIdentity → ResourceIdentity → Bool
is_identity none y = false
is_identity (some x) y = identity_eq x y

abbrev live_in : String → Option Allocation → Bool
live_in domain_id none = false
live_in domain_id (some a) = a.domain_id == domain_id && not (is_released a.state)

-- A resource that a live allocation of the domain claims, or that an adoption explains.
unfoldable pub is_explained : State → String → List (String × ResourceIdentity) → Resource → Bool
is_explained st domain_id adopted x =
    live_in domain_id (lookup (claim_of x) st.allocations)
    || claim_of x == ""
      && is_identity (lookup x.id adopted) (resource_identity x.type x.account_id x.region x.cidr)

-- The text that a finding on an unmanaged resource is found under.
abbrev occupancy_key : String → String → Resource → String
occupancy_key domain_id tenant x = join domain_id (
    join ":" (
      join tenant (
        join ":"
          (join x.account_id (join ":" (join x.region (join ":" (join x.type (join ":" x.id)))))))))

abbrev new_occupancy : String → String → String → Resource → ℕ → Finding
new_occupancy key tenant domain_id x at = record {
  id = key;
  tenant_id = tenant;
  domain_id = domain_id;
  allocation_id = "";
  code = "unmanaged_occupancy";
  severity = "WARNING";
  status = "";
  account_id = x.account_id;
  region = x.region;
  resource_type = "";
  resource_id = "";
  first_observed_at = at;
  last_observed_at = 0;
}

abbrev or_new : Option Finding → Finding → Finding
or_new none fresh = fresh
or_new (some f) fresh = if f.id == "" then fresh else f

unfoldable pub raise_occupancy : Digests → String → Resource → ℕ → String → State → State
unfolding finding_id
raise_occupancy h domain_id x at tenant st =
    let key = finding_id h "unmanaged_occupancy" (occupancy_key domain_id tenant x) in
    let f = or_new (lookup key st.findings) (new_occupancy key tenant domain_id x at) in
    record st {
      findings =
          insert key
            (record f {
              resource_type = x.type;
              resource_id = x.id;
              status = "OPEN";
              last_observed_at = at;
            })
            st.findings;
    }

unfoldable pub raise_for_tenants : Digests → String → Resource → ℕ → List String → State → State
unfolding raise_occupancy
raise_for_tenants h domain_id x at [] st = st
raise_for_tenants h domain_id x at (t ∷ ts) st =
    raise_for_tenants h domain_id x at ts (raise_occupancy h domain_id x at t st)

unfoldable pub raise_for_pools : Digests → String → Resource → ℕ → List Pool → State → State
unfolding raise_for_tenants
raise_for_pools h domain_id x at [] st = st
raise_for_pools h domain_id x at (p ∷ ps) st = raise_for_pools h domain_id x at ps (
    if p.domain_id == domain_id
    then raise_for_tenants h domain_id x at p.eligible_tenants st
    else st)

-- The loop over the resources of a domain's observation.
unfoldable pub raise_unmanaged :
    Digests → Config → String → List (String × ResourceIdentity) → ℕ → List Resource → State → State
unfolding raise_for_pools is_explained
raise_unmanaged h cfg domain_id adopted at [] st = st
raise_unmanaged h cfg domain_id adopted at (x ∷ xs) st =
    raise_unmanaged h cfg domain_id adopted at xs (
      if is_explained st domain_id adopted x
      then st
      else raise_for_pools h domain_id x at cfg.pools st)

-- The loop over the domains.
unfoldable pub report_unmanaged : Digests → Config → ℕ → List Domain → State → State
unfolding raise_unmanaged adopted_resources latest_trusted
report_unmanaged h cfg now [] st = st
report_unmanaged h cfg now (d ∷ ds) st =
    report_unmanaged h cfg now ds (elim (latest_trusted cfg d d.id now st) [
      | none ↦ st
      | some o ↦ raise_unmanaged h cfg d.id (adopted_resources st d.id) o.finished_at o.resources st
    ])

-- `reconcileAllocations`
unfoldable pub reconcile_allocations : Digests → Config → ℕ → NewIds → State → State
unfolding resolve_codes reconcile_rows report_unmanaged
reconcile_allocations h cfg now ids st = report_unmanaged h cfg now cfg.domains (
    reconcile_rows h cfg now ids st.allocations
      (record st { findings = resolve_codes st.findings }))
