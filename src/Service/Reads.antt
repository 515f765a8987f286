-- ===== src/Service/Reads.antt =====
-- The reads of internal/service/service.go: `Get`, `List`, `Operation`, `Pools` and `Findings`.
pub mod Order
pub mod Listed
pub mod Access
use Prim.Native.String.{compare as text_compare}
use Prim.Native.Nat.{Ordering}
use platform_ipam.Prelude.{
  ℕ, String, List, [], ◌∷◌, ◌++◌, Bool, true, false, not, ◌&&◌, ◌||◌, Option, none, some, ◌==◌,
  string_eq, ltb, values, lookup, keep_if, if◌then◌else◌,
}
use platform_ipam.Domain.Policy.{Pool, Config, Principal, is_operator}
use platform_ipam.Domain.Errors.{Failure, Result, ok, err, api, api_error, fail}
use platform_ipam.Domain.Rows.{Allocation, Operation, Finding}
use platform_ipam.Domain.State.{State}
use platform_ipam.Domain.Time.{before, after}
use platform_ipam.Service.Eligible.{eligible_string, pending_for_allocation}

-- `a < b` on strings.
abbrev pub text_lt : String → String → Bool
text_lt s t = elim (text_compare s t) [ Ordering.lt ↦ true | _ ↦ false ]

module _ {ℓ} {A : Type ℓ} where
  -- `sort.Slice` by a strict order of the ids, as an insertion.
  unfoldable pub insert_by : (A → A → Bool) → A → List A → List A
  insert_by less x [] = x ∷ []
  insert_by less x (y ∷ ys) =
      let rest = insert_by less x ys in if less x y then x ∷ y ∷ ys else y ∷ rest

  unfoldable pub sort_by : (A → A → Bool) → List A → List A
  unfolding insert_by
  sort_by less [] = []
  sort_by less (x ∷ xs) = insert_by less x (sort_by less xs)

unfoldable pub visible_to : Principal → String → Bool
visible_to p tenant = is_operator p || tenant == p.tenant_id

-- `pendingAllocationError` is retryable, though its status is 409.
abbrev pending_allocation_error : Failure
pending_allocation_error = api (record (api_error 409 "allocation_pending") { retryable = true })

-- `Service.Get`
unfoldable pub get : Principal → String → State → Result Allocation
unfolding visible_to
get p id st = elim (lookup id st.allocations) [
  | none ↦ fail 404 "not_found"
  | some a ↦
      if not (visible_to p a.tenant_id)
      then fail 404 "not_found"
      else if a.committed
      then ok a
      else if is_operator p
      then fail 404 "not_found"
      else elim (pending_for_allocation st id) [
        | none ↦ fail 404 "not_found"
        | some o ↦ err pending_allocation_error
      ]
]

-- `Service.List`
unfoldable pub list : Principal → State → List Allocation
unfolding visible_to sort_by
list p st =
    sort_by (λ a b. text_lt a.id b.id)
      (keep_if (λ a. visible_to p a.tenant_id && a.committed) (values st.allocations))

-- `Service.Operation`: an operator has no tenant, and sees none.
unfoldable pub operation : Principal → String → State → Result Operation
operation p id st = elim (lookup id st.operations) [
  | none ↦ fail 404 "not_found"
  | some o ↦ if o.tenant_id == p.tenant_id then ok o else fail 404 "not_found"
]

-- `Service.Pools`
unfoldable pub pools : Config → Principal → List Pool
unfolding sort_by
pools cfg p =
    sort_by (λ a b. text_lt a.id b.id)
      (keep_if (λ pool. is_operator p || eligible_string pool.eligible_tenants p.tenant_id)
        cfg.pools)

-- `findingSeverityRank`
unfoldable pub severity_rank : String → ℕ
severity_rank s =
    if s == "CRITICAL" then 3 else if s == "WARNING" then 2 else if s == "INFO" then 1 else 0

-- `domainLevelFinding`
unfoldable pub domain_level : Finding → Bool
domain_level f = f.allocation_id == "" && not (f.resource_type == "") && not (f.resource_id == "")

-- Equality of `occupancyGroup` keys.
unfoldable pub same_group : Finding → Finding → Bool
same_group f g =
    f.domain_id == g.domain_id
    && f.code == g.code
    && f.account_id == g.account_id
    && f.region == g.region
    && f.resource_type == g.resource_type
    && f.resource_id == g.resource_id

-- One round of the loop of `collapseOccupancy`.
absorb : Finding → Finding → Finding
unfolding severity_rank
absorb out f = record out {
  first_observed_at =
      if before f.first_observed_at out.first_observed_at
      then f.first_observed_at
      else out.first_observed_at;
  last_observed_at =
      if after f.last_observed_at out.last_observed_at
      then f.last_observed_at
      else out.last_observed_at;
  severity =
      if ltb (severity_rank out.severity) (severity_rank f.severity)
      then f.severity
      else out.severity;
  status = if f.status == "OPEN" then "OPEN" else out.status;
}

absorb_all : Finding → List Finding → Finding
unfolding absorb
absorb_all out [] = out
absorb_all out (f ∷ fs) = absorb_all (absorb out f) fs

-- `collapseOccupancy` of a group that has a member; it is sorted by id first.
unfoldable pub collapse_sorted : List Finding → Option Finding
unfolding absorb_all
collapse_sorted [] = none
collapse_sorted (f ∷ fs) = some (absorb_all (record f { tenant_id = "" }) fs)

abbrev pub by_id : Finding → Finding → Bool
by_id f g = text_lt f.id g.id

unfoldable pub collapse : List Finding → Option Finding
unfolding collapse_sorted sort_by
collapse members = collapse_sorted (sort_by by_id members)

abbrev pub cons_some {ℓ} : {A : Type ℓ} → Option A → List A → List A
cons_some none xs = xs
cons_some (some x) xs = x ∷ xs

-- The groups of the domain-level findings, one for each key, in the order of their first members.
unfoldable pub group_heads : List Finding → List Finding
group_heads [] = []
group_heads (f ∷ fs) = f ∷ keep_if (λ g. not (same_group f g)) (group_heads fs)

abbrev collapse_groups : List Finding → List Finding → List Finding
collapse_groups all [] = []
collapse_groups all (f ∷ heads) =
    cons_some (collapse (keep_if (same_group f) all)) (collapse_groups all heads)

-- `operatorFindings`
unfoldable pub operator_findings : State → List Finding
unfolding collapse group_heads same_group domain_level sort_by
operator_findings st =
    let all = values st.findings in
    let grouped = keep_if domain_level all in
    sort_by by_id
      (keep_if (λ f. not (domain_level f)) all ++ collapse_groups grouped (group_heads grouped))

-- `Service.Findings`
unfoldable pub findings : Principal → State → List Finding
unfolding operator_findings sort_by
findings p st =
    if is_operator p
    then operator_findings st
    else sort_by by_id (keep_if (λ f. f.tenant_id == p.tenant_id) (values st.findings))
