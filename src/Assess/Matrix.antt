-- ===== src/Assess/Matrix.antt =====
-- The connectivity matrix and the ownership table of internal/assess/matrix.go, and the impact that
-- they give a conflict.
use platform_ipam.Prelude.{
  ℕ, codes, String, List, [], ◌∷◌, Bool, true, false, not, ◌&&◌, ◌||◌, any, Option, none, some,
  ◌==◌, string_eq, if◌then◌else◌,
}

pub record Group : Type 0 where
  pub id : String
  pub members : List String

pub record Matrix : Type 0 where
  pub groups : List Group
  pub must_communicate : List (String × String)
  pub must_stay_isolated : List (String × String)
  pub shared_services : List String

-- The zero value.
abbrev pub no_matrix : Matrix
no_matrix = record {
  groups = [];
  must_communicate = [];
  must_stay_isolated = [];
  shared_services = [];
}

pub record OwnershipEntry : Type 0 where
  pub account_id : String
  pub vpc_id : String
  pub product : String
  pub environment : String
  pub owner : String

abbrev pub Ownership : Type 0
Ownership = List OwnershipEntry

-- `Ownership.lookup`: `found` is the last entry so far that names the whole account.
unfoldable pub owner_from :
    Option OwnershipEntry → Ownership → String → String → Option OwnershipEntry
owner_from found [] account_id vpc_id = found
owner_from found (e ∷ es) account_id vpc_id =
    let next =
      owner_from (if e.account_id == account_id && e.vpc_id == "" then some e else found) es
        account_id vpc_id in
    if e.account_id == account_id && (e.vpc_id == vpc_id && not (vpc_id == ""))
    then some e
    else next

abbrev pub unknown_ownership : String
unknown_ownership = "unknown"

abbrev or_unknown : String → String
or_unknown s = if s == "" then unknown_ownership else s

-- The product, the environment and the owner. The owner is a text, as that of a fixed range is.
pub record Owned : Type 0 where
  pub product : String
  pub environment : String
  pub owner : List ℕ

-- `Ownership.resolve`
unfoldable pub resolve : Ownership → String → String → Owned
unfolding owner_from
resolve table account_id vpc_id = elim (owner_from none table account_id vpc_id) [
  | none ↦ record {
    product = unknown_ownership;
    environment = unknown_ownership;
    owner = codes unknown_ownership;
  }
  | some e ↦ record {
    product = or_unknown e.product;
    environment = or_unknown e.environment;
    owner = codes (or_unknown e.owner);
  }
]

pub data GroupAssignment : Type 0 where
  unassigned ambiguous : GroupAssignment
  assigned : String → GroupAssignment

pub record VpcIdentity : Type 0 where
  pub account_id : String
  pub vpc_id : String

-- `matchingGroups`. Its sort does not show, since only a single id is read.
unfoldable pub matching_groups : List Group → String → List String
matching_groups [] member = []
matching_groups (g ∷ gs) member =
    let rest = matching_groups gs member in
    if any (λ m. m == member) g.members then g.id ∷ rest else rest

-- `resolveMatches`, on a list that is not empty.
abbrev pub resolve_matches : String → List String → GroupAssignment
resolve_matches id [] = assigned id
resolve_matches id (other ∷ more) = ambiguous

abbrev or_else : List String → GroupAssignment → GroupAssignment
or_else [] next = next
or_else (id ∷ ids) next = resolve_matches id ids

-- `matchVPCGroup`: by the VPC, then by the product, then by the account.
unfoldable pub match_vpc_group : Matrix → Ownership → VpcIdentity → GroupAssignment
unfolding matching_groups resolve
match_vpc_group m table v =
    let product = (resolve table v.account_id v.vpc_id).product in
    let by_account = or_else (matching_groups m.groups v.account_id) unassigned in
    let by_product =
      if not (product == "") && not (product == unknown_ownership)
      then or_else (matching_groups m.groups product) by_account
      else by_account in
    or_else (matching_groups m.groups v.vpc_id) by_product

pub data MatrixRelation : Type 0 where
  must_communicate must_stay_isolated undecided not_in_matrix : MatrixRelation

-- `isSharedService`
unfoldable pub is_shared_service : Matrix → String → Bool
is_shared_service m id = any (λ s. s == id) m.shared_services

-- `pairListed`
unfoldable pub pair_listed : List (String × String) → String → String → Bool
pair_listed pairs a b =
    any (λ (p : String × String). p.0 == a && p.1 == b || p.0 == b && p.1 == a) pairs

-- `matrixRelation`, on the groups of the two sides.
unfoldable pub matrix_relation : Matrix → Option String → Option String → MatrixRelation
unfolding is_shared_service pair_listed
matrix_relation m none g = not_in_matrix
matrix_relation m (some a) none = not_in_matrix
matrix_relation m (some a) (some b) =
    if a == b
    then must_communicate
    else if is_shared_service m a || is_shared_service m b
    then must_communicate
    else if pair_listed m.must_communicate a b
    then must_communicate
    else if pair_listed m.must_stay_isolated a b
    then must_stay_isolated
    else undecided

pub data Impact : Type 0 where
  confirmed potential unknown : Impact

abbrev is_assigned : Option String → Bool
is_assigned none = false
is_assigned (some g) = true

-- `impactFor`
unfoldable pub impact_for : Bool → MatrixRelation → Option String → Option String → Impact
impact_for false relation a b = unknown
impact_for true must_communicate a b = confirmed
impact_for true must_stay_isolated a b = potential
impact_for true undecided a b = potential
impact_for true not_in_matrix a b = if is_assigned a || is_assigned b then potential else unknown
