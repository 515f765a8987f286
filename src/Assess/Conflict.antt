-- ===== src/Assess/Conflict.antt =====
-- `ConflictID` (identity.go), `buildConflicts` and `sortConflicts` (conflict.go) of
-- internal/assess.
pub mod Confirmed
pub mod Identity
use platform_ipam.Prelude.{
  String, List, [], ◌∷◌, ◌++◌, Bool, true, false, not, ◌||◌, any, map, Option, none, some, codes,
  text_lt, sort_by, ◌==◌, bytes_eq, if◌then◌else◌,
}
use platform_ipam.Assess.{Text, Association, ResourceRecord, FixedRange}
use platform_ipam.Assess.Sweep.{Kind, equal_cidr, contains, Relationship}
use platform_ipam.Assess.Matrix.{
  Matrix, Ownership, Owned, resolve, unknown_ownership, GroupAssignment, unassigned, ambiguous,
  assigned, VpcIdentity, match_vpc_group, MatrixRelation, matrix_relation, Impact, impact_for,
}

pub data Position : Type 0 where
  no_position outer inner : Position

-- One side of a conflict: the association, with what the ownership table and the matrix say of it.
pub record Side : Type 0 where
  pub identity : Text
  pub of : Association
  pub owned : Owned
  pub group : Option String
  pub group_ambiguous : Bool
  pub position : Position

pub record Decision : Type 0 where
  pub decision : String
  pub remediation : String
  pub responsible : String
  pub reviewed_by : String
  pub reviewed_at : String

pub record Conflict : Type 0 where
  pub id : Text
  pub kind : Kind
  pub impact : Impact
  pub matrix_relation : MatrixRelation
  pub intersection : Association
  pub fixed : Bool
  pub first : Side
  pub second : Side
  pub decision : Option Decision

abbrev pub kind_text : Kind → Text
kind_text equal_cidr = codes "equal-cidr"
kind_text contains = codes "contains"

-- `ConflictID`, where `digest` is the hexadecimal SHA-256 of its text, cut to 16 digits.
unfoldable pub conflict_id : (Text → Text) → Kind → Text → Text → Text
conflict_id digest kind a b =
    let (lo, hi) = if text_lt b a then (b, a) else (a, b) in
    codes "c-" ++ digest (kind_text kind ++ 0 ∷ (lo ++ 0 ∷ hi))

-- `positionFor`
abbrev pub position_for : Kind → Bool → Position
position_for equal_cidr is_outer = no_position
position_for contains true = outer
position_for contains false = inner

-- The first association of each VPC, by its key, in the order of the relationships.
unfoldable pub vpc_of : Text → List Relationship → Option ResourceRecord
vpc_of key [] = none
vpc_of key (r ∷ rs) =
    let rest = vpc_of key rs in
    if (if r.x.fixed then false else r.x.key == key)
    then r.x.rec
    else if (if r.y.fixed then false else r.y.key == key)
    then r.y.rec
    else rest

-- `assignGroups`, for one key.
unfoldable pub assignment_of : List Relationship → Matrix → Ownership → Text → GroupAssignment
unfolding vpc_of
assignment_of rels m table key = elim (vpc_of key rels) [
  | none ↦ unassigned
  | some r ↦ match_vpc_group m table (record { account_id = r.account_id; vpc_id = r.resource_id })
]

abbrev group_in : GroupAssignment → Option String
group_in unassigned = none
group_in ambiguous = none
group_in (assigned g) = some g

abbrev is_ambiguous : GroupAssignment → Bool
is_ambiguous ambiguous = true
is_ambiguous _ = false

abbrev fixed_owner : Option FixedRange → Text
fixed_owner none = codes unknown_ownership
fixed_owner (some fx) = if fx.owner == [] then codes unknown_ownership else fx.owner

abbrev owned_fixed : Association → Owned
owned_fixed a = record {
  product = unknown_ownership;
  environment = unknown_ownership;
  owner = fixed_owner a.fx;
}

abbrev owned_row : Ownership → Association → Option ResourceRecord → Owned
owned_row table a none = owned_fixed a
owned_row table a (some r) = resolve table r.account_id r.resource_id

-- `sideFrom` and `assignSide`
unfoldable pub side_of : List Relationship → Matrix → Ownership → Position → Association → Side
unfolding assignment_of
side_of rels m table position a =
    let assignment = if a.fixed then unassigned else assignment_of rels m table a.key in
    record {
      identity = a.identity;
      of = a;
      owned = if a.fixed then owned_fixed a else owned_row table a a.rec;
      group = group_in assignment;
      group_ambiguous = is_ambiguous assignment;
      position = position;
    }

abbrev pub supplied : Option Matrix → Bool
supplied none = false
supplied (some m) = true

abbrev pub matrix_of : Option Matrix → Matrix
matrix_of none = record {
  groups = [];
  must_communicate = [];
  must_stay_isolated = [];
  shared_services = [];
}
matrix_of (some m) = m

-- One conflict of `buildConflicts`.
unfoldable pub conflict_of :
    (Text → Text)
    → List Relationship
    → Ownership
    → Option Matrix
    → (Text → Option Decision)
    → Relationship
    → Conflict
unfolding side_of conflict_id
conflict_of digest rels table matrix decisions r =
    let m = matrix_of matrix in
    let x = side_of rels m table (position_for r.kind true) r.x in
    let y = side_of rels m table (position_for r.kind false) r.y in
    let relation = matrix_relation m x.group y.group in
    let id = conflict_id digest r.kind r.x.identity r.y.identity in
    let swapped = text_lt y.identity x.identity in
    record {
      id = id;
      kind = r.kind;
      impact = impact_for (supplied matrix) relation x.group y.group;
      matrix_relation = relation;
      intersection = r.y;
      fixed = r.x.fixed || r.y.fixed;
      first = if swapped then y else x;
      second = if swapped then x else y;
      decision = decisions id;
    }

-- `buildConflicts`
unfoldable pub build_conflicts :
    (Text → Text)
    → Ownership
    → Option Matrix
    → (Text → Option Decision)
    → List Relationship
    → List Conflict
build_conflicts digest table matrix decisions rels =
    map (conflict_of digest rels table matrix decisions) rels

-- The order of `sortConflicts`.
unfoldable pub conflict_less : Conflict → Conflict → Bool
conflict_less a b =
    if not (kind_text a.kind == kind_text b.kind)
    then text_lt (kind_text a.kind) (kind_text b.kind)
    else if not (a.first.identity == b.first.identity)
    then text_lt a.first.identity b.first.identity
    else if not (a.second.identity == b.second.identity)
    then text_lt a.second.identity b.second.identity
    else text_lt a.id b.id
