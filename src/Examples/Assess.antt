-- ===== src/Examples/Assess.antt =====
-- An assessment of two VPCs, of which one lies in the other.
use platform_ipam.Prelude.{
  ◌≡◌, refl, ◌↔◌, List, true, false, [], ◌∷◌, none, some, length, text_lt, insert_by, sort_by,
}
use platform_ipam.Netip.{masked, size, prefix_eq}
use platform_ipam.Netip.Text.{
  decimal_le, join_octets, parse_addr, parse_fields, parse_prefix, split_last, split_on,
}
use platform_ipam.Assess.{
  Text, ResourceRecord, vpc, no_primary, missing_field, validate, vpc_key, identity,
  prefix_interval, cidr_interval,
}
use platform_ipam.Assess.Collect.{
  dedupe_associations, dedupe_key, new_keys, group_of, source_less, best_of, survivors_of,
  vpc_records, resource_items, fixed_items, build_associations,
}
use platform_ipam.Assess.Sweep.{
  Relationship, contains, sweep_less, exempt, relate, sweep_from, sweep, related,
}
use platform_ipam.Assess.Matrix.{Matrix, confirmed}
use platform_ipam.Assess.Conflict.{
  Conflict, build_conflicts, conflict_less, conflict_id, conflict_of, side_of,
}
use platform_ipam.Assess.Conflict.Confirmed.{Communicates, conflict_of-confirmed_iff}
use platform_ipam.Assess.Conflict.Identity.{conflict_id_comm}
use platform_ipam.Assess.Report.{Options, report, assessed_items, cap_of, assess}
use platform_ipam.Assess.Report.Conflicts.{Exact, assess-Exact}
use platform_ipam.Assess.{Association}
use platform_ipam.Assess.Conflict.{position_for}
use platform_ipam.Examples.{pool_text, block_text}

abbrev digest : Text → Text
digest t = t

abbrev outer_vpc : ResourceRecord
outer_vpc = record {
  account_id = "1";
  account_name = "";
  region = "eu";
  type = vpc;
  resource_id = "a";
  cidr = pool_text;
  association_id = none;
  primary = no_primary;
  parent_id = "";
  az_id = "";
  name = "";
  state = "";
  observed_at = none;
  source_file = [];
  source_row = 1;
}

abbrev inner_vpc : ResourceRecord
inner_vpc = record outer_vpc { account_id = "2"; cidr = block_text; source_row = 2 }

abbrev estate : List ResourceRecord
estate = inner_vpc ∷ outer_vpc ∷ outer_vpc ∷ []

abbrev one_group : Matrix
one_group = record {
  groups = record { id = "g"; members = "1" ∷ "2" ∷ [] } ∷ [];
  must_communicate = [];
  must_stay_isolated = [];
  shared_services = [];
}

abbrev options : Options
options = record {
  matrix = some one_group;
  ownership = [];
  fixed = [];
  decisions = λ id. none;
  max_relationships = 0;
}

one_conflict : length (sweep (assessed_items estate [])) ≡ 1
unfolding assessed_items dedupe_associations dedupe_key new_keys group_of best_of survivors_of
    vpc_records resource_items fixed_items build_associations sweep sweep_less sweep_from relate
    exempt sort_by insert_by text_lt vpc_key identity cidr_interval prefix_interval prefix_eq masked
    size parse_prefix split_last split_on decimal_le join_octets parse_addr parse_fields source_less
one_conflict = refl

abbrev conflicts : List Conflict
conflicts =
    sort_by conflict_less
      (build_conflicts digest [] (some one_group) (λ id. none) (sweep (assessed_items estate [])))

reports : assess digest estate options ≡ report conflicts
unfolding assess cap_of validate missing_field
reports = rw one_conflict refl

assess-Exact_example : Exact digest estate options conflicts
assess-Exact_example = assess-Exact digest estate options conflicts reports

conflict_id_comm_example :
    conflict_id digest contains (identity outer_vpc) (identity inner_vpc)
    ≡ conflict_id digest contains (identity inner_vpc) (identity outer_vpc)
conflict_id_comm_example =
    conflict_id_comm digest contains (identity outer_vpc) (identity inner_vpc)

abbrev outer_item : Association
outer_item = record {
  start = 0x0a000000;
  end = 0x0a0000ff;
  key = vpc_key outer_vpc;
  rec = some outer_vpc;
  fixed = false;
  fx = none;
  identity = identity outer_vpc;
}

abbrev inner_item : Association
inner_item = record outer_item {
  end = 0x0a00003f;
  key = vpc_key inner_vpc;
  rec = some inner_vpc;
  identity = identity inner_vpc;
}

abbrev pair : Relationship
pair = related outer_item inner_item

conflict_of-confirmed_iff_example :
    ((conflict_of digest (pair ∷ []) [] (some one_group) (λ id. none) pair).impact ≡ confirmed)
    ↔ Communicates
        (some one_group)
        (side_of (pair ∷ []) one_group [] (position_for pair.kind true) outer_item).group
        (side_of (pair ∷ []) one_group [] (position_for pair.kind false) inner_item).group
conflict_of-confirmed_iff_example =
    conflict_of-confirmed_iff digest (pair ∷ []) [] (some one_group) (λ id. none) pair
