-- ===== src/Examples/Capacity.antt =====
-- The capacity of a pool of which the first quarter is allocated.
use platform_ipam.Prelude.{
  ◌≡◌, refl, ℕ, [], ◌∷◌, Bool, true, false, not, ◌||◌, Option, none, some, All, Memᴰ, lookup, ◌==◌,
  string_eq,
}
use platform_ipam.Netip.{Prefix, overlaps, size, masked}
use platform_ipam.Netip.Text.{
  decimal_le, join_octets, parse_addr, parse_fields, parse_prefix, split_last, split_on,
}
use platform_ipam.Domain.Rows.{InventorySnapshot, is_released}
use platform_ipam.Domain.Errors.{ok}
use platform_ipam.Domain.State.{State}
use platform_ipam.Service.Eligible.{domain_for, eligible_string}
use platform_ipam.Service.Reserve.Plan.{held_allocation}
use platform_ipam.Service.Capacity.Free.{block, touched}
use platform_ipam.Service.Capacity.Report.{
  Holdings, CapacityReport, Counts, select_last, may_see, collect, by_length, capacity, prefixes,
}
use platform_ipam.Service.Capacity.Allocatable.{free_blocks, capacity-free}
use platform_ipam.Service.Capacity.Taken.{collect-touched}
use platform_ipam.Examples.{
  config, vpcs, home, red, noon, clean, owned_row, owned_state, empty_inventory,
}

abbrev base : Prefix
base = record { addr = 167772160; bits = 24 }

abbrev quarter : Prefix
quarter = record { addr = 167772160; bits = 26 }

abbrev full_inventory : Option (InventorySnapshot × Bool)
full_inventory = some (empty_inventory, false)

abbrev seen_state : State
seen_state = record owned_state { observations = ("home", clean ∷ []) ∷ [] }

abbrev holdings : Holdings
holdings = collect config red vpcs (domain_for config "home") noon full_inventory seen_state

selects : select_last red "vpcs" config.pools none ≡ some vpcs
unfolding select_last may_see eligible_string
selects = refl

parses : parse_prefix vpcs.cidr ≡ some base
unfolding decimal_le join_octets parse_addr parse_fields parse_prefix split_last split_on
parses = refl

canonical : masked base ≡ base
unfolding masked size
canonical = refl

abbrev report : CapacityReport
report = record {
  pool_id = "vpcs";
  observed_at = clean.finished_at;
  complete = holdings.complete;
  by_prefix_length = by_length base holdings (26 ∷ []);
}

reports : capacity config red "vpcs" noon full_inventory seen_state ≡ ok report
unfolding capacity select_last may_see eligible_string decimal_le join_octets parse_addr
    parse_fields parse_prefix split_last split_on lookup domain_for
reports = refl

capacity-free_example :
    All
      (λ (e : ℕ × Counts). e.1.allocatable ≡ free_blocks base e.0 holdings)
      report.by_prefix_length
capacity-free_example =
    capacity-free config red "vpcs" noon full_inventory seen_state vpcs base report selects parses
      canonical reports

held : (not (owned_row.domain_id == home.id) || is_released owned_row.state) ≡ false
unfolding held_allocation
held = refl

row_parses : parse_prefix owned_row.cidr ≡ some quarter
unfolding held_allocation decimal_le join_octets parse_addr parse_fields parse_prefix split_last
    split_on
row_parses = refl

meets : overlaps (block base 26 0) quarter ≡ true
unfolding overlaps size
meets = refl

collect-touched_example :
    touched base 26
      (prefixes (collect config red vpcs home noon full_inventory seen_state).occupied)
      0
    ≡ true
collect-touched_example =
    collect-touched config red vpcs home noon full_inventory seen_state owned_row quarter base 26 0
      (Memᴰ.head refl) held row_parses meets
