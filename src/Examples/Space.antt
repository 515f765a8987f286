-- ===== src/Examples/Space.antt =====
-- Concrete blocks and pools, for the theorems about prefixes, the choice and the capacity.
use platform_ipam.Prelude.{◌≡◌, ◌↔◌, refl, [], ◌∷◌, true, false, none, some, arith}
use platform_ipam.Netip.{
  Prefix, IsValid, overlaps, contains, masked, size, addr_int, prefix_from_int,
}
use platform_ipam.Netip.Text.{
  print_prefix, print_decimal, decimal_le, join_octets, parse_addr, parse_fields, parse_prefix,
  print_addr, split_last, split_on,
}
use platform_ipam.Service.Choose.Excluded.{Shared, overlaps_excluded_iff}
use platform_ipam.Domain.Policy.{Pool}
use platform_ipam.Domain.State.{new_state}
use platform_ipam.Service.Choose.{
  choose_cidr, search_from, candidate, is_free, overlaps_excluded, overlapping,
}
use platform_ipam.Service.Choose.Candidates.{IsBlock}
use platform_ipam.Service.Choose.Sound.{Choice, choose_cidr-Choice, choose_cidr-none}
use platform_ipam.Service.Capacity.{occupied_blocks}
use platform_ipam.Service.Capacity.Counting.{count_below}
use platform_ipam.Service.Capacity.Free.{total, touched, occupied_blocks-touched}
use platform_ipam.Examples.{vpcs, wanted, empty_inventory, clean, pool_text, block_text}

-- 10.0.0.0/24, 10.0.0.0/26 and 10.0.0.64/26
abbrev whole : Prefix
whole = record { addr = 167772160; bits = 24 }

abbrev first_quarter : Prefix
first_quarter = record { addr = 167772160; bits = 26 }

abbrev second_quarter : Prefix
second_quarter = record { addr = 167772224; bits = 26 }

whole-IsValid : IsValid whole
whole-IsValid = record { addr_lt = omega arith; bits_le = omega arith }

first_quarter-IsValid : IsValid first_quarter
first_quarter-IsValid = record { addr_lt = omega arith; bits_le = omega arith }

second_quarter-IsValid : IsValid second_quarter
second_quarter-IsValid = record { addr_lt = omega arith; bits_le = omega arith }

overlaps_excluded_iff_example :
    (overlaps_excluded second_quarter (pool_text ∷ []) ≡ true)
    ↔ ∥ Shared second_quarter (pool_text ∷ []) ∥₁
overlaps_excluded_iff_example =
    overlaps_excluded_iff second_quarter (pool_text ∷ []) second_quarter-IsValid

chooses_first : choose_cidr vpcs wanted empty_inventory clean new_state ≡ some block_text
unfolding choose_cidr search_from candidate is_free overlaps_excluded overlapping new_state masked
    size addr_int prefix_from_int contains overlaps print_prefix print_decimal decimal_le
    join_octets parse_addr parse_fields parse_prefix print_addr split_last split_on
chooses_first = refl

choose_cidr-Choice_example : Choice vpcs wanted empty_inventory clean new_state block_text
choose_cidr-Choice_example =
    choose_cidr-Choice vpcs wanted empty_inventory clean new_state block_text chooses_first

-- A pool that is excluded as a whole.
abbrev closed : Pool
closed = record vpcs { excluded_cidrs = pool_text ∷ [] }

chooses_none : choose_cidr closed wanted empty_inventory clean new_state ≡ none
unfolding choose_cidr search_from candidate is_free overlaps_excluded overlapping new_state masked
    size addr_int prefix_from_int contains overlaps print_prefix print_decimal decimal_le
    join_octets parse_addr parse_fields parse_prefix print_addr split_last split_on
chooses_none = refl

pool_parses : parse_prefix pool_text ≡ some whole
unfolding decimal_le join_octets parse_addr parse_fields parse_prefix split_last split_on
pool_parses = refl

second_quarter-IsBlock : IsBlock (masked whole) 26 second_quarter
unfolding masked size contains
second_quarter-IsBlock = record {
  valid = second_quarter-IsValid;
  length = refl;
  canonical = refl;
  longer = omega arith;
  inside = refl;
}

choose_cidr-none_example :
    is_free closed wanted empty_inventory clean new_state second_quarter ≡ false
choose_cidr-none_example =
    choose_cidr-none closed wanted empty_inventory clean new_state whole 26 chooses_none pool_parses
      refl (omega arith) (omega arith) second_quarter second_quarter-IsBlock

whole_canonical : masked whole ≡ whole
unfolding masked size
whole_canonical = refl

occupied_blocks-touched_example :
    occupied_blocks whole 26 (second_quarter ∷ second_quarter ∷ [])
    ≡ count_below (total whole 26) (touched whole 26 (second_quarter ∷ second_quarter ∷ []))
occupied_blocks-touched_example =
    occupied_blocks-touched whole 26 whole-IsValid whole_canonical (omega arith) (omega arith)
      (second_quarter ∷ second_quarter ∷ []) (second_quarter-IsValid, (second_quarter-IsValid, tt))
