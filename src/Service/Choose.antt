-- ===== src/Service/Choose.antt =====
-- `chooseCIDR` of internal/service/service.go: the first aligned block of the pool that nothing
-- occupies.
pub mod Search
pub mod Candidates
pub mod Sound
pub mod Free
pub mod Excluded
use platform_ipam.Prelude.{
  ℕ, zero, suc, ◌+◌, ◌-◌, ◌*◌, ◌^◌, String, List, ◌∷◌, Bool, true, false, not, ◌&&◌, ◌||◌, Option,
  none, some, any, values, ltb, ◌==◌, string_eq, if◌then◌else◌, ℤ, pos, negsuc,
}
use platform_ipam.Netip.{Prefix, masked, contains, overlaps, addr_int, prefix_from_int, size}
use platform_ipam.Netip.Text.{parse_prefix, print_prefix}
use platform_ipam.Domain.Policy.{Pool, Request}
use platform_ipam.Domain.Rows.{
  Allocation, Network, Resource, Observation, InventorySnapshot, is_released,
}
use platform_ipam.Domain.State.{State}
use platform_ipam.Service.Eligible.{parent_resource_matches}

-- `q, e := netip.ParsePrefix(raw); e == nil && p.Overlaps(q)`, with `q` where the test holds.
unfoldable pub overlapping : Prefix → List ℕ → Option Prefix
overlapping p raw = elim (parse_prefix raw) [
  | none ↦ none
  | some q ↦ if overlaps p q then some q else none
]

abbrev pub is_hit : Option Prefix → Bool
is_hit none = false
is_hit (some q) = true

-- `overlapsExcluded`
unfoldable pub overlaps_excluded : Prefix → List (List ℕ) → Bool
unfolding overlapping
overlaps_excluded p xs = any (λ raw. is_hit (overlapping p raw)) xs

unfoldable pub network_blocks : Prefix → Request → Network → Bool
network_blocks p r n = elim (overlapping p n.cidr) [
  | none ↦ false
  | some q ↦ not (
      n.parent_pool
      || r.scope == "subnet" && n.allocation_id == r.parent_allocation_id && contains q p.addr)
]

unfoldable pub range_blocks : State → Prefix → Request → Resource → List ℕ → Bool
range_blocks st p r resource raw = elim (overlapping p raw) [
  | none ↦ false
  | some q ↦ not (
      r.scope == "subnet"
      && resource.type == "vpc"
      && parent_resource_matches st r.parent_allocation_id resource.id
      && contains q p.addr)
]

unfoldable pub resource_blocks : State → Prefix → Request → Resource → Bool
unfolding range_blocks
resource_blocks st p r resource =
    any (range_blocks st p r resource) (resource.cidr ∷ resource.cidrs)

unfoldable pub allocation_blocks : Pool → Prefix → Request → Allocation → Bool
allocation_blocks pool p r a = elim (overlapping p a.cidr) [
  | none ↦ false
  | some q ↦
      not a.committed
      || not (is_released a.state)
        && a.domain_id == pool.domain_id
        && not (r.scope == "subnet" && a.id == r.parent_allocation_id && contains q p.addr)
]

-- One round of the loop: nothing excludes the candidate and nothing occupies it.
unfoldable pub is_free : Pool → Request → InventorySnapshot → Observation → State → Prefix → Bool
is_free pool r snap obs st p =
    not (overlaps_excluded p pool.excluded_cidrs)
    && not (any (network_blocks p r) snap.networks)
    && not (any (resource_blocks st p r) obs.resources)
    && not (any (allocation_blocks pool p r) (values st.allocations))

-- The loop over the candidates `i`, …, `i + n - 1`, for any test and any numbering of them.
unfoldable pub search_from : (Prefix → Bool) → (ℕ → Option Prefix) → ℕ → ℕ → Option Prefix
search_from free at zero i = none
search_from free at (suc n) i = elim (at i) [
  | none ↦ search_from free at n (i + 1)
  | some p ↦ let rest = search_from free at n (i + 1) in if free p then some p else rest
]

abbrev pub print_found : Option Prefix → Option (List ℕ)
print_found none = none
print_found (some p) = some (print_prefix p)

-- The `i`th block of `bits` bits from the first address of `base`.
unfoldable pub candidate : Prefix → ℕ → ℕ → Option Prefix
candidate base bits i = prefix_from_int (addr_int base.addr + i * size bits) bits

choose_in : Pool → Request → InventorySnapshot → Observation → State → Prefix → ℕ → Option Prefix
choose_in pool r snap obs st base bits =
    if ltb bits base.bits || ltb 32 bits
    then none
    else search_from (is_free pool r snap obs st) (candidate base bits) (2 ^ (bits - base.bits)) 0

choose_bits : Pool → Request → InventorySnapshot → Observation → State → Prefix → ℤ → Option Prefix
unfolding choose_in
choose_bits pool r snap obs st base (negsuc n) = none
choose_bits pool r snap obs st base (pos bits) = choose_in pool r snap obs st base bits

unfoldable pub choose_cidr :
    Pool → Request → InventorySnapshot → Observation → State → Option (List ℕ)
unfolding choose_bits
choose_cidr pool r snap obs st = elim (parse_prefix pool.cidr) [
  | none ↦ none
  | some base ↦ print_found (choose_bits pool r snap obs st (masked base) r.prefix_length)
]
