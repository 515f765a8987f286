-- ===== src/Service/Capacity.antt =====
-- `occupiedBlocks` and `capacity` of internal/service/capacity.go: how many aligned blocks of each
-- size are in use, by a union of intervals.
pub mod Counting
pub mod Intervals
pub mod Union
pub mod Free
pub mod Report
pub mod Allocatable
pub mod Taken
use platform_ipam.Prelude.{
  ℕ, zero, suc, ◌+◌, ◌-◌, ◌*◌, ◌/◌, ◌%◌, ◌^◌, max, min, List, [], ◌∷◌, Bool, true, false, not, ◌&&◌,
  ◌||◌, any, ltb, leb, Option, none, some, if◌then◌else◌,
}
use platform_ipam.Netip.{Prefix, masked, overlaps, size, addr_int}

pub record BlockInterval : Type 0 where
  pub first : ℕ
  pub last : ℕ

-- `a - b` on uint64.
abbrev pub sub64 : ℕ → ℕ → ℕ
sub64 a b = (a + 2 ^ 64 - b) % 2 ^ 64

-- The first and the last address of a prefix, cut to the range from `start` to `end`.
unfoldable pub interval_of : ℕ → ℕ → ℕ → Prefix → BlockInterval
interval_of start end bits p =
    let lo = addr_int (masked p).addr in
    let hi = lo + size p.bits - 1 in
    record {
      first = sub64 (if ltb lo start then start else lo) start / size bits;
      last = sub64 (if ltb end hi then end else hi) start / size bits;
    }

-- The loop that collects the intervals of the prefixes that meet the range.
unfoldable pub ranges_of : Prefix → ℕ → ℕ → ℕ → List Prefix → List BlockInterval
ranges_of base start end bits [] = []
ranges_of base start end bits (p ∷ ps) =
    let rest = ranges_of base start end bits ps in
    if overlaps base p then interval_of start end bits p ∷ rest else rest

-- `sort.Slice` by the first block.
unfoldable pub insert_range : BlockInterval → List BlockInterval → List BlockInterval
insert_range r [] = r ∷ []
insert_range r (s ∷ ss) =
    let rest = insert_range r ss in if ltb r.first s.first then r ∷ s ∷ ss else s ∷ rest

unfoldable pub sort_ranges : List BlockInterval → List BlockInterval
unfolding insert_range
sort_ranges [] = []
sort_ranges (r ∷ rs) = insert_range r (sort_ranges rs)

-- The two nested loops: `r` grows while the next interval meets or follows it, and is then counted.
unfoldable pub merge_from : BlockInterval → List BlockInterval → ℕ
merge_from r [] = r.last - r.first + 1
merge_from r (s ∷ ss) =
    let joined = merge_from (record r { last = if ltb r.last s.last then s.last else r.last }) ss in
    let apart = r.last - r.first + 1 + merge_from s ss in
    if leb s.first (r.last + 1) then joined else apart

unfoldable pub merge_all : List BlockInterval → ℕ
unfolding merge_from
merge_all [] = 0
merge_all (r ∷ rs) = merge_from r rs

-- `occupiedBlocks`
unfoldable pub occupied_blocks : Prefix → ℕ → List Prefix → ℕ
unfolding ranges_of sort_ranges merge_all
occupied_blocks base bits prefixes =
    let start = addr_int base.addr in
    let end = start + size base.bits - 1 in
    merge_all (sort_ranges (ranges_of base start end bits prefixes))
