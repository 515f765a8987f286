-- ===== src/Assess/Report/Collected.antt =====
-- The items that the sweep compares are blocks of addresses.
use platform_ipam.Prelude.{
  List, [], ◌∷◌, inl, inr, any, ◌==◌, bytes_eq, All, All-append, sort_by, Option-cases, Bool-cases,
}
use platform_ipam.Assess.{Text, ResourceRecord, FixedRange, cidr_interval}
use platform_ipam.Assess.Collect.{
  dedupe_associations, resource_items, fixed_items, fixed_less, build_associations,
}
use platform_ipam.Assess.Sweep.Blocks.{IsBlock, cidr_interval-IsRange}
use platform_ipam.Assess.Report.{assessed_items}

resource_items-IsBlock : (rs : List ResourceRecord) → All IsBlock (resource_items rs).0
unfolding resource_items
resource_items-IsBlock [] = tt
resource_items-IsBlock (r ∷ rs) = elim (Option-cases (cidr_interval r.cidr)) [
  | inl e ↦ rw (All, e) (resource_items-IsBlock rs)
  | inr ((a, b), e) ↦ rw (All, e) (cidr_interval-IsRange r.cidr a b e, resource_items-IsBlock rs)
]

fixed_items-IsBlock :
    (seen : List Text) (fxs : List FixedRange) → All IsBlock (fixed_items seen fxs).0
unfolding fixed_items
fixed_items-IsBlock seen [] = tt
fixed_items-IsBlock seen (fx ∷ fxs) = elim (Option-cases (cidr_interval fx.cidr)) [
  | inl e ↦ rw (All, e) (fixed_items-IsBlock seen fxs)
  | inr ((a, b), e) ↦ elim (Bool-cases (any (λ c. c == fx.cidr) seen)) [
    | inl t ↦ rw (All, e, t) (fixed_items-IsBlock seen fxs)
    | inr t ↦
        rw (All, e, t)
          (cidr_interval-IsRange fx.cidr a b e, fixed_items-IsBlock (fx.cidr ∷ seen) fxs)
  ]
]

pub assessed_items-IsBlock :
    (records : List ResourceRecord) (fixed : List FixedRange)
    → All IsBlock (assessed_items records fixed)
unfolding assessed_items build_associations
assessed_items-IsBlock records fixed =
    let rows = (dedupe_associations records).0 in
    let ranges = sort_by fixed_less fixed in
    All-append IsBlock (resource_items rows).0 (fixed_items [] ranges).0
      (resource_items-IsBlock rows) (fixed_items-IsBlock [] ranges)
