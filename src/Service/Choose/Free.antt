-- ===== src/Service/Choose/Free.antt =====
-- What the test of a candidate excludes: excluded ranges, networks, cloud ranges and allocations.
use platform_ipam.Prelude.{
  ℕ, ◌≡◌, true, false, List, ◌∷◌, Memᴰ, values, ◌⊎◌, some, any-mem, ◌==◌, string_eq, text_eq_iff,
  arith,
}
use platform_ipam.Netip.{Prefix, contains, overlaps}
use platform_ipam.Netip.Text.{parse_prefix}
use platform_ipam.Domain.Policy.{Pool, Request}
use platform_ipam.Domain.Rows.{
  Allocation, Network, Resource, Observation, InventorySnapshot, is_released,
}
use platform_ipam.Domain.State.{State}
use platform_ipam.Service.Eligible.{parent_resource_matches}
use platform_ipam.Service.Choose.{
  overlapping, overlaps_excluded, network_blocks, range_blocks, resource_blocks, allocation_blocks,
  is_free, is_hit,
}

-- An allocation that does not block a prefix and meets it is committed, and released, of another
-- domain, or the parent of a subnet, around it.
pub unblocked :
    (pool : Pool) (p : Prefix) (r : Request) (a : Allocation) (q : Prefix)
    → allocation_blocks pool p r a ≡ false
    → parse_prefix a.cidr ≡ some q
    → overlaps p q ≡ true
    → (a.committed ≡ true)
      × ((is_released a.state ≡ true)
          ⊎ ((a.domain_id == pool.domain_id) ≡ false)
          ⊎ ((r.scope ≡ "subnet") × (a.id ≡ r.parent_allocation_id) × (contains q p.addr ≡ true)))
unfolding allocation_blocks overlapping
unblocked pool p r a q b e o =
    ground (arith, b, e, o, text_eq_iff r.scope "subnet", text_eq_iff a.id r.parent_allocation_id)

module _ (pool : Pool) (r : Request) (snap : InventorySnapshot) (obs : Observation) (st : State)
    (p : Prefix) (free : is_free pool r snap obs st p ≡ true) where
  excluded_free : (raw : List ℕ) → Memᴰ raw pool.excluded_cidrs → is_hit (overlapping p raw) ≡ false
  unfolding is_free overlaps_excluded
  excluded_free raw m =
      any-mem (λ raw. is_hit (overlapping p raw)) pool.excluded_cidrs raw (ground (arith, free)) m

  network_free : (n : Network) → Memᴰ n snap.networks → network_blocks p r n ≡ false
  unfolding is_free
  network_free n m = any-mem (network_blocks p r) snap.networks n (ground (arith, free)) m

  resource_free : (x : Resource) → Memᴰ x obs.resources → resource_blocks st p r x ≡ false
  unfolding is_free
  resource_free x m = any-mem (resource_blocks st p r) obs.resources x (ground (arith, free)) m

  pub allocation_free :
      (a : Allocation) → Memᴰ a (values st.allocations) → allocation_blocks pool p r a ≡ false
  unfolding is_free
  allocation_free a m =
      any-mem (allocation_blocks pool p r) (values st.allocations) a (ground (arith, free)) m

  -- No excluded range of the pool meets a free block.
  pub free-excluded :
      (raw : List ℕ) (q : Prefix)
      → Memᴰ raw pool.excluded_cidrs
      → parse_prefix raw ≡ some q
      → overlaps p q ≡ false
  unfolding overlapping
  free-excluded raw q m e = ground (arith, excluded_free raw m, e)

  -- A network that meets a free block is a parent pool, or the parent of a subnet, around it.
  pub free-network :
      (n : Network) (q : Prefix)
      → Memᴰ n snap.networks
      → parse_prefix n.cidr ≡ some q
      → overlaps p q ≡ true
      → (n.parent_pool ≡ true)
        ⊎ ((r.scope ≡ "subnet")
            × (n.allocation_id ≡ r.parent_allocation_id)
            × (contains q p.addr ≡ true))
  unfolding network_blocks overlapping
  free-network n q m e o = ground (
    arith,
    network_free n m,
    e,
    o,
    text_eq_iff r.scope "subnet",
    text_eq_iff n.allocation_id r.parent_allocation_id,
  )

  -- A cloud range that meets a free block is that of the VPC which the parent is bound to.
  pub free-range :
      (x : Resource) (raw : List ℕ) (q : Prefix)
      → Memᴰ x obs.resources
      → Memᴰ raw (x.cidr ∷ x.cidrs)
      → parse_prefix raw ≡ some q
      → overlaps p q ≡ true
      → (r.scope ≡ "subnet")
        × (x.type ≡ "vpc")
        × (parent_resource_matches st r.parent_allocation_id x.id ≡ true)
        × (contains q p.addr ≡ true)
  unfolding resource_blocks range_blocks overlapping
  free-range x raw q m k e o = ground (
    arith,
    any-mem (range_blocks st p r x) (x.cidr ∷ x.cidrs) raw (resource_free x m) k,
    e,
    o,
    text_eq_iff r.scope "subnet",
    text_eq_iff x.type "vpc",
  )
