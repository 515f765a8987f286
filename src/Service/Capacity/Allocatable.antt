-- ===== src/Service/Capacity/Allocatable.antt =====
-- The allocatable blocks of a capacity report (internal/service/capacity.go) are the free ones.
use native.Mathlib.Nat.{pow-le-pow_right}
use platform_ipam.Prelude.{
  ◌==◌, string_eq, ℕ, ◌-◌, ◌+◌, ◌^◌, ◌≤◌, ◌≡◌, ap, String, List, [], ◌∷◌, Bool, not, ◌||◌, ltb, inl,
  inr, Option, none, some, last?, values, All, All-append, subst, Option-cases, Bool-cases, arith,
  if◌then◌else◌,
}
use platform_ipam.Netip.{Prefix, IsValid, masked}
use platform_ipam.Netip.Text.{parse_prefix}
use platform_ipam.Netip.Printing.{parse_prefix-IsValid}
use platform_ipam.Domain.Policy.{Config, Domain, Pool, Principal}
use platform_ipam.Domain.Errors.{ok, ok_eq}
use platform_ipam.Domain.Rows.{Allocation, Observation, InventorySnapshot, is_released}
use platform_ipam.Domain.State.{State, observations_at}
use platform_ipam.Service.Eligible.{domain_for}
use platform_ipam.Service.Capacity.{occupied_blocks, sub64}
use platform_ipam.Service.Capacity.Counting.{count_below}
use platform_ipam.Service.Capacity.Free.{total, touched, occupied_blocks-free}
use platform_ipam.Service.Capacity.Report.{
  Category, uncounted, in_excluded, resource_ranges, network_ranges, networks_of, start,
  add_planned, Holdings, CapacityReport, Counts, add, add_each, add_observed, add_allocations,
  collect, prefixes, allocatable, counts, by_length, select_last, capacity, category_of,
}

abbrev AreValid : Holdings → Type 0
AreValid x = All (λ (e : Prefix × Category). IsValid e.0) x.occupied

add-AreValid : (raw : List ℕ) (c : Category) (x : Holdings) → AreValid x → AreValid (add raw c x)
unfolding add
add-AreValid raw c x v = elim (Option-cases (parse_prefix raw)) [
  | inl e ↦ rw (add, e) v
  | inr (q, e) ↦
      rw (add, e)
        (All-append (λ (e : Prefix × Category). IsValid e.0) x.occupied ((q, c) ∷ []) v
          (parse_prefix-IsValid raw q e, tt))
]

add_each-AreValid :
    (c : Category) (raws : List (List ℕ)) (x : Holdings) → AreValid x → AreValid (add_each c raws x)
unfolding add_each
add_each-AreValid c [] x v = v
add_each-AreValid c (raw ∷ raws) x v =
    add_each-AreValid c raws (add raw c x) (add-AreValid raw c x v)

add_allocations-AreValid :
    (p : Principal) (d : String) (rows : List Allocation) (x : Holdings)
    → AreValid x
    → AreValid (add_allocations p d rows x)
unfolding add_allocations
add_allocations-AreValid p d [] x v = v
add_allocations-AreValid p d (a ∷ rows) x v =
    elim (Bool-cases (not (a.domain_id == d) || is_released a.state)) [
      | inl t ↦ rw (add_allocations, t) (add_allocations-AreValid p d rows x v)
      | inr t ↦
          rw (add_allocations, t)
            (add_allocations-AreValid p d rows (add a.cidr (category_of p a) x)
              (add-AreValid a.cidr (category_of p a) x v))
    ]

add_observed-AreValid :
    (cfg : Config) (d : Domain) (now : ℕ) (o : Option Observation) (x : Holdings)
    → AreValid x
    → AreValid (add_observed cfg d now o x)
unfolding add_observed
add_observed-AreValid cfg d now none x v = v
add_observed-AreValid cfg d now (some o) x v =
    add_each-AreValid uncounted (resource_ranges o.resources) x v

module _ (cfg : Config) (p : Principal) (pool : Pool) (d : Domain) (now : ℕ)
    (snapshot : Option (InventorySnapshot × Bool)) (st : State) where
  start-AreValid : AreValid (start snapshot)
  start-AreValid = elim snapshot as (λ s. AreValid (start s)) [ none ↦ tt | some s ↦ tt ]

  add_planned-AreValid : AreValid (add_planned pool snapshot)
  unfolding add_planned
  add_planned-AreValid =
      add_each-AreValid uncounted (network_ranges (networks_of snapshot))
        (add_each in_excluded pool.excluded_cidrs (start snapshot))
        (add_each-AreValid in_excluded pool.excluded_cidrs (start snapshot) start-AreValid)

  collect-AreValid : AreValid (collect cfg p pool d now snapshot st)
  unfolding collect
  collect-AreValid = add_allocations-AreValid p d.id (values st.allocations) _ (
      add_observed-AreValid cfg d now (last? (observations_at st d.id)) (add_planned pool snapshot)
        add_planned-AreValid)

prefixes-IsValid :
    (xs : List (Prefix × Category))
    → All (λ (e : Prefix × Category). IsValid e.0) xs
    → All IsValid (prefixes xs)
prefixes-IsValid [] v = tt
prefixes-IsValid ((q, c) ∷ xs) v = (v.0, prefixes-IsValid xs v.1)

-- The aligned blocks of the pool that nothing collected overlaps, and none where the collection is
-- not complete.
abbrev pub free_blocks : Prefix → ℕ → Holdings → ℕ
free_blocks base bits x =
    if x.complete
    then count_below (total base bits) (λ k. not (touched base bits (prefixes x.occupied) k))
    else 0

sub64_exact : (a b c : ℕ) → b + c ≡ a → a ≤ 2 ^ 32 → sub64 a b ≡ c
sub64_exact a b c e le = ground (arith, e, le)

module _ (base : Prefix) (x : Holdings) (v : IsValid base) (canonical : masked base ≡ base)
    (valid : AreValid x) where
  total_le : (bits : ℕ) → bits ≤ 32 → total base bits ≤ 2 ^ 32
  total_le bits bits_le =
      pow-le-pow_right {n = 2} (omega arith) {i = bits - base.bits} {j = 32} (omega arith)

  allocatable-free :
      (bits : ℕ) → base.bits ≤ bits → bits ≤ 32 → allocatable base bits x ≡ free_blocks base bits x
  unfolding allocatable
  allocatable-free bits longer bits_le =
      let split =
        occupied_blocks-free base bits v canonical longer bits_le (prefixes x.occupied)
          (prefixes-IsValid x.occupied valid) in
      let exact : sub64 (total base bits) (occupied_blocks base bits (prefixes x.occupied))
          ≡ count_below (total base bits) (λ k. not (touched base bits (prefixes x.occupied) k)) =
        sub64_exact _ _ _ split (total_le bits bits_le) in
      ap (λ n. if x.complete then n else 0) exact

  by_length-free :
      (lengths : List ℕ)
      → All
          (λ (e : ℕ × Counts). e.1.allocatable ≡ free_blocks base e.0 x)
          (by_length base x lengths)
  unfolding by_length counts
  by_length-free [] = tt
  by_length-free (bits ∷ rest) = elim (Bool-cases (ltb bits base.bits || ltb 32 bits)) [
    | inl t ↦ rw (by_length, t) (by_length-free rest)
    | inr t ↦
        rw (by_length, t)
          (allocatable-free bits (ground (arith, t)) (ground (arith, t)), by_length-free rest)
  ]

-- In the capacity report of a pool whose CIDR is canonical, the allocatable blocks of each length
-- are the aligned blocks of the pool that nothing collected overlaps, or none when the collection
-- is not complete; the difference of uint64 does not wrap.
pub capacity-free :
    (cfg : Config) (p : Principal) (id : String) (now : ℕ)
    (snapshot : Option (InventorySnapshot × Bool)) (st : State) (pool : Pool) (base : Prefix)
    (r : CapacityReport)
    → select_last p id cfg.pools none ≡ some pool
    → parse_prefix pool.cidr ≡ some base
    → masked base ≡ base
    → capacity cfg p id now snapshot st ≡ ok r
    → All
        (λ (e : ℕ × Counts).
          e.1.allocatable
          ≡ free_blocks base e.0
              (collect cfg p pool (domain_for cfg pool.domain_id) now snapshot st))
        r.by_prefix_length
unfolding capacity
capacity-free cfg p id now snapshot st pool base r found parsed canonical e =
    let d = domain_for cfg pool.domain_id in
    let x = collect cfg p pool d now snapshot st in
    let is : by_length base x pool.allowed_prefix_lengths ≡ r.by_prefix_length =
      ap (λ (c : CapacityReport). c.by_prefix_length) (ok_eq (rw (capacity, found, parsed) at e)) in
    subst (All (λ (e : ℕ × Counts). e.1.allocatable ≡ free_blocks base e.0 x)) is (
      by_length-free base x (parse_prefix-IsValid pool.cidr base parsed) canonical
        (collect-AreValid cfg p pool d now snapshot st) pool.allowed_prefix_lengths)
