-- ===== src/Service/Observe.antt =====
-- Observations in internal/service/service.go: when one is trusted, how the ledger keeps them, and
-- what occupancy they and an inventory snapshot show.
pub mod History
use platform_ipam.Prelude.{
  ℕ, zero, suc, ◌-◌, String, List, [], ◌∷◌, ◌++◌, Bool, true, false, not, ◌&&◌, ◌||◌, Option, none,
  some, any, ltb, leb, ◌==◌, string_eq, bytes_eq, nat_eq, length, drop, last?, lookup, insert,
  if◌then◌else◌,
}
use platform_ipam.Netip.{Prefix, contains, overlaps}
use platform_ipam.Netip.Text.{parse_prefix}
use platform_ipam.Domain.Policy.{Domain}
use platform_ipam.Domain.Rows.{
  Allocation, Binding, Network, Resource, Observation, InventorySnapshot,
}
use platform_ipam.Domain.State.{State, or_zero, observations_at}
use platform_ipam.Domain.Time.{is_zero, before, after, sub, seconds}
use platform_ipam.Service.Choose.{overlapping}

-- `nowFresh`
unfoldable pub now_fresh : ℕ → ℕ → ℕ → Bool
now_fresh now observed max_seconds =
    if is_zero observed || after observed now
    then false
    else leb (sub now observed) (seconds (if max_seconds == 0 then 600 else max_seconds))

-- `trustedObservation`
unfoldable pub trusted_observation : Observation → Domain → ℕ → ℕ → Bool
unfolding now_fresh
trusted_observation o d now max_age =
    ltb 0 (length d.cloud_coverage)
    && o.domain_id == d.id
    && o.generation == d.coverage_generation
    && o.complete
    && not (is_zero o.started_at)
    && not (is_zero o.finished_at)
    && not (before o.finished_at o.started_at)
    && now_fresh now o.finished_at max_age

-- `xs[len(xs)-1] = o`
abbrev replace_last : List Observation → Observation → List Observation
replace_last [] o = []
replace_last (x ∷ []) o = o ∷ []
replace_last (x ∷ y ∷ xs) o = x ∷ replace_last (y ∷ xs) o

-- `len(xs) > 0 && test(xs[len(xs)-1])`
abbrev on_last : (Observation → Bool) → Option Observation → Bool
on_last test none = false
on_last test (some o) = test o

-- The newest rows: an observation of the same instant replaces the last one.
unfoldable pub append_observation : List Observation → Observation → List Observation
append_observation xs o =
    if on_last (λ last. o.finished_at == last.finished_at) (last? xs)
    then replace_last xs o
    else xs ++ o ∷ []

unfoldable pub newest : ℕ → List Observation → List Observation
newest n xs = if ltb n (length xs) then drop (length xs - n) xs else xs

-- The rows of the domain after `o`: an incomplete observation, and one of another generation,
-- drops what was there.
unfoldable pub next_rows : List Observation → Option String → Observation → List Observation
unfolding append_observation newest
next_rows xs coverage o = newest 64 (
    append_observation
      (if not o.complete || not (or_zero "" coverage == o.generation) then [] else xs) o)

-- `recordObservation`: an observation older than the last one is dropped.
unfoldable pub record_observation : State → Observation → State
unfolding next_rows
record_observation st o =
    if on_last (λ last. before o.finished_at last.finished_at)
      (last? (observations_at st o.domain_id))
    then st
    else record st {
      observations =
          insert o.domain_id
            (next_rows (observations_at st o.domain_id) (lookup o.domain_id st.coverage) o)
            st.observations;
      coverage = insert o.domain_id o.generation st.coverage;
    }

network_conflicts : Allocation → Prefix → Network → Bool
network_conflicts a cidr n = elim (overlapping cidr n.cidr) [
  | none ↦ false
  | some q ↦ not (
      n.parent_pool
      || n.allocation_id == a.id
      || a.scope == "subnet" && n.allocation_id == a.parent_allocation_id && contains q cidr.addr)
]

-- `snapshotConflict`
unfoldable pub snapshot_conflict : Allocation → InventorySnapshot → Bool
unfolding network_conflicts
snapshot_conflict a snap = elim (parse_prefix a.cidr) [
  | none ↦ true
  | some cidr ↦ any (network_conflicts a cidr) snap.networks
]

resource_exempt : Allocation → String → Resource → Bool
resource_exempt a parent_aws_id x =
    a.scope == "subnet"
    && x.type == "vpc"
    && not (parent_aws_id == "")
    && x.id == parent_aws_id
    && x.account_id == a.account_id
    && x.region == a.region

resource_conflicts : Allocation → String → Prefix → Resource → Bool
unfolding resource_exempt
resource_conflicts a parent_aws_id cidr x =
    any
      (λ raw. elim (overlapping cidr raw) [
        | none ↦ false
        | some q ↦ not (resource_exempt a parent_aws_id x)
      ])
      (x.cidr ∷ x.cidrs)

-- `observationConflict`; no parent's resource is the empty id.
unfoldable pub observation_conflict : Allocation → Observation → String → Bool
unfolding resource_conflicts
observation_conflict a o parent_aws_id = elim (parse_prefix a.cidr) [
  | none ↦ true
  | some cidr ↦ any (resource_conflicts a parent_aws_id cidr) o.resources
]

-- What a binding's resource has to show: the tags, the zone, the parent and the primary CIDR.
unfoldable pub carries_binding : Resource → String → String → List ℕ → String → String → Bool
carries_binding x id key expected_cidr expected_az expected_parent =
    or_zero "" (lookup "platform-ipam:allocation-id" x.tags) == id
    && (key == "" || or_zero "" (lookup "platform-ipam:allocation-key" x.tags) == key)
    && (expected_az == "" || x.zone_id == expected_az)
    && (expected_parent == "" || x.parent_id == expected_parent)
    && (expected_cidr == [] || x.cidr == expected_cidr)

names_resource : Binding → Resource → Bool
names_resource b x =
    x.id == b.resource_id
    && x.type == b.resource_type
    && x.account_id == b.account_id
    && x.region == b.region

-- `bindingObserved`: the first resource that the binding names decides.
first_named : Binding → (Resource → Bool) → List Resource → Bool
unfolding names_resource
first_named b test [] = false
first_named b test (x ∷ xs) =
    let rest = first_named b test xs in if names_resource b x then test x else rest

unfoldable pub binding_observed :
    Observation → Binding → String → String → List ℕ → String → String → Bool
unfolding first_named carries_binding
binding_observed o b id key expected_cidr expected_az expected_parent =
    if not o.complete
    then false
    else first_named b (λ x. carries_binding x id key expected_cidr expected_az expected_parent)
        o.resources
