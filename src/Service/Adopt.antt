-- ===== src/Service/Adopt.antt =====
-- Adoption in internal/service/service.go: `pinnedCIDR` and what it asks of the inventory and of
-- the cloud, and `Service.Adopt` around `reserve`.
pub mod Pinned
use platform_ipam.Prelude.{
  ℕ, suc, String, List, [], ◌∷◌, Bool, true, false, not, ◌&&◌, ◌||◌, Option, none, some, any, ltb,
  leb, ◌==◌, string_eq, bytes_eq, nat_eq, values, lookup, if◌then◌else◌, ℤ, pos, negsuc,
}
use platform_ipam.Netip.{Prefix, masked, contains, overlaps, prefix_eq}
use platform_ipam.Netip.Text.{parse_prefix, print_prefix}
use platform_ipam.Domain.Policy.{Request, Pool, Config, Principal}
use platform_ipam.Domain.Errors.{Result, ok, err, fail, refuse_if, ◌>>=◌, ◌>>◌}
use platform_ipam.Domain.Rows.{
  Allocation, Operation, Binding, Network, Resource, Observation, InventorySnapshot, AdoptionRecord,
  is_released,
}
use platform_ipam.Domain.State.{State, or_zero, allocation_at}
use platform_ipam.Service.Choose.{overlapping, overlaps_excluded, allocation_blocks}
use platform_ipam.Service.Digests.{Digests}
use platform_ipam.Service.Reserve.Replay.{Reply, adopt_kind, is_retired, holder}
use platform_ipam.Service.Reserve.Plan.{Selected, Selection}
use platform_ipam.Service.Reserve.Handler.{Outside, Mode, reserve}

-- `Adoption`
pub record Pin : Type 0 where
  pub operator : String
  pub cidr : List ℕ
  pub network_id : String
  pub resource_id : String

abbrev allocation_tag : Resource → String
allocation_tag x = or_zero "" (lookup "platform-ipam:allocation-id" x.tags)

-- `childOfReviewedVPC`
unfoldable pub child_of_reviewed : Resource → Request → Prefix → String → Bool
child_of_reviewed x r p resource_id =
    r.scope == "vpc"
    && x.type == "subnet"
    && not (resource_id == "")
    && x.parent_id == resource_id
    && x.account_id == r.account_id
    && x.region == r.region
    && allocation_tag x == ""
    && elim (parse_prefix x.cidr) [
      | none ↦ false
      | some q ↦ leb p.bits q.bits && contains p (masked q).addr
    ]

-- `reviewedVPCChildren`: the masked primary prefixes of the children, with their ids.
unfoldable pub reviewed_children :
    List Resource → Request → Prefix → String → List (Prefix × String)
unfolding child_of_reviewed
reviewed_children [] r p resource_id = []
reviewed_children (x ∷ xs) r p resource_id =
    let rest = reviewed_children xs r p resource_id in
    if child_of_reviewed x r p resource_id
    then elim (parse_prefix x.cidr) [ none ↦ rest | some q ↦ (masked q, x.id) ∷ rest ]
    else rest

-- `children[q]`: the last child that was put there.
last_child : Prefix → List (Prefix × String) → Option String
last_child q [] = none
last_child q ((k, id) ∷ rest) = elim (last_child q rest) [
  | some later ↦ some later
  | none ↦ if prefix_eq k q then some id else none
]

is_child : List (Prefix × String) → Prefix → Bool
unfolding last_child
is_child children q = not (or_zero "" (last_child (masked q) children) == "")

-- Whether a network may stand, is the reviewed one, or forbids the adoption.
pub data Verdict : Type 0 where
  stands matches forbids : Verdict

-- One network against the reviewed one.
unfoldable pub verdict_on :
    Prefix → Request → String → String → List (Prefix × String) → Network → Verdict
unfolding is_child
verdict_on p r network_id own children n = elim (overlapping p n.cidr) [
  | none ↦ stands
  | some q ↦
      let unowned = n.imported && not n.owned && n.allocation_id == "" && n.operation_id == "" in
      if n.parent_pool
        || r.scope == "subnet" && n.allocation_id == r.parent_allocation_id && contains q p.addr
      then stands
      else if prefix_eq (masked q) p
          && n.id == network_id
          && (unowned || not (own == "") && n.allocation_id == own)
      then matches
      else if unowned && ltb p.bits q.bits && contains p q.addr && is_child children q
      then stands
      else forbids
]

unfoldable pub one_found : Option Network → ℕ → Result Network
one_found none n = fail 409 "adoption_refused"
one_found (some reviewed) n = if n == 1 then ok reviewed else fail 409 "adoption_refused"

unfoldable pub review_networks :
    (Network → Verdict) → List Network → Option Network → ℕ → Result Network
unfolding one_found
review_networks verdict [] reviewed n = one_found reviewed n
review_networks verdict (x ∷ xs) reviewed n = elim (verdict x) [
  | stands ↦ review_networks verdict xs reviewed n
  | matches ↦ review_networks verdict xs (some x) (suc n)
  | forbids ↦ fail 409 "adoption_refused"
]

-- `reviewedNetwork`
unfoldable pub reviewed_network :
    InventorySnapshot → Prefix → Request → String → String → List (Prefix × String) → Result Network
unfolding review_networks verdict_on
reviewed_network snap p r network_id own children =
    review_networks (verdict_on p r network_id own children) snap.networks none 0

-- `reviewedResource`
unfoldable pub reviewed_resource : Resource → Request → Prefix → String → String → Bool
reviewed_resource x r p resource_id parent_resource =
    x.id == resource_id
    && x.type == r.scope
    && x.account_id == r.account_id
    && x.region == r.region
    && elim (parse_prefix x.cidr) [ none ↦ false | some q ↦ prefix_eq (masked q) p ]
    && allocation_tag x == ""
    && (not (r.scope == "subnet")
        || not (parent_resource == "")
          && x.parent_id == parent_resource
          && not (r.availability_zone_id == "")
          && x.zone_id == r.availability_zone_id)

-- Some range of the resource overlaps the pin, and it is not the parent VPC around it.
occupies : Prefix → Request → String → Resource → Bool
occupies p r parent_resource x =
    any
      (λ raw. elim (overlapping p raw) [
        | none ↦ false
        | some q ↦ not (
            r.scope == "subnet"
            && x.type == "vpc"
            && not (parent_resource == "")
            && x.id == parent_resource
            && contains q p.addr)
      ])
      (x.cidr ∷ x.cidrs)

review_resources : Prefix → Request → String → String → List Resource → ℕ → Result (Unit {0})
unfolding occupies reviewed_resource child_of_reviewed
review_resources p r resource_id parent_resource [] n =
    refuse_if (not (n == 1)) 409 "adoption_refused"
review_resources p r resource_id parent_resource (x ∷ xs) n =
    let pass = review_resources p r resource_id parent_resource xs n in
    let count = review_resources p r resource_id parent_resource xs (suc n) in
    if not (occupies p r parent_resource x) || child_of_reviewed x r p resource_id
    then pass
    else if reviewed_resource x r p resource_id parent_resource
    then count
    else fail 409 "adoption_refused"

-- `reviewedOccupancy`
unfoldable pub reviewed_occupancy :
    Observation → Prefix → Request → String → String → Result (Unit {0})
unfolding review_resources
reviewed_occupancy obs p r resource_id parent_resource =
    review_resources p r resource_id parent_resource obs.resources 0

abbrev has_length : ℤ → ℕ → Bool
has_length (pos n) bits = bits == n
has_length (negsuc n) bits = false

abbrev bound_resource : Option Allocation → String
bound_resource none = ""
bound_resource (some parent) = elim parent.binding [ none ↦ "" | some b ↦ b.resource_id ]

-- The part of `pinnedCIDR` after the two prefixes are read.
unfoldable pub pinned_in :
    Pool
    → Request
    → InventorySnapshot
    → Observation
    → State
    → Pin
    → Prefix
    → Prefix
    → Result (List ℕ × Network)
unfolding reviewed_children reviewed_network reviewed_occupancy
pinned_in pool r snap obs st pin base p = do
  refuse_if (not (prefix_eq p (masked p))) 422 "invalid_request"
  refuse_if (not (has_length r.prefix_length p.bits)) 422 "invalid_request"
  refuse_if (not (contains base p.addr) || ltb p.bits base.bits) 422 "policy_violation"
  refuse_if (overlaps_excluded p pool.excluded_cidrs) 409 "adoption_refused"
  reviewed ←
      reviewed_network snap p r pin.network_id ""
        (reviewed_children obs.resources r p pin.resource_id)
  reviewed_occupancy obs p r pin.resource_id
      (bound_resource (lookup r.parent_allocation_id st.allocations))
  refuse_if (any (allocation_blocks pool p r) (values st.allocations)) 409 "adoption_refused"
  ok (print_prefix p, reviewed)

-- `pinnedCIDR`
unfoldable pub pinned_cidr :
    Pool → Request → InventorySnapshot → Observation → State → Pin → Result (List ℕ × Network)
unfolding pinned_in
pinned_cidr pool r snap obs st pin = elim (parse_prefix pool.cidr) [
  | none ↦ fail 422 "policy_violation"
  | some base ↦ elim (parse_prefix pin.cidr) [
    | none ↦ fail 422 "invalid_request"
    | some p ↦ pinned_in pool r snap obs st pin (masked base) p
  ]
]

adoption_record : Pin → Network → AdoptionRecord
adoption_record pin reviewed = record {
  operator = pin.operator;
  network_id = pin.network_id;
  resource_id = pin.resource_id;
  import_batch = reviewed.import_batch;
  prior_status = reviewed.status;
  prior_account_id = reviewed.aws_account_id;
  prior_region = reviewed.aws_region;
}

-- `pinnedCIDR` as the selection of an adoption.
unfoldable pub adoption_selection : Pin → Pool → Request → InventorySnapshot → Selection
unfolding adoption_record
adoption_selection pin pool r snap st latest = elim (pinned_cidr pool r snap latest st pin) [
  | err e ↦ err e
  | ok (cidr, reviewed) ↦
      ok (record { cidr = cidr; adoption = some (adoption_record pin reviewed) })
]

-- `adoptedTheReviewedObject`
unfoldable pub adopted_the_reviewed : Operation → String → Bool
adopted_the_reviewed o inventory_id = elim o.adoption [
  | none ↦ false
  | some rec ↦ not (inventory_id == "") && inventory_id == rec.network_id
]

-- `adoptedAs`
unfoldable pub adopted_as : Allocation → Pin → Result (Unit {0})
adopted_as a pin = if is_retired a.state then ok tt else elim (parse_prefix pin.cidr) [
  | none ↦ fail 409 "adoption_conflict"
  | some reviewed ↦ do
    refuse_if (not (a.cidr == print_prefix (masked reviewed))) 409 "adoption_conflict"
    refuse_if (a.committed && not (a.inventory_id == pin.network_id)) 409 "adoption_conflict"
]

abbrev pub adoption_mode : Pin → Mode
adoption_mode pin = record {
  kind = adopt_kind;
  actor = pin.operator;
  commit_actor = pin.operator;
  selection = adoption_selection pin;
  reviewed = adopted_the_reviewed;
}

-- The checks of `Adopt` before the body.
adopt_checks : Principal → Request → Pin → State → Result (Unit {0})
unfolding adopted_as
adopt_checks p r pin st = do
  refuse_if (pin.operator == "") 422 "invalid_request"
  refuse_if (pin.cidr == [] || pin.network_id == "" || pin.resource_id == "") 422 "invalid_request"
  refuse_if (r.allocation_key == "") 422 "invalid_request"
  elim (holder st p.tenant_id r.allocation_key) [ none ↦ ok tt | some old ↦ adopted_as old pin ]

checked_reply : Pin → Reply → Result Reply
unfolding adopted_as
checked_reply pin reply = elim reply.allocation [
  | none ↦ ok reply
  | some a ↦ do adopted_as a pin; ok reply
]

-- `Service.Adopt`
unfoldable pub adopt :
    Digests → Config → Principal → Outside → Request → Pin → State → Result Reply × State
unfolding adopt_checks checked_reply
adopt h cfg p out request pin st = elim (adopt_checks p request pin st) [
  | err e ↦ (err e, st)
  | ok u ↦
      let (reply, st') =
        reserve h cfg p (adoption_mode pin) out request.allocation_key
          (record request { description = ""; labels = none }) st in
      (elim reply [ err e ↦ err e | ok r ↦ checked_reply pin r ], st')
]
