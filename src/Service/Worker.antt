-- ===== src/Service/Worker.antt =====
-- The worker of internal/service/worker.go: the recovery of holds that a crash left pending. What
-- the observer, the inventory and the clock answer is an argument.
pub mod Held
pub mod Recovered
pub mod Converted
pub mod Projections
pub mod Projected
pub mod Reconcile
pub mod Unmanaged
pub mod Claimed
pub mod Open
pub mod Alarms
pub mod Tick
pub mod Blind
use platform_ipam.Prelude.{
  ◌≡◌, refl, ◌⊎◌, inl, inr, ℕ, String, List, [], ◌∷◌, ◌++◌, Bool, false, not, ◌&&◌, ◌||◌, Option,
  none, some, any, ltb, length, ◌==◌, string_eq, bytes_eq, values, lookup, if◌then◌else◌,
}
use platform_ipam.Netip.{Prefix, contains}
use platform_ipam.Netip.Text.{parse_prefix}
use platform_ipam.Domain.Policy.{Config, Domain}
use platform_ipam.Domain.Errors.{Result, ok, err, fault}
use platform_ipam.Domain.Rows.{
  Allocation, Operation, OperationType, Resource, Observation, InventorySnapshot, AdoptionRecord,
  Event, is_pending, is_reserved,
}
use platform_ipam.Domain.State.{State, or_zero, allocation_at}
use platform_ipam.Domain.Time.{is_zero, before, sub, seconds}
use platform_ipam.Service.Digests.{Digests}
use platform_ipam.Service.Eligible.{domain_for}
use platform_ipam.Service.Choose.{overlapping}
use platform_ipam.Service.Observe.{trusted_observation}
use platform_ipam.Service.Raise.{worker_finding, resolve_finding, worker_event}
use platform_ipam.Service.Reclaim.{parent_resource}
use platform_ipam.Service.Adopt.{
  reviewed_children, reviewed_network, reviewed_occupancy, adopted_the_reviewed,
}
use platform_ipam.Service.Reserve.Replay.{adopt_kind}
use platform_ipam.Service.Reserve.Commit.{type_eq, commit_recovered}

-- An error of the inventory, as `errors.Is` and `errors.As` see it: `net_timeout` is what the
-- network error in its chain says of itself.
pub record InventoryError : Type 0 where
  pub is_uncertain : Bool
  pub is_deadline : Bool
  pub is_canceled : Bool
  pub net_timeout : Option Bool

-- What a call of the inventory returns.
pub data Answer {ℓ} (A : Type ℓ) : Type ℓ where
  failed_with : InventoryError → Answer A
  answers : A → Answer A

pub Answer-cases {ℓ} :
    {A : Type ℓ} (m : Answer A)
    → ((a : A) × (m ≡ answers a)) ⊎ ((e : InventoryError) × (m ≡ failed_with e))
Answer-cases (answers a) = inl (a, refl)
Answer-cases (failed_with e) = inr (e, refl)

-- `uncertainInventoryError`
unfoldable pub uncertain_inventory_error : InventoryError → Bool
uncertain_inventory_error e =
    e.is_uncertain || (e.is_deadline || e.is_canceled) || or_zero false e.net_timeout

-- `recoveryJob`
pub record RecoveryJob : Type 0 where
  pub allocation : Allocation
  pub operation : Operation

is_recovery_job : OperationType → Allocation → Operation → Bool
is_recovery_job t a o =
    type_eq o.type t
    && is_pending o.status
    && not (a.id == "")
    && not a.committed
    && is_reserved a.state

jobs_in : State → OperationType → List Operation → List RecoveryJob
unfolding is_recovery_job
jobs_in st t [] = []
jobs_in st t (o ∷ os) =
    let rest = jobs_in st t os in
    let a = allocation_at st o.allocation_id in
    if is_recovery_job t a o then record { allocation = a; operation = o } ∷ rest else rest

-- `pendingRecoveryJobs`
unfoldable pub pending_recovery_jobs : OperationType → State → List RecoveryJob
unfolding jobs_in
pending_recovery_jobs t st = jobs_in st t (values st.operations)

-- `Service.observe`, where `answer` is the observer's, and no observer is configured without one.
unfoldable pub observe : Option (Result Observation) → Domain → Result (Option Observation)
observe none d = ok none
observe (some answer) d =
    if d.id == "" || d.coverage_generation == "" || not (ltb 0 (length d.cloud_coverage))
    then err fault
    else elim answer [
      | err e ↦ err e
      | ok o ↦
          if not (o.domain_id == d.id)
            || not (o.generation == d.coverage_generation)
            || is_zero o.finished_at
            || is_zero o.started_at
            || before o.finished_at o.started_at
          then err fault
          else ok (some o)
    ]

-- What one round of a recovery is answered, its clocks in the order they are read, and what other
-- processes do before its transaction.
pub record RecoveryOutside : Type 0 where
  pub observed : Option (Result Observation)
  pub trust_clock : ℕ
  pub snapshot : Answer InventorySnapshot
  pub converted : Answer String
  pub age_clock : ℕ
  pub clock : ℕ
  pub event_id : String
  pub before_update : State → State

-- `recoveryEvidence`: the trusted observation, and the parent's resource.
unfoldable pub recovery_evidence :
    Config → RecoveryOutside → Allocation → State → Option (Observation × String)
unfolding observe
recovery_evidence cfg out a st =
    let d = domain_for cfg a.domain_id in
    elim (observe out.observed d) [
      | err e ↦ none
      | ok none ↦ none
      | ok (some o) ↦
          if trusted_observation o d out.trust_clock cfg.lifecycle.max_observation_age
          then some (o, if a.parent_allocation_id == "" then "" else parent_resource st a)
          else none
    ]

-- The VPC that the held subnet's parent is bound to.
unfoldable pub is_parent_vpc : Allocation → String → Prefix → Resource → Prefix → Bool
is_parent_vpc a parent_aws_id want x got =
    a.scope == "subnet"
    && x.type == "vpc"
    && not (parent_aws_id == "")
    && x.id == parent_aws_id
    && contains got want.addr

-- The resource that the allocation's own apply has made.
unfoldable pub is_own_resource : Allocation → Resource → Bool
is_own_resource a x =
    x.type == a.scope
    && x.cidr == a.cidr
    && x.account_id == a.account_id
    && x.region == a.region
    && or_zero "" (lookup "platform-ipam:allocation-id" x.tags) == a.id
    && or_zero "" (lookup "platform-ipam:allocation-key" x.tags) == a.allocation_key

-- One range of a resource that is neither.
unfoldable pub range_forbids : Allocation → String → Prefix → Resource → List ℕ → Bool
unfolding is_parent_vpc is_own_resource
range_forbids a parent_aws_id want x raw = elim (overlapping want raw) [
  | none ↦ false
  | some got ↦ not (is_parent_vpc a parent_aws_id want x got) && not (is_own_resource a x)
]

unfoldable pub resource_forbids : Allocation → String → Prefix → Resource → Bool
unfolding range_forbids
resource_forbids a parent_aws_id want x =
    any (range_forbids a parent_aws_id want x) (x.cidr ∷ x.cidrs)

-- `pendingReservationObservationSafe`
unfoldable pub pending_reservation_observation_safe : Allocation → Observation → String → Bool
unfolding resource_forbids
pending_reservation_observation_safe a o parent_aws_id = elim (parse_prefix a.cidr) [
  | none ↦ false
  | some want ↦ not (any (resource_forbids a parent_aws_id want) o.resources)
]

-- `flagStuckHold`
unfoldable pub flag_stuck_hold : Digests → Allocation → String → ℕ → State → State
flag_stuck_hold h a code at st = elim (lookup a.id st.allocations) [
  | none ↦ st
  | some held ↦ if held.committed then st else worker_finding h held code "CRITICAL" at st
]

-- `flagAgedReservation`: a hold younger than the age of an observation is left alone.
unfoldable pub flag_aged_reservation :
    Digests → Config → RecoveryJob → RecoveryOutside → State → State
unfolding flag_stuck_hold
flag_aged_reservation h cfg j out st =
    let threshold = seconds cfg.lifecycle.max_observation_age in
    if ltb 0 threshold && ltb (sub out.age_clock j.operation.updated_at) threshold
    then st
    else flag_stuck_hold h j.allocation "reservation_stuck" out.clock (out.before_update st)

-- What is recorded of a recovered reservation.
unfoldable pub reservation_recovered : Digests → RecoveryOutside → Allocation → State → State
reservation_recovered h out a st =
    resolve_finding h a "reservation_stuck"
      (worker_event out.event_id a "reservation_committed" a.updated_at st)

-- One round of `recoverReservations`.
unfoldable pub recover_reservation :
    Digests → Config → RecoveryJob → RecoveryOutside → State → State
unfolding recovery_evidence pending_reservation_observation_safe flag_aged_reservation
    reservation_recovered
recover_reservation h cfg j out st = elim (recovery_evidence cfg out j.allocation st) [
  | none ↦ st
  | some (o, parent_aws_id) ↦
      if not (pending_reservation_observation_safe j.allocation o parent_aws_id)
      then flag_aged_reservation h cfg j out st
      else elim out.converted [
        | failed_with e ↦
            if uncertain_inventory_error e then st else flag_aged_reservation h cfg j out st
        | answers inventory_id ↦
            if inventory_id == ""
            then flag_aged_reservation h cfg j out st
            else commit_recovered j.allocation.id j.operation inventory_id out.clock
                (reservation_recovered h out) (out.before_update st)
      ]
]

-- What is recorded of a recovered adoption, whose actor is the operator.
unfoldable pub adoption_recovered :
    Digests → AdoptionRecord → RecoveryOutside → Allocation → State → State
adoption_recovered h rec out a st =
    let event : Event = record {
      id = out.event_id;
      allocation_id = a.id;
      tenant_id = a.tenant_id;
      actor = rec.operator;
      action = adopt_kind.committed;
      at = a.updated_at;
      revision = a.revision;
    } in
    resolve_finding h a "adoption_stuck" (record st { events = st.events ++ event ∷ [] })

-- `flagStuckAdoption`
unfoldable pub flag_stuck_adoption : Digests → RecoveryJob → RecoveryOutside → State → State
unfolding flag_stuck_hold
flag_stuck_adoption h j out st =
    flag_stuck_hold h j.allocation "adoption_stuck" out.clock (out.before_update st)

-- The end of `recoverAdoption`, from the adapter's answer on.
unfoldable pub convert_adoption :
    Digests → RecoveryJob → AdoptionRecord → RecoveryOutside → State → State
unfolding flag_stuck_adoption adoption_recovered
convert_adoption h j rec out st = elim out.converted [
  | failed_with e ↦ if uncertain_inventory_error e then st else flag_stuck_adoption h j out st
  | answers inventory_id ↦
      if not (adopted_the_reviewed j.operation inventory_id)
      then flag_stuck_adoption h j out st
      else commit_recovered j.allocation.id j.operation inventory_id out.clock
          (adoption_recovered h rec out) (out.before_update st)
]

-- `recoverAdoption` from the inventory's snapshot on.
unfoldable pub review_adoption :
    Digests → RecoveryJob → AdoptionRecord → Prefix → Observation → RecoveryOutside → State → State
unfolding convert_adoption
review_adoption h j rec p o out st = elim out.snapshot [
  | failed_with e ↦ st
  | answers snap ↦
      if not snap.complete
      then st
      else elim (reviewed_network snap p j.allocation.request rec.network_id j.allocation.id
          (reviewed_children o.resources j.allocation.request p rec.resource_id)) [
            | err e ↦ flag_stuck_adoption h j out st
            | ok reviewed ↦ convert_adoption h j rec out st
          ]
]

-- `recoverAdoption` with its record and its prefix.
unfoldable pub observe_adoption :
    Digests → Config → RecoveryJob → AdoptionRecord → Prefix → RecoveryOutside → State → State
unfolding recovery_evidence review_adoption
observe_adoption h cfg j rec p out st = elim (recovery_evidence cfg out j.allocation st) [
  | none ↦ st
  | some (o, parent_aws_id) ↦
      elim (reviewed_occupancy o p j.allocation.request rec.resource_id parent_aws_id) [
        | err e ↦ flag_stuck_adoption h j out st
        | ok done ↦ review_adoption h j rec p o out st
      ]
]

-- `recoverAdoption`
unfoldable pub recover_adoption : Digests → Config → RecoveryJob → RecoveryOutside → State → State
unfolding observe_adoption
recover_adoption h cfg j out st = elim j.operation.adoption [
  | none ↦ flag_stuck_adoption h j out st
  | some rec ↦ elim (parse_prefix j.allocation.cidr) [
    | none ↦ flag_stuck_adoption h j out st
    | some p ↦ observe_adoption h cfg j rec p out st
  ]
]

-- The loops of `recoverReservations` and `recoverAdoptions`, each job with what it is answered;
-- `configured` is whether there is an inventory.
unfoldable pub recover_reservations :
    Digests → Config → Bool → List (RecoveryJob × RecoveryOutside) → State → State
unfolding recover_reservation
recover_reservations h cfg configured [] st = st
recover_reservations h cfg configured ((j, out) ∷ jobs) st =
    if configured
    then recover_reservations h cfg configured jobs (recover_reservation h cfg j out st)
    else st

unfoldable pub recover_adoptions :
    Digests → Config → Bool → List (RecoveryJob × RecoveryOutside) → State → State
unfolding recover_adoption
recover_adoptions h cfg configured [] st = st
recover_adoptions h cfg configured ((j, out) ∷ jobs) st =
    if configured
    then recover_adoptions h cfg configured jobs (recover_adoption h cfg j out st)
    else st
