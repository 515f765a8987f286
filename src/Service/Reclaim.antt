-- ===== src/Service/Reclaim.antt =====
-- Reclaiming space in internal/service/service.go: `reclaimEligible`, `reclaimFence` and the two
-- transactions of `reclaimTick`.
pub mod Scans
pub mod Gates
use platform_ipam.Prelude.{
  ℕ, suc, String, List, [], ◌∷◌, ◌++◌, ◌+◌, Bool, true, false, not, ◌&&◌, ◌||◌, Option, none, some,
  any, ltb, leb, ◌==◌, string_eq, nat_eq, values, lookup, insert, if◌then◌else◌,
}
use mathlib.Core.List.{reverse}
use platform_ipam.Domain.Policy.{Config, Domain}
use platform_ipam.Domain.Rows.{
  Allocation, Operation, Binding, Observation, InventorySnapshot, released, is_quarantined,
  is_released, is_pending, is_reclaim, reclaim_operation, pending,
}
use platform_ipam.Domain.State.{State, allocation_at, operation_at, observations_at}
use platform_ipam.Domain.Time.{before, sub, seconds}
use platform_ipam.Service.Eligible.{domain_for}
use platform_ipam.Service.Observe.{
  trusted_observation, record_observation, observation_conflict, snapshot_conflict,
}
use platform_ipam.Service.Raise.{worker_event}
use platform_ipam.Service.Reserve.Commit.{succeeded_operation}

abbrev pub resource_of : Option Binding → String
resource_of none = ""
resource_of (some b) = b.resource_id

-- The cloud resource of the parent, and the empty id where there is none.
abbrev pub parent_resource : State → Allocation → String
parent_resource st a = resource_of (allocation_at st a.parent_allocation_id).binding

-- What the walk over the observations needs.
pub record Gate : Type 0 where
  pub allocation : Allocation
  pub domain : Domain
  pub now : ℕ
  pub max_age : ℕ
  pub requested : ℕ
  pub parent_id : String
  pub need : ℕ
  pub spacing : ℕ

-- The observation shows, after the release request, that nothing uses the space.
unfoldable pub shows_absence : Gate → Observation → Bool
shows_absence g o =
    trusted_observation o g.domain g.now g.max_age
    && not (before o.started_at g.requested)
    && not (observation_conflict g.allocation o g.parent_id)

-- The loop from the newest row back: `count` scans so far, the last of them at `previous`.
unfoldable pub count_scans : Gate → ℕ → ℕ → List Observation → Bool
count_scans g count previous [] = false
count_scans g count previous (o ∷ os) =
    let taken = count == 0 || leb (seconds g.spacing) (sub previous o.finished_at) in
    let count' = if taken then suc count else count in
    let previous' = if taken then o.finished_at else previous in
    let rest = count_scans g count' previous' os in
    if not (shows_absence g o) then false else if leb g.need count' then true else rest

-- The reservation's own part of the test: quarantined, committed, and its quarantine over.
abbrev over : Option ℕ → ℕ → Bool
over none now = false
over (some until) now = not (before now until)

unfoldable pub quarantine_over : Allocation → ℕ → Bool
quarantine_over a now = is_quarantined a.state && a.committed && over a.quarantine_until now

abbrev pub live_child : String → Allocation → Bool
live_child id child = child.parent_allocation_id == id && not (is_released child.state)

abbrev pub busy_in : String → Operation → Bool
busy_in domain_id o = o.domain_id == domain_id && is_pending o.status

-- `RequiredAbsenceScans` is at least 2, and `MinScanSpacing` 300 seconds where it is not set.
unfoldable pub gate_of : State → Allocation → Config → ℕ → ℕ → Gate
gate_of st a cfg now requested = record {
  allocation = a;
  domain = domain_for cfg a.domain_id;
  now = now;
  max_age = cfg.lifecycle.max_observation_age;
  requested = requested;
  parent_id = parent_resource st a;
  need =
      if ltb cfg.lifecycle.required_absence_scans 2
      then 2
      else cfg.lifecycle.required_absence_scans;
  spacing = if ltb cfg.lifecycle.min_scan_spacing 1 then 300 else cfg.lifecycle.min_scan_spacing;
}

unfoldable pub reclaim_eligible : State → Allocation → Config → ℕ → Bool
unfolding quarantine_over gate_of
reclaim_eligible st a cfg now = elim a.release_requested_at [
  | none ↦ false
  | some requested ↦
      quarantine_over a now
      && not (any (live_child a.id) (values st.allocations))
      && not (any (busy_in a.domain_id) (values st.operations))
      && count_scans (gate_of st a cfg now requested) 0 0 (reverse (observations_at st a.domain_id))
]

abbrev pub without : String → List (String × Operation) → List (String × Operation)
without id [] = []
without id ((k, o) ∷ m) = let rest = without id m in if k == id then rest else (k, o) ∷ rest

-- `reclaimFence`: every gate again, with only the deletion job itself left out.
unfoldable pub reclaim_fence : State → Allocation → String → Config → ℕ → Bool
unfolding reclaim_eligible
reclaim_fence st a operation_id cfg now =
    let current = operation_at st operation_id in
    is_pending current.status
    && is_reclaim current.type
    && current.allocation_id == a.id
    && reclaim_eligible (record st { operations = without operation_id st.operations }) a cfg now

-- Planning one deletion: its operation, and the blocker on the allocation.
unfoldable pub plan_reclaim : Allocation → String → String → ℕ → State → State
plan_reclaim a operation_id event_id now st =
    let b = record a { release_blockers = "pending_operation" ∷ []; updated_at = now } in
    worker_event event_id b "reclaim_planned" now (record st {
      operations =
          insert operation_id
            (record {
              id = operation_id;
              type = reclaim_operation;
              status = pending;
              allocation_id = a.id;
              tenant_id = a.tenant_id;
              domain_id = a.domain_id;
              result = none;
              error = none;
              candidate = none;
              adoption = none;
              created_at = now;
              updated_at = now;
            })
            st.operations;
      allocations = insert b.id b st.allocations;
    })

may_reclaim : State → Allocation → Config → ℕ → Bool
may_reclaim st a cfg now = is_quarantined a.state && a.committed && reclaim_eligible st a cfg now

pub record Job : Type 0 where
  pub allocation : Allocation
  pub operation_id : String

-- The loop of the first transaction over the allocations, each with the ids for its operation and
-- its event; a planned deletion fences the domain for the allocations after it.
unfoldable pub plan_all : Config → ℕ → List (Allocation × String × String) → State → State
unfolding may_reclaim
plan_all cfg now [] st = st
plan_all cfg now ((a, operation_id, event_id) ∷ rest) st =
    plan_all cfg now rest
      (if may_reclaim st a cfg now then plan_reclaim a operation_id event_id now st else st)

-- What the worker saw after the deletion: its error, the snapshot and the observation.
pub record Seen : Type 0 where
  pub deleted : Bool
  pub snapshot : Option InventorySnapshot
  pub observation : Option Observation
  pub parent_id : String
  pub checked_at : ℕ
  pub clock : ℕ
  pub event_id : String

abbrev clean_snapshot : Allocation → Option InventorySnapshot → Bool
clean_snapshot a none = false
clean_snapshot a (some snap) = snap.complete && not (snapshot_conflict a snap)

abbrev clean_observation : Config → Allocation → String → ℕ → Option Observation → Bool
clean_observation cfg a parent_id now none = false
clean_observation cfg a parent_id now (some o) =
    trusted_observation o (domain_for cfg a.domain_id) now cfg.lifecycle.max_observation_age
    && not (observation_conflict a o parent_id)

-- The deletion succeeded, and what was seen after it is complete and shows nothing there.
unfoldable pub verified : Config → Seen → Allocation → ℕ → Bool
verified cfg seen a now =
    clean_snapshot a seen.snapshot && clean_observation cfg a seen.parent_id now seen.observation

abbrev record_seen : Option Observation → State → State
record_seen none st = st
record_seen (some o) st = record_observation st o

unfoldable pub blocked_reclaim : Seen → Allocation → Operation → State → State
blocked_reclaim seen a o st =
    let b = record a { release_blockers = "post_delete_verification_pending" ∷ [] } in
    let st' = record_seen seen.observation st in
    record st' {
      allocations = insert b.id b st'.allocations;
      operations = insert o.id (record o { updated_at = seen.clock }) st'.operations;
    }

unfoldable pub released_allocation : Allocation → ℕ → Allocation
released_allocation a now = record a {
  state = released;
  inventory_sync = "CURRENT";
  release_blockers = [];
  updated_at = now;
  revision = a.revision + 1;
}

unfoldable pub complete_reclaim : Seen → Allocation → Operation → State → State
unfolding released_allocation
complete_reclaim seen a o st =
    let b = released_allocation a seen.clock in
    worker_event seen.event_id b "released" seen.clock (record st {
      allocations = insert b.id b st.allocations;
      operations = insert o.id (succeeded_operation o b.id seen.clock) st.operations;
    })

-- Every condition under which the second transaction completes the deletion.
unfoldable pub goes_through : Config → Job → Seen → State → Bool
unfolding verified
goes_through cfg job seen st =
    let a = allocation_at st job.allocation.id in
    seen.deleted
    && verified cfg seen job.allocation seen.checked_at
    && reclaim_fence st a job.operation_id cfg seen.clock
    && verified cfg seen a seen.clock

-- The second transaction, after the deletion of the job's allocation.
unfoldable pub settle_reclaim : Config → Job → Seen → State → State
unfolding blocked_reclaim complete_reclaim
settle_reclaim cfg job seen st =
    let o = operation_at st job.operation_id in
    let a = allocation_at st job.allocation.id in
    if goes_through cfg job seen st
    then complete_reclaim seen a o st
    else blocked_reclaim seen a o st

abbrev quarantined_row : Option Allocation → Option Allocation
quarantined_row none = none
quarantined_row (some a) = if is_quarantined a.state then some a else none

-- The deletions that an earlier pass planned and did not see through.
unfoldable pub lost_jobs : State → List Operation → List Job
lost_jobs st [] = []
lost_jobs st (o ∷ os) =
    let rest = lost_jobs st os in
    elim (quarantined_row (lookup o.allocation_id st.allocations)) [
      | none ↦ rest
      | some a ↦
          if is_reclaim o.type && is_pending o.status
          then record { allocation = a; operation_id = o.id } ∷ rest
          else rest
    ]

-- One job: the fence and the snapshot before the deletion, and the transaction after it, before
-- which other processes may change the ledger.
unfoldable pub reclaim_job :
    Config → Job → ℕ → Option InventorySnapshot → Seen → (State → State) → State → State
unfolding reclaim_fence settle_reclaim
reclaim_job cfg job checked before_deletion seen meanwhile st =
    let a = allocation_at st job.allocation.id in
    if reclaim_fence st a job.operation_id cfg checked
      && clean_snapshot job.allocation before_deletion
    then settle_reclaim cfg job (record seen { parent_id = parent_resource st job.allocation })
        (meanwhile st)
    else st
