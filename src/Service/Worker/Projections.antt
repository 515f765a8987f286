-- ===== src/Service/Worker/Projections.antt =====
-- `syncProjections` of internal/service/worker.go: the calls of the inventory, and the one
-- transaction that records what they answered.
use platform_ipam.Prelude.{
  ℕ, String, List, [], ◌∷◌, Bool, true, false, not, ◌&&◌, ◌||◌, Option, none, some, ◌==◌, string_eq,
  nat_eq, lookup, insert, values, keep_if, if◌then◌else◌,
}
use platform_ipam.Domain.Rows.{
  Allocation, Operation, Finding, AllocationState, unset, reserved, active, quarantined, released,
  is_released, is_reclaim,
}
use platform_ipam.Domain.State.{State}
use platform_ipam.Service.Digests.{Digests, finding_id}
use platform_ipam.Service.Eligible.{pending_for_allocation}
use platform_ipam.Service.Raise.{worker_finding, resolve_finding}

-- `a.State == b.State`
abbrev pub state_eq : AllocationState → AllocationState → Bool
state_eq unset unset = true
state_eq reserved reserved = true
state_eq active active = true
state_eq quarantined quarantined = true
state_eq released released = true
state_eq _ _ = false

-- `projectionSyncResult`, of whose error only its presence is read.
pub record SyncResult : Type 0 where
  pub allocation : Allocation
  pub failed : Bool

abbrev in_reclaim : Option Operation → Bool
in_reclaim none = false
in_reclaim (some o) = is_reclaim o.type

-- The allocations that a pass calls the inventory for.
unfoldable pub is_sync_job : State → Allocation → Bool
is_sync_job st a =
    a.committed
    && not (is_released a.state)
    && not (a.inventory_id == "")
    && not (in_reclaim (pending_for_allocation st a.id))

unfoldable pub sync_jobs : State → List Allocation
unfolding is_sync_job
sync_jobs st = keep_if (is_sync_job st) (values st.allocations)

-- One call: whether the pass had ended before it, whether it failed, and whether the pass had
-- ended after it.
pub record SyncCall : Type 0 where
  pub ended_before : Bool
  pub failed : Bool
  pub ended_after : Bool

-- The loop over the jobs, and whether the end of the pass interrupted it.
unfoldable pub sync_all : List (Allocation × SyncCall) → List SyncResult × Bool
sync_all [] = ([], false)
sync_all ((a, c) ∷ jobs) =
    let (rest, interrupted) = sync_all jobs in
    if c.ended_before
    then ([], true)
    else if c.failed && c.ended_after
    then ([], true)
    else (record { allocation = a; failed = c.failed } ∷ rest, interrupted)

-- The row is no longer the one that the result is about.
unfoldable pub moved_on : Allocation → SyncResult → Bool
moved_on a r =
    not (a.revision == r.allocation.revision) || not (state_eq a.state r.allocation.state)

abbrev pub projected : Allocation → SyncResult → Allocation
projected a r = record a { inventory_sync = if r.failed then "PENDING" else "CURRENT" }

unfoldable pub record_result : Digests → ℕ → SyncResult → Allocation → State → State
record_result h now r a st =
    let b = projected a r in
    if r.failed
    then worker_finding h b "inventory_sync_pending" "WARNING" now st
    else resolve_finding h b "inventory_sync_pending" st

unfoldable pub apply_result : Digests → ℕ → SyncResult → State → State
unfolding moved_on record_result
apply_result h now r st = elim (lookup r.allocation.id st.allocations) [
  | none ↦ st
  | some a ↦
      let st' = record_result h now r a st in
      if moved_on a r
      then st
      else record st' { allocations = insert a.id (projected a r) st'.allocations }
]

-- `applyProjectionResults`: the body of its transaction.
unfoldable pub apply_results : Digests → ℕ → List SyncResult → State → State
unfolding apply_result
apply_results h now [] st = st
apply_results h now (r ∷ rs) st = apply_results h now rs (apply_result h now r st)

abbrev pub status_of : Option Finding → String
status_of none = ""
status_of (some f) = f.status

unfoldable pub reflected : Digests → SyncResult → State → Bool
unfolding moved_on finding_id
reflected h r st = elim (lookup r.allocation.id st.allocations) [
  | none ↦ true
  | some a ↦
      moved_on a r
      || not r.failed
        && a.inventory_sync == "CURRENT"
        && not
            (status_of (lookup (finding_id h "inventory_sync_pending" a.id) st.findings) == "OPEN")
]

-- `projectionResultsAlreadyApplied`
unfoldable pub already_applied : Digests → List SyncResult → State → Bool
unfolding reflected
already_applied h [] st = true
already_applied h (r ∷ rs) st = reflected h r st && already_applied h rs st

-- `applyProjectionResults`: without the transaction where the ledger `read` by the check has every
-- result, unless the pass was interrupted or the check's own read failed.
unfoldable pub record_results : Digests → ℕ → List SyncResult → Bool → Option State → State → State
unfolding apply_results already_applied
record_results h now rs interrupted none st = apply_results h now rs st
record_results h now rs interrupted (some read) st =
    if not interrupted && already_applied h rs read then st else apply_results h now rs st

-- `syncProjections`, of whose jobs each comes with its call; the ledger is `read` by the check and
-- `st` at the transaction.
unfoldable pub sync_projections :
    Digests → ℕ → List (Allocation × SyncCall) → Option State → State → State × Bool
unfolding record_results sync_all
sync_projections h now jobs read st =
    let (rs, interrupted) = sync_all jobs in
    (record_results h now rs interrupted read st, interrupted)
