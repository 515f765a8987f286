-- ===== src/Service/Reserve/Replay.antt =====
-- The replays of `reserve`: a known idempotency key, and a known allocation key.
use platform_ipam.Prelude.{
  ℕ, String, [], Bool, false, not, ◌&&◌, ◌||◌, Option, none, some, ◌==◌, string_eq, values,
  find_first, lookup, if◌then◌else◌,
}
use platform_ipam.Domain.Policy.{Labels}
use platform_ipam.Domain.Errors.{Result, ok, refuse_if, ◌>>=◌, ◌>>◌}
use platform_ipam.Domain.Rows.{
  Allocation, Operation, OperationType, reserve_operation, adopt_operation, Idempotency,
  AllocationState, is_quarantined, is_released, is_pending,
}
use platform_ipam.Domain.State.{State}
use platform_ipam.Service.Eligible.{pending_for_allocation}
use platform_ipam.Service.Withdrawal.{abandoning_replay}

-- `reservationKind`
pub record Kind : Type 0 where
  pub operation : OperationType
  pub planned : String
  pub committed : String
  pub method : String
  pub path : String
  pub stuck : String

abbrev pub reserve_kind : Kind
reserve_kind = record {
  operation = reserve_operation;
  planned = "RESERVE_PLANNED";
  committed = "RESERVE_COMMITTED";
  method = "POST";
  path = "POST /v1/allocations";
  stuck = "reservation_stuck";
}

abbrev pub adopt_kind : Kind
adopt_kind = record {
  operation = adopt_operation;
  planned = "ADOPT_PLANNED";
  committed = "ADOPT_COMMITTED";
  method = "ADOPT";
  path = "ADOPT /v1/allocations";
  stuck = "adoption_stuck";
}

-- `cloneLabels` makes a map of a nil map.
abbrev clone_labels : Labels → Labels
clone_labels none = some []
clone_labels (some labels) = some labels

-- `copyAllocation`; `copyOperation` gives back what it is given.
unfoldable pub copy_allocation : Allocation → Allocation
copy_allocation a = record a {
  request = record a.request { labels = clone_labels a.request.labels };
}

abbrev pub copied : Option Allocation → Option Allocation
copied none = none
copied (some a) = some (copy_allocation a)

abbrev pub is_retired : AllocationState → Bool
is_retired s = is_quarantined s || is_released s

abbrev pub retired : Option Allocation → Bool
retired none = false
retired (some a) = is_retired a.state

abbrev pub is_committed : Option Allocation → Bool
is_committed none = false
is_committed (some a) = a.committed

abbrev pub has_pending : Option Operation → Bool
has_pending none = false
has_pending (some o) = is_pending o.status

-- `resultStatus`
unfoldable pub result_status : Option Allocation → Option Operation → ℕ
result_status a o = if has_pending o then 202 else if is_committed a then 200 else 202

pub record Reply : Type 0 where
  pub allocation : Option Allocation
  pub operation : Option Operation
  pub status : ℕ

-- The rows that an idempotency record names (`stateResults`), checked and answered.
unfoldable pub replay_request : State → String → Idempotency → Result Reply
unfolding result_status
replay_request st hash old = do
  refuse_if (not (old.hash == hash)) 409 "idempotency_mismatch"
  let a = copied (lookup old.allocation_id st.allocations)
  let o = lookup old.operation_id st.operations
  refuse_if (retired a) 409 "allocation_key_retired"
  abandoning_replay st a
  ok (record { allocation = a; operation = o; status = result_status a o })

-- The allocation of the tenant under the key.
unfoldable pub holder : State → String → String → Option Allocation
holder st tenant key =
    find_first (λ a. a.tenant_id == tenant && a.allocation_key == key) (values st.allocations)

-- The checks of a replay by allocation key.
unfoldable pub check_holder : State → String → Allocation → Result (Unit {0})
check_holder st hash old = do
  refuse_if (not (old.request_hash == hash)) 409 "allocation_key_conflict"
  refuse_if (is_retired old.state) 409 "allocation_key_retired"
  abandoning_replay st (some (copy_allocation old))

abbrev pub unfinished : State → Allocation → Option Operation
unfinished st a = if a.committed then none else pending_for_allocation st a.id

-- The first ledger read: a reply where the request or its key is known.
unfoldable pub find_replay :
    State → String → String → String → String → String → Result (Option Reply)
unfolding replay_request holder check_holder result_status
find_replay st request_id body_hash tenant key hash = elim (lookup request_id st.requests) [
  | some old ↦ do reply ← replay_request st body_hash old; ok (some reply)
  | none ↦ elim (holder st tenant key) [
    | none ↦ ok none
    | some old ↦ do
      check_holder st hash old
      let o = unfinished st old
      ok (
          some (record {
            allocation = some (copy_allocation old);
            operation = o;
            status = result_status (some (copy_allocation old)) o;
          }))
  ]
]
