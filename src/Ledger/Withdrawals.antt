-- ===== src/Ledger/Withdrawals.antt =====
-- What the withdrawals of internal/service/cancel.go and abandon.go do to the rows of the ledger:
-- the fences nothing, the deletions remove one row that is not committed.
use platform_ipam.Prelude.{
  ℕ, ◌≡◌, String, false, inl, inr, Bool, some, lookup, remove, Option-cases, arith,
}
use platform_ipam.Domain.Policy.{Principal}
use platform_ipam.Domain.Errors.{Result-cases, ok}
use platform_ipam.Domain.Rows.{Allocation}
use platform_ipam.Domain.State.{State}
use platform_ipam.Service.Digests.{Digests}
use platform_ipam.Service.Raise.{resolve_finding}
use platform_ipam.Service.Cancel.{
  CancelTarget, cancel_check, write_fence, cancel_fence, drop_hold, cancel_delete,
}
use platform_ipam.Service.Abandon.{
  AbandonTarget, abandon_check, write_abandon, abandon_fence, drop_adoption, abandon_delete,
}
use platform_ipam.Ledger.{Keyed, Change, same, withdraw}
use platform_ipam.Ledger.Upkeep.{row_at}

pub cancel_fence-rows :
    (h : Digests) (p : Principal) (id : String) (now : ℕ) (event_id : String) (st : State)
    (t : CancelTarget) (st' : State)
    → cancel_fence h p id now event_id st ≡ ok (t, st')
    → st'.allocations ≡ st.allocations
unfolding cancel_fence write_fence
cancel_fence-rows h p id now event_id st t st' e = elim (Result-cases (cancel_check h p id st)) [
  | inr (f, c) ↦ absurd (ground (arith, e, c))
  | inl (u, c) ↦ ground (arith, e, c)
]

pub abandon_fence-rows :
    (allocation_id operation_id operator : String) (now : ℕ) (event_id : String) (st : State)
    (t : AbandonTarget) (st' : State)
    → abandon_fence allocation_id operation_id operator now event_id st ≡ ok (t, st')
    → st'.allocations ≡ st.allocations
unfolding abandon_fence write_abandon
abandon_fence-rows allocation_id operation_id operator now event_id st t st' e =
    elim (Result-cases (abandon_check allocation_id operation_id st)) [
      | inr (f, c) ↦ absurd (ground (arith, e, c))
      | inl (u, c) ↦ ground (arith, e, c)
    ]

module _ (h : Digests) (st : State) (resolved : Bool) (st' : State)
    (keyed : Keyed st.allocations) where
  removal-Change :
      (k : String) (a : Allocation)
      → lookup k st.allocations ≡ some a
      → a.committed ≡ false
      → st'.allocations ≡ remove a.id st.allocations
      → Change st.allocations st'.allocations
  removal-Change k a m free rows =
      rw rows (withdraw a.id a (row_at k a st.allocations keyed m) free)

  pub cancel_delete-Change :
      (t : CancelTarget)
      → cancel_delete h t st ≡ ok (resolved, st')
      → Change st.allocations st'.allocations
  unfolding cancel_delete drop_hold resolve_finding
  cancel_delete-Change t e = elim (Option-cases (lookup t.allocation.id st.allocations)) [
    | inl m ↦ let is : st'.allocations ≡ st.allocations = ground (arith, e, m) in rw is same
    | inr (a, m) ↦ removal-Change t.allocation.id a m (ground (arith, e, m)) (ground (arith, e, m))
  ]

  pub abandon_delete-Change :
      (t : AbandonTarget)
      → abandon_delete h t st ≡ ok (resolved, st')
      → Change st.allocations st'.allocations
  unfolding abandon_delete drop_adoption resolve_finding
  abandon_delete-Change t e = elim (Option-cases (lookup t.allocation.id st.allocations)) [
    | inl m ↦ let is : st'.allocations ≡ st.allocations = ground (arith, e, m) in rw is same
    | inr (a, m) ↦ removal-Change t.allocation.id a m (ground (arith, e, m)) (ground (arith, e, m))
  ]
