-- ===== src/Service/Cancel/Deleted.antt =====
-- What the last transaction of a cancel deletes, and what it leaves.
use platform_ipam.Prelude.{
  remove, lookup-remove, lookup-remove_other, ◌≡◌, ◌≢◌, String, List, [], ◌∷◌, true, false, none,
  some, inl, inr, lookup, values, All, Option-cases, Bool-cases, text_eq_iff, ◌==◌, string_eq,
  arith, Bool,
}
use platform_ipam.Domain.Errors.{ok}
use platform_ipam.Domain.Rows.{Allocation, Operation, Idempotency}
use platform_ipam.Domain.State.{State}
use platform_ipam.Service.Digests.{Digests}
use platform_ipam.Service.Raise.{resolve_finding}
use platform_ipam.Service.Cancel.{
  CancelTarget, cancel_fenced, forget_requests, drop_hold, cancel_delete,
}

pub forget_requests-none :
    (id : String) (m : List (String × Idempotency))
    → All (λ (r : Idempotency). (r.allocation_id == id) ≡ false) (values (forget_requests id m))
unfolding forget_requests
forget_requests-none id [] = tt
forget_requests-none id ((k, r) ∷ m) = elim (Bool-cases (r.allocation_id == id)) [
  | inl e ↦ rw e (forget_requests-none id m)
  | inr e ↦ rw e (e, forget_requests-none id m)
]

drop_hold-rows :
    (h : Digests) (a : Allocation) (st : State)
    → ((drop_hold h a st).allocations ≡ remove a.id st.allocations)
      × ((drop_hold h a st).requests ≡ forget_requests a.id st.requests)
unfolding drop_hold resolve_finding
drop_hold-rows h a st = (ground arith, ground arith)

-- A hold that a cancel has deleted.
pub record Deleted (id operation_id : String) (a : Allocation) (st st' : State) : Type 0 where
  pub uncommitted : a.committed ≡ false
  pub fence :
      (o : Operation) × (lookup operation_id st.operations ≡ some o)
      × (o.allocation_id ≡ id)
      × (cancel_fenced o ≡ true)
  pub gone : lookup id st'.allocations ≡ none
  pub others : (k : String) → id ≢ k → lookup k st'.allocations ≡ lookup k st.allocations
  pub forgotten : All (λ (r : Idempotency). (r.allocation_id == id) ≡ false) (values st'.requests)

-- The last transaction of a cancel, where the ledger still has the row, succeeds only if the row is
-- not committed and its operation carries the fence. No row is left under its id, every other key
-- has the row it had, and no idempotency record is left that names it.
pub cancel_delete-Deleted :
    (h : Digests) (t : CancelTarget) (st : State) (a : Allocation) (resolved : Bool) (st' : State)
    → lookup t.allocation.id st.allocations ≡ some a
    → cancel_delete h t st ≡ ok (resolved, st')
    → Deleted a.id t.operation.id a st st'
unfolding cancel_delete
cancel_delete-Deleted h t st a resolved st' m e =
    elim (Option-cases (lookup t.operation.id st.operations)) [
      | inl n ↦ absurd (ground (arith, m, e, n))
      | inr (o, n) ↦
          let is : st' ≡ drop_hold h a st = ground (arith, m, e, n) in
          let (rows, requests) = drop_hold-rows h a st in
          record {
            uncommitted = ground (arith, m, e, n);
            fence = (
              o,
              n,
              (text_eq_iff o.allocation_id a.id).0 (ground (arith, m, e, n)),
              ground (arith, m, e, n),
            );
            gone = rw (is, rows) (lookup-remove a.id st.allocations);
            others = λ k d. rw (is, rows) (lookup-remove_other a.id k st.allocations d);
            forgotten = rw (is, requests) (forget_requests-none a.id st.requests);
          }
    ]
