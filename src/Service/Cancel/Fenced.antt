-- ===== src/Service/Cancel/Fenced.antt =====
-- What the fence of a cancel does to a commit of the same hold: `reserve`'s and the worker's.
use platform_ipam.Prelude.{
  ℕ, ◌≡◌, refl, ap, ◌∙◌, String, true, false, some, inl, inr, lookup, insert, lookup-insert,
  Option-cases, Bool-cases, text_eq_iff, string_eq, arith,
}
use platform_ipam.Domain.Policy.{Principal}
use platform_ipam.Domain.Errors.{Result-cases, ok}
use platform_ipam.Domain.Rows.{
  Allocation, Operation, OperationStatus, no_status, pending, succeeded, failed, is_pending,
  is_failed,
}
use platform_ipam.Domain.State.{State, operation_at}
use platform_ipam.Service.Digests.{Digests}
use platform_ipam.Service.Withdrawal.{fenced_with, committed_hold_refusal}
use platform_ipam.Service.Reserve.Commit.{
  settled_already, cannot_recover, Commit, commit_tx, commit_recovered,
}
use platform_ipam.Service.Cancel.{
  CancelTarget, cancel_fenced, withdrawn, judge_held, cancel_check, cancelled_operation,
  write_fence, cancel_fence,
}

pub failed-settled : (s : OperationStatus) → is_failed s ≡ true → is_pending s ≡ false
failed-settled no_status e = refl
failed-settled pending e = absurd cc
failed-settled succeeded e = refl
failed-settled failed e = refl

-- A judgement that lets the cancel go on has found the operation, and it is pending only where no
-- earlier run has fenced it.
check-found :
    (h : Digests) (p : Principal) (id : String) (st : State) (o : Operation) (t : CancelTarget)
    → lookup id st.operations ≡ some o
    → cancel_check h p id st ≡ ok t
    → (t.operation ≡ o) × (t.already_fenced ≡ true → is_pending o.status ≡ false)
unfolding cancel_check withdrawn judge_held cancel_fenced fenced_with committed_hold_refusal
check-found h p id st o t m e = elim (Option-cases (lookup o.allocation_id st.allocations)) [
  | inl n ↦ (ground (arith, m, e, n), λ _. failed-settled o.status (ground (arith, m, e, n)))
  | inr (a, n) ↦ elim (Bool-cases (is_pending o.status)) [
    | inl b ↦ (ground (arith, m, e, n, b), λ f. absurd (ground (arith, m, e, n, b, f)))
    | inr b ↦ (ground (arith, m, e, n, b), λ _. b)
  ]
]

-- Once the fence of a cancel is written, its operation is not pending.
pub cancel_fence-settled :
    (h : Digests) (p : Principal) (id : String) (now : ℕ) (event_id : String) (st : State)
    (o : Operation) (t : CancelTarget) (st' : State)
    → lookup id st.operations ≡ some o
    → o.id ≡ id
    → cancel_fence h p id now event_id st ≡ ok (t, st')
    → (t.operation.id ≡ id) × (is_pending (operation_at st' id).status ≡ false)
unfolding cancel_fence write_fence
cancel_fence-settled h p id now event_id st o t st' m key e =
    elim (Result-cases (cancel_check h p id st)) [
      | inr (f, c) ↦ absurd (ground (arith, e, c))
      | inl (u, c) ↦
          let (is, quiet) = check-found h p id st o u m c in
          elim (Bool-cases u.already_fenced) [
            | inl b ↦
                let same : st' ≡ st = ground (arith, e, c, b) in
                let old : t ≡ u = ground (arith, e, c, b) in
                (rw old (ap (λ (x : Operation). x.id) is ∙ key), rw (same, m) (quiet b))
            | inr b ↦
                let old : t.operation.id ≡ u.operation.id = ground (arith, e, c, b) in
                let rows : st'.operations
                    ≡ insert u.operation.id (cancelled_operation u.operation now) st.operations =
                  ground (arith, e, c, b) in
                let key' : u.operation.id ≡ id = ap (λ (x : Operation). x.id) is ∙ key in
                (
                  old ∙ key',
                  rw rows (
                      rw
                        (lookup-insert u.operation.id id (cancelled_operation u.operation now)
                          st.operations)
                        (rw ((text_eq_iff u.operation.id id).1 key') refl)),
                )
          ]
    ]

pub commit_tx-settled :
    (g : Digests) (c : Commit) (held : Allocation) (op : Operation) (st : State)
    → is_pending (operation_at st op.id).status ≡ false
    → (commit_tx g c held op st).1 ≡ st
unfolding commit_tx settled_already
commit_tx-settled g c held op st q = ground (arith, q)

pub commit_recovered-settled :
    (id : String) (job : Operation) (inventory_id : String) (clock : ℕ)
    (event : Allocation → State → State) (st : State)
    → is_pending (operation_at st job.id).status ≡ false
    → commit_recovered id job inventory_id clock event st ≡ st
unfolding commit_recovered cannot_recover
commit_recovered-settled id job inventory_id clock event st q =
    elim (Option-cases (lookup id st.allocations)) [
      | inl e ↦ rw (commit_recovered, e) refl
      | inr (a, e) ↦ ground (arith, e, q)
    ]

-- The commits of an operation leave a ledger as it is.
pub record Fenced (id : String) (st : State) : Type 0 where
  pub reserve :
      (g : Digests) (c : Commit) (held : Allocation) (op : Operation)
      → op.id ≡ id
      → (commit_tx g c held op st).1 ≡ st
  pub recovery :
      (allocation_id : String) (job : Operation) (inventory_id : String) (clock : ℕ)
      (event : Allocation → State → State)
      → job.id ≡ id
      → commit_recovered allocation_id job inventory_id clock event st ≡ st

-- Once a cancel has passed its fence, whether it wrote the fence or found it, no commit of that
-- operation changes the ledger: neither the second transaction of a reservation nor the worker's
-- recovery. The operation stands under its own id.
pub cancel_fence-Fenced :
    (h : Digests) (p : Principal) (id : String) (now : ℕ) (event_id : String) (st : State)
    (o : Operation) (t : CancelTarget) (st' : State)
    → lookup id st.operations ≡ some o
    → o.id ≡ id
    → cancel_fence h p id now event_id st ≡ ok (t, st')
    → Fenced id st'
cancel_fence-Fenced h p id now event_id st o t st' m key e =
    let (_, settled) = cancel_fence-settled h p id now event_id st o t st' m key e in
    record {
      reserve = λ g c held op k. commit_tx-settled g c held op st' (rw k settled);
      recovery =
          λ a job i clock event k. commit_recovered-settled a job i clock event st' (rw k settled);
    }
