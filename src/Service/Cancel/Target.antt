-- ===== src/Service/Cancel/Target.antt =====
-- The operation and the allocation that the judgement of a cancel finds.
use platform_ipam.Prelude.{
  ℕ, ◌≡◌, ◌∙◌, ap, String, true, none, some, inl, inr, lookup, Option-cases, arith,
}
use platform_ipam.Domain.Policy.{Principal}
use platform_ipam.Domain.Errors.{ok, Result-cases}
use platform_ipam.Domain.Rows.{Allocation, Operation}
use platform_ipam.Domain.State.{State}
use platform_ipam.Service.Digests.{Digests}
use platform_ipam.Service.Withdrawal.{fenced_with, committed_hold_refusal}
use platform_ipam.Service.Cancel.{
  CancelTarget, cancel_check, judge_held, withdrawn, cancel_fenced, write_fence, cancel_fence,
}

-- Where the judgement finds a cancel that has finished, the row is gone.
check-done :
    (h : Digests) (p : Principal) (id : String) (st : State) (t : CancelTarget)
    → cancel_check h p id st ≡ ok t
    → t.done ≡ true
    → lookup t.allocation.id st.allocations ≡ none
unfolding cancel_check withdrawn judge_held cancel_fenced fenced_with committed_hold_refusal
check-done h p id st t e d = elim (Option-cases (lookup id st.operations)) [
  | inl m ↦ absurd (ground (arith, m, e))
  | inr (o, m) ↦ elim (Option-cases (lookup o.allocation_id st.allocations)) [
    | inl n ↦ let at : t.allocation.id ≡ o.allocation_id = ground (arith, m, e, n) in rw at n
    | inr (a, n) ↦ absurd (ground (arith, m, e, n, d))
  ]
]

pub fence-done :
    (h : Digests) (p : Principal) (id : String) (now : ℕ) (event_id : String) (st : State)
    (t : CancelTarget) (st' : State)
    → cancel_fence h p id now event_id st ≡ ok (t, st')
    → t.done ≡ true
    → lookup t.allocation.id st'.allocations ≡ none
unfolding cancel_fence write_fence
fence-done h p id now event_id st t st' e d = elim (Result-cases (cancel_check h p id st)) [
  | inr (f, c) ↦ absurd (ground (arith, e, c))
  | inl (u, c) ↦
      let rows : st'.allocations ≡ st.allocations = ground (arith, e, c) in
      let at : t.allocation.id ≡ u.allocation.id = ground (arith, e, c) in
      let d' : u.done ≡ true = ground (arith, e, c, d) in
      rw (rows, at) (check-done h p id st u c d')
]

-- What the judgement finds is the operation under the id, with its own allocation.
check-target :
    (h : Digests) (p : Principal) (id : String) (st : State) (t : CancelTarget)
    → ((k : String) (a : Allocation) → lookup k st.allocations ≡ some a → a.id ≡ k)
    → cancel_check h p id st ≡ ok t
    → (o : Operation) × (lookup id st.operations ≡ some o)
      × (t.operation.id ≡ o.id)
      × (t.allocation.id ≡ o.allocation_id)
unfolding cancel_check withdrawn judge_held cancel_fenced fenced_with committed_hold_refusal
check-target h p id st t keyed e = elim (Option-cases (lookup id st.operations)) [
  | inl m ↦ absurd (ground (arith, m, e))
  | inr (o, m) ↦ elim (Option-cases (lookup o.allocation_id st.allocations)) [
    | inl n ↦
        let at : t.allocation.id ≡ o.allocation_id = ground (arith, m, e, n) in
        let is : t.operation.id ≡ o.id = ground (arith, m, e, n) in (o, m, is, at)
    | inr (a, n) ↦
        let at : t.allocation ≡ a = ground (arith, m, e, n) in
        let is : t.operation.id ≡ o.id = ground (arith, m, e, n) in
        (o, m, is, ap (λ (x : Allocation). x.id) at ∙ keyed o.allocation_id a n)
  ]
]

pub fence-target :
    (h : Digests) (p : Principal) (id : String) (now : ℕ) (event_id : String) (st : State)
    (t : CancelTarget) (st' : State)
    → ((k : String) (a : Allocation) → lookup k st.allocations ≡ some a → a.id ≡ k)
    → cancel_fence h p id now event_id st ≡ ok (t, st')
    → (o : Operation) × (lookup id st.operations ≡ some o)
      × (t.operation.id ≡ o.id)
      × (t.allocation.id ≡ o.allocation_id)
unfolding cancel_fence
fence-target h p id now event_id st t st' keyed e = elim (Result-cases (cancel_check h p id st)) [
  | inr (f, c) ↦ absurd (ground (arith, e, c))
  | inl (u, c) ↦
      let (o, m, is, at) = check-target h p id st u keyed c in
      let kept : t.operation.id ≡ u.operation.id = ground (arith, e, c) in
      let held : t.allocation.id ≡ u.allocation.id = ground (arith, e, c) in
      (o, m, kept ∙ is, held ∙ at)
]
