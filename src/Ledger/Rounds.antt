-- ===== src/Ledger/Rounds.antt =====
-- What the worker's passes do to the rows of the ledger: the projections and `reconcileAllocations`
-- of internal/service/worker.go.
use platform_ipam.Prelude.{
  string_eq, ℕ, ◌≡◌, refl, sym, ap, ◌∙◌, ◌≢◌, String, List, [], ◌∷◌, false, inl, inr, some, values,
  lookup, insert, lookup-insert_self, All-mem, lookup-mem, Option-cases, Bool-cases, arith, subst,
}
use platform_ipam.Domain.Policy.{Config}
use platform_ipam.Domain.Rows.{
  Allocation, Binding, Observation, AllocationState, unset, reserved, active, quarantined, released,
  is_active, is_quarantined, is_released,
}
use platform_ipam.Domain.State.{State}
use platform_ipam.Service.Digests.{Digests}
use platform_ipam.Service.Raise.{worker_finding, resolve_finding}
use platform_ipam.Service.Worker.Projections.{
  SyncResult, moved_on, projected, record_result, apply_result, apply_results,
}
use platform_ipam.Service.Worker.Reconcile.{
  NewIds, is_reconciled, seen_at, bound_observed, reconcile_row, reconcile_rows,
}
use platform_ipam.Service.Worker.Claimed.{Bound, untouched, sighted, claimed, reconcile_row-Round}
use platform_ipam.Ledger.{
  Moves, stays, binds, Continues, IsSound, Change, same, replace, Course, unmoved, onward,
}
use platform_ipam.Ledger.Changes.{Change-IsSound, Course-IsSound, Course-append, one}
use platform_ipam.Ledger.Upkeep.{row_at}

projected-Continues : (a : Allocation) (r : SyncResult) → Continues a (projected a r)
projected-Continues a r = record {
  id = refl;
  tenant = refl;
  key = refl;
  domain = refl;
  scope = refl;
  parent = refl;
  space = refl;
  moves = stays;
  revision = omega arith;
  owned = λ h. h;
}

record_result-rows :
    (h : Digests) (now : ℕ) (r : SyncResult) (a : Allocation) (st : State)
    → (record_result h now r a st).allocations ≡ st.allocations
unfolding record_result worker_finding resolve_finding
record_result-rows h now r a st = ground arith

module _ (h : Digests) (now : ℕ) (r : SyncResult) (st : State) where
  applied_rows :
      (a : Allocation)
      → lookup r.allocation.id st.allocations ≡ some a
      → moved_on a r ≡ false
      → (apply_result h now r st).allocations
        ≡ insert a.id (projected a r) (record_result h now r a st).allocations
  unfolding apply_result
  applied_rows a e m = rw (apply_result, e, m) refl

  -- A result of the inventory changes at most the row that it is about.
  apply_result-Change :
      IsSound st.allocations → Change st.allocations (apply_result h now r st).allocations
  unfolding apply_result
  apply_result-Change s = elim (Option-cases (lookup r.allocation.id st.allocations)) [
    | inl e ↦ rw (apply_result, e) same
    | inr (a, e) ↦ elim (Bool-cases (moved_on a r)) [
      | inl m ↦ rw (apply_result, e, m) same
      | inr m ↦
          subst (Change st.allocations)
            (sym (
              applied_rows a e m
              ∙ ap (insert a.id (projected a r)) (record_result-rows h now r a st)))
            (replace a.id a (projected a r) (row_at r.allocation.id a st.allocations s.keyed e)
              (projected-Continues a r))
    ]
  ]

pub apply_results-Course :
    (h : Digests) (now : ℕ) (rs : List SyncResult) (st : State)
    → IsSound st.allocations
    → Course st.allocations (apply_results h now rs st).allocations
unfolding apply_results
apply_results-Course h now [] st s = unmoved
apply_results-Course h now (r ∷ rs) st s =
    let c = apply_result-Change h now r st s in
    onward c (
      apply_results-Course h now rs (apply_result h now r st)
        (Change-IsSound st.allocations (apply_result h now r st).allocations c s))

seen_at-Continues : (a : Allocation) (at : ℕ) → Continues a (seen_at a at)
seen_at-Continues a at = record {
  id = refl;
  tenant = refl;
  key = refl;
  domain = refl;
  scope = refl;
  parent = refl;
  space = refl;
  moves = stays;
  revision = omega arith;
  owned = λ h. h;
}

left_reserved :
    (s : AllocationState)
    → s ≢ unset
    → is_active s ≡ false
    → is_quarantined s ≡ false
    → is_released s ≡ false
    → s ≡ reserved
left_reserved unset n a q r = absurd (n refl)
left_reserved reserved n a q r = refl
left_reserved active n a q r = absurd cc
left_reserved quarantined n a q r = absurd cc
left_reserved released n a q r = absurd cc

bound-Continues :
    (a : Allocation) (b : Binding) (now : ℕ)
    → a.state ≡ reserved
    → Continues a (bound_observed a b now)
bound-Continues a b now e = record {
  id = refl;
  tenant = refl;
  key = refl;
  domain = refl;
  scope = refl;
  parent = refl;
  space = refl;
  moves = subst (λ s. Moves s active) (sym e) binds;
  revision = omega arith;
  owned = λ h. h;
}

module _ (h : Digests) (cfg : Config) (now : ℕ) (ids : NewIds) where
  -- A row that is bound was a reserved one.
  was_reserved :
      (id : String) (a : Allocation) (st : State) (o : Observation) (b : Binding)
      → IsSound st.allocations
      → lookup id st.allocations ≡ some a
      → Bound h cfg now ids id a st o b
      → a.state ≡ reserved
  unfolding is_reconciled
  was_reserved id a st o b s e g =
      let live : is_released a.state ≡ false = ground (arith, g.reconciled) in
      left_reserved a.state
        (All-mem (λ (x : Allocation). x.state ≢ unset) (values st.allocations) a s.begun
          (lookup-mem id a st.allocations e))
        g.claim.inactive g.claim.usable live

  reconcile_row-Course :
      (id : String) (a : Allocation) (st : State)
      → IsSound st.allocations
      → lookup id st.allocations ≡ some a
      → Course st.allocations (reconcile_row h cfg now ids id a st).allocations
  reconcile_row-Course id a st s e = elim (reconcile_row-Round h cfg now ids id a st) [
    | untouched q ↦ rw q unmoved
    | sighted o q ↦
        rw q (one (replace id a (seen_at a o.finished_at) e (seen_at-Continues a o.finished_at)))
    | claimed o b g q ↦
        let seen = seen_at a o.finished_at in
        rw q (
          onward (replace id a seen e (seen_at-Continues a o.finished_at)) (
            one (
              replace id seen (bound_observed seen b now)
                (lookup-insert_self id seen st.allocations)
                (bound-Continues seen b now (was_reserved id a st o b s e g)))))
  ]

  pub reconcile_rows-Course :
      (rows : List (String × Allocation)) (st : State)
      → IsSound st.allocations
      → Course st.allocations (reconcile_rows h cfg now ids rows st).allocations
  unfolding reconcile_rows
  reconcile_rows-Course [] st s = unmoved
  reconcile_rows-Course ((id, row) ∷ rest) st s = elim (Option-cases (lookup id st.allocations)) [
    | inl e ↦ rw (reconcile_rows, e) (reconcile_rows-Course rest st s)
    | inr (a, e) ↦
        let st' = reconcile_row h cfg now ids id a st in
        let c = reconcile_row-Course id a st s e in
        rw (reconcile_rows, e)
          (Course-append st.allocations st'.allocations _ c
            (reconcile_rows-Course rest st' (Course-IsSound st.allocations st'.allocations c s)))
  ]
