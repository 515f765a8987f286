-- ===== src/Ledger/Reclaimed.antt =====
-- When the second transaction of `reclaimTick` releases an allocation.
use platform_ipam.Prelude.{
  ◌≡◌, refl, sym, ◌∙◌, ap, subst, true, false, inl, inr, some, lookup, insert, lookup-insert,
  Bool-cases, text_eq_iff, string_eq, arith,
}
use platform_ipam.Domain.Policy.{Config}
use platform_ipam.Domain.Rows.{Allocation, is_released}
use platform_ipam.Domain.State.{State, allocation_at, operation_at}
use platform_ipam.Service.Reclaim.{
  Job, Seen, settle_reclaim, goes_through, reclaim_fence, verified, without,
}
use platform_ipam.Service.Reclaim.Gates.{Grounds, reclaim_eligible-Grounds}
use platform_ipam.Ledger.Settling.{settle-blocks, blocked-allocations, still_blocked}

-- Why the space of the row was given back.
pub record Reclaimed (cfg : Config) (job : Job) (seen : Seen) (st : State) (a : Allocation)
    : Type 0 where
  pub deleted : seen.deleted ≡ true
  pub clean : verified cfg seen a seen.clock ≡ true
  pub grounds :
      Grounds (record st { operations = without job.operation_id st.operations }) a cfg seen.clock

goes_through-Reclaimed :
    (cfg : Config) (job : Job) (seen : Seen) (st : State)
    → goes_through cfg job seen st ≡ true
    → Reclaimed cfg job seen st (allocation_at st job.allocation.id)
unfolding goes_through reclaim_fence
goes_through-Reclaimed cfg job seen st g = record {
  deleted = ground (arith, g);
  clean = ground (arith, g);
  grounds =
      reclaim_eligible-Grounds (record st { operations = without job.operation_id st.operations })
        (allocation_at st job.allocation.id) cfg seen.clock (ground (arith, g));
}

blocked_row :
    (cfg : Config) (job : Job) (seen : Seen) (st : State) (a b : Allocation)
    → lookup job.allocation.id st.allocations ≡ some a
    → a.id ≡ job.allocation.id
    → goes_through cfg job seen st ≡ false
    → lookup job.allocation.id (settle_reclaim cfg job seen st).allocations ≡ some b
    → b.state ≡ a.state
blocked_row cfg job seen st a b e i g f =
    let row : allocation_at st job.allocation.id ≡ a = rw e refl in
    let after : lookup job.allocation.id (insert a.id (still_blocked a) st.allocations) ≡ some b =
      ap
        (λ (x : Allocation).
          lookup job.allocation.id (insert x.id (still_blocked x) st.allocations))
        (sym row)
      ∙ ap (λ m. lookup job.allocation.id m)
          (sym (
            ap (λ (s : State). s.allocations) (settle-blocks cfg job seen st g)
            ∙ blocked-allocations seen (allocation_at st job.allocation.id)
                (operation_at st job.operation_id) st))
      ∙ f in
    ground (
      arith,
      after,
      i,
      lookup-insert a.id job.allocation.id (still_blocked a) st.allocations,
      text_eq_iff a.id job.allocation.id,
    )

-- The second transaction of a deletion turns a row, which stands under its own id, into a released
-- one only if the deletion succeeded, a complete snapshot and a trusted observation made after it
-- show nothing in the row's space, and every ground for reclaiming it holds at that moment, the
-- deletion's own operation aside.
pub settle_reclaim-Reclaimed :
    (cfg : Config) (job : Job) (seen : Seen) (st : State) (a b : Allocation)
    → lookup job.allocation.id st.allocations ≡ some a
    → a.id ≡ job.allocation.id
    → is_released a.state ≡ false
    → lookup job.allocation.id (settle_reclaim cfg job seen st).allocations ≡ some b
    → is_released b.state ≡ true
    → Reclaimed cfg job seen st a
settle_reclaim-Reclaimed cfg job seen st a b e i live f gone =
    elim (Bool-cases (goes_through cfg job seen st)) [
      | inl g ↦
          subst (Reclaimed cfg job seen st) (rw e refl) (goes_through-Reclaimed cfg job seen st g)
      | inr g ↦ absurd (ground (arith, blocked_row cfg job seen st a b e i g f, live, gone))
    ]
