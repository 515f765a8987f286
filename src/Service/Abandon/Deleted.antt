-- ===== src/Service/Abandon/Deleted.antt =====
-- What the last transaction of an abandon deletes.
use platform_ipam.Prelude.{
  remove, lookup-remove, lookup-remove_other, ◌≡◌, ◌≢◌, refl, subst, ◌∙◌, sym, String, Bool, true,
  false, some, none, inl, inr, lookup, Option-cases, text_eq_iff, string_eq, arith,
}
use platform_ipam.Domain.Errors.{ok}
use platform_ipam.Domain.Rows.{Allocation, Operation}
use platform_ipam.Domain.State.{State}
use platform_ipam.Service.Digests.{Digests}
use platform_ipam.Service.Raise.{resolve_finding}
use platform_ipam.Service.Abandon.{AbandonTarget, abandon_fenced, drop_adoption, abandon_delete}

drop_adoption-rows :
    (h : Digests) (a : Allocation) (st : State)
    → (drop_adoption h a st).allocations ≡ remove a.id st.allocations
unfolding drop_adoption resolve_finding
drop_adoption-rows h a st = ground arith

-- The ledger after a withdrawal of the hold, compared with the one before its last transaction.
pub record Withdrawn (id operation_id : String) (st st' : State) : Type 0 where
  pub gone : lookup id st'.allocations ≡ none
  pub others : (k : String) → id ≢ k → lookup k st'.allocations ≡ lookup k st.allocations
  pub held :
      (a : Allocation)
      → lookup id st.allocations ≡ some a
      → (a.committed ≡ false)
        × (o : Operation) × (lookup operation_id st.operations ≡ some o)
        × (o.allocation_id ≡ id)
        × (abandon_fenced o ≡ true)

pub abandon_delete-Withdrawn :
    (h : Digests) (t : AbandonTarget) (st : State) (resolved : Bool) (st' : State)
    → ((a : Allocation) → lookup t.allocation.id st.allocations ≡ some a → a.id ≡ t.allocation.id)
    → abandon_delete h t st ≡ ok (resolved, st')
    → Withdrawn t.allocation.id t.operation.id st st'
unfolding abandon_delete
abandon_delete-Withdrawn h t st resolved st' keyed e =
    elim (Option-cases (lookup t.allocation.id st.allocations)) [
      | inl m ↦
          let same : st ≡ st' = ground (arith, e, m) in
          record {
            gone = rw (← same) m;
            others = λ k d. rw (← same) refl;
            held = λ a n. absurd (ground (arith, m, n));
          }
      | inr (a, m) ↦ elim (Option-cases (lookup t.operation.id st.operations)) [
        | inl n ↦ absurd (ground (arith, m, e, n))
        | inr (o, n) ↦
            let is : st' ≡ drop_adoption h a st = ground (arith, m, e, n) in
            let rows = drop_adoption-rows h a st in
            let key = keyed a m in
            let free : a.committed ≡ false = ground (arith, m, e, n) in
            let named : o.allocation_id ≡ a.id =
              (text_eq_iff o.allocation_id a.id).0 (ground (arith, m, e, n)) in
            let fenced : abandon_fenced o ≡ true = ground (arith, m, e, n) in
            record {
              gone =
                  subst (λ k. lookup k st'.allocations ≡ none) key
                    (rw (is, rows) (lookup-remove a.id st.allocations));
              others = λ k d.
                  rw (is, rows) (lookup-remove_other a.id k st.allocations (λ q. d (sym key ∙ q)));
              held = λ b p.
                  let same : a ≡ b = ground (arith, m, p) in
                  (rw (← same) free, o, n, named ∙ key, fenced);
            }
      ]
    ]
