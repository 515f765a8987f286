-- ===== src/Service/Abandon/Finished.antt =====
-- What an answer of `AbandonAdoption` without an error means.
use platform_ipam.Prelude.{
  ◌≡◌, refl, subst, ap, values, Memᴰ, ◌∙◌, String, true, false, not, ◌||◌, some, none, inl, inr,
  lookup, Option-cases, Bool-cases, string_eq, arith,
}
use platform_ipam.Domain.Errors.{Result-cases, ok}
use platform_ipam.Domain.Rows.{Allocation, Operation}
use platform_ipam.Domain.State.{State}
use platform_ipam.Service.Digests.{Digests}
use platform_ipam.Service.Cancel.Handler.{Removal, removed, uncertain, refused}
use platform_ipam.Service.Abandon.{AbandonTarget, abandon_fence, abandon_delete}
use platform_ipam.Service.Abandon.Target.{Aimed, abandon_fence-Aimed}
use platform_ipam.Service.Abandon.Handler.{
  AbandonReport, Abandoned, AbandonOutside, abandon_inputs, abandon_report, abandon_claim,
  abandon_clear_error, delete_abandoned, clear_abandoned, abandon_adoption,
}
use platform_ipam.Service.Abandon.Deleted.{Withdrawn, abandon_delete-Withdrawn}

-- An abandon of the allocation that has finished.
pub record Finished (allocation_id operation_id operator : String) (out : AbandonOutside)
    (st : State) (c : Abandoned) : Type 0 where
  pub report : AbandonReport
  pub said : c.report ≡ some report
  pub deleted : report.deleted ≡ true
  pub first : out.first_clear ≡ removed
  pub second : out.second_clear ≡ removed
  pub fenced : State
  pub fence :
      abandon_fence allocation_id operation_id operator out.now out.event_id (out.before_fence st)
      ≡ ok (report.target, fenced)
  pub aimed : Aimed allocation_id operation_id (out.before_fence st) report.target fenced
  pub withdrawn :
      Withdrawn allocation_id report.target.operation.id (out.before_delete fenced) c.ledger

-- What a run without an error reports of the target that its fence found.
record Withdrew (out : AbandonOutside) (t : AbandonTarget) (before : State) (c : Abandoned)
    : Type 0 where
  pub report : AbandonReport
  pub said : c.report ≡ some report
  pub deleted : report.deleted ≡ true
  pub same : t ≡ report.target
  pub first : out.first_clear ≡ removed
  pub second : out.second_clear ≡ removed
  pub withdrawn : Withdrawn t.allocation.id t.operation.id (out.before_delete before) c.ledger

clear_error-none : (x : Removal) → abandon_clear_error x ≡ none → x ≡ removed
unfolding abandon_clear_error
clear_error-none removed e = refl
clear_error-none uncertain e = absurd cc
clear_error-none refused e = absurd cc

clear_abandoned-Withdrew :
    (h : Digests) (out : AbandonOutside) (t : AbandonTarget) (r : AbandonReport) (st : State)
    → t ≡ r.target
    → ((a : Allocation)
        → lookup t.allocation.id (out.before_delete st).allocations ≡ some a
        → a.id ≡ t.allocation.id)
    → (clear_abandoned h out t r st).failure ≡ none
    → Withdrew out t st (clear_abandoned h out t r st)
unfolding clear_abandoned delete_abandoned
clear_abandoned-Withdrew h out t r st is keyed e =
    elim (Option-cases (abandon_clear_error out.first_clear)) [
      | inr (f, c) ↦ absurd (ground (arith, e, c))
      | inl c ↦ elim (Option-cases (abandon_clear_error out.second_clear)) [
        | inr (f, d) ↦ absurd (ground (arith, e, c, d))
        | inl d ↦ elim (Result-cases (abandon_delete h t (out.before_delete st))) [
          | inr (f, g) ↦ absurd (ground (arith, e, c, d, g))
          | inl ((resolved, st'), g) ↦
              let r' : AbandonReport = record r {
                cleared = true;
                deleted = true;
                finding_resolved = resolved;
              } in
              let answer : Abandoned = record { report = some r'; failure = none; ledger = st' } in
              let final : clear_abandoned h out t r st ≡ answer =
                rw (clear_abandoned, c, d, delete_abandoned, g) refl in
              rw final (record {
                report = r';
                said = refl;
                deleted = refl;
                same = is;
                first = clear_error-none out.first_clear c;
                second = clear_error-none out.second_clear d;
                withdrawn =
                    abandon_delete-Withdrawn h t (out.before_delete st) resolved st' keyed g;
              })
        ]
      ]
    ]

-- The run after its fence.
abandon_adoption-Withdrew :
    (h : Digests) (allocation_id operation_id operator reason : String) (out : AbandonOutside)
    (st : State)
    → ((t : AbandonTarget) (st' : State) (a : Allocation)
        → abandon_fence allocation_id operation_id operator out.now out.event_id
            (out.before_fence st)
          ≡ ok (t, st')
        → lookup t.allocation.id (out.before_delete st').allocations ≡ some a
        → a.id ≡ t.allocation.id)
    → (abandon_adoption h allocation_id operation_id operator reason out st).failure ≡ none
    → (t : AbandonTarget) × (st' : State) × (abandon_fence allocation_id operation_id operator
          out.now out.event_id
          (out.before_fence st)
        ≡ ok (t, st'))
      × Withdrew out t st' (abandon_adoption h allocation_id operation_id operator reason out st)
unfolding abandon_adoption abandon_report
abandon_adoption-Withdrew h allocation_id operation_id operator reason out st keyed e =
    elim (Result-cases (abandon_inputs allocation_id operator reason)) [
      | inr (f, c) ↦ absurd (ground (arith, e, c))
      | inl (u, c) ↦ elim (Bool-cases (not out.ledger_ready || not out.inventory_configured)) [
        | inl d ↦ absurd (ground (arith, e, c, d))
        | inr d ↦
            elim (Result-cases (
              abandon_fence allocation_id operation_id operator out.now out.event_id
                (out.before_fence st))) [
                  | inr (f, g) ↦ absurd (ground (arith, e, c, d, g))
                  | inl ((t, st'), g) ↦
                      let claim = abandon_claim out.snapshot t.allocation t.operation.id in
                      let is : abandon_adoption h allocation_id operation_id operator reason out st
                          ≡ clear_abandoned h out t (abandon_report false t claim) st' =
                        rw (abandon_adoption, c, d, g) refl in
                      let done : Withdrew out t st'
                          (abandon_adoption h allocation_id operation_id operator reason out st) =
                        rw is (
                          clear_abandoned-Withdrew h out t (abandon_report false t claim) st' refl
                            (λ a m. keyed t st' a g m) (rw is at e)) in
                      (t, st', g, done)
                ]
      ]
    ]

-- An abandon of an allocation that answers without an error, where the ledger it judges has the
-- row under that id and every operation under their own ids, and the ledger it deletes from has its
-- row under its own id. Its fence has found that allocation's row, which is not committed, and the
-- only adoption that names it, or the one with the given operation id; the fence has left every row
-- and every other operation as they were. Both clears have been confirmed by the inventory, and the
-- report names that target and says deleted. If the last transaction found the row, the row was not
-- committed and its operation carried the fence. The ledger then has no row under the id, and
-- every other key has the row that it had before that transaction.
pub abandon_adoption-Finished :
    (h : Digests) (allocation_id operation_id operator reason : String) (out : AbandonOutside)
    (st : State)
    → ((a : Allocation)
        → lookup allocation_id (out.before_fence st).allocations ≡ some a
        → a.id ≡ allocation_id)
    → ((o : Operation)
        → Memᴰ o (values (out.before_fence st).operations)
        → lookup o.id (out.before_fence st).operations ≡ some o)
    → ((t : AbandonTarget) (st' : State) (a : Allocation)
        → abandon_fence allocation_id operation_id operator out.now out.event_id
            (out.before_fence st)
          ≡ ok (t, st')
        → lookup t.allocation.id (out.before_delete st').allocations ≡ some a
        → a.id ≡ t.allocation.id)
    → (abandon_adoption h allocation_id operation_id operator reason out st).failure ≡ none
    → Finished allocation_id operation_id operator out st
        (abandon_adoption h allocation_id operation_id operator reason out st)
abandon_adoption-Finished h allocation_id operation_id operator reason out st own named keyed e =
    let c = abandon_adoption h allocation_id operation_id operator reason out st in
    let (t, st', g, w) =
      abandon_adoption-Withdrew h allocation_id operation_id operator reason out st keyed e in
    let aimed : Aimed allocation_id operation_id (out.before_fence st) t st' =
      abandon_fence-Aimed allocation_id operation_id operator out.now out.event_id
        (out.before_fence st) t st' own named g in
    let gone : Withdrawn allocation_id t.operation.id (out.before_delete st') c.ledger =
      subst (λ k. Withdrawn k t.operation.id (out.before_delete st') c.ledger) aimed.target.same_id
        w.withdrawn in
    record {
      report = w.report;
      said = w.said;
      deleted = w.deleted;
      first = w.first;
      second = w.second;
      fenced = st';
      fence = g ∙ ap (λ (x : AbandonTarget). ok (x, st')) w.same;
      aimed =
          subst (λ x. Aimed allocation_id operation_id (out.before_fence st) x st') w.same aimed;
      withdrawn =
          subst
            (λ (x : AbandonTarget).
              Withdrawn allocation_id x.operation.id (out.before_delete st') c.ledger)
            w.same gone;
    }
