-- ===== src/Service/Cancel/Finished.antt =====
-- What an answer of `CancelReservation` without an error means.
use platform_ipam.Prelude.{
  ◌≡◌, refl, sym, ◌∙◌, ap, subst, String, Bool, true, false, none, some, inl, inr, lookup,
  Option-cases, Bool-cases, arith, if◌then◌else◌,
}
use platform_ipam.Domain.Policy.{Principal}
use platform_ipam.Domain.Errors.{ok, Result-cases}
use platform_ipam.Domain.Rows.{Allocation, Operation}
use platform_ipam.Domain.State.{State}
use platform_ipam.Service.Digests.{Digests}
use platform_ipam.Service.Cancel.{CancelTarget, cancel_fence, cancel_delete}
use platform_ipam.Service.Cancel.Deleted.{cancel_delete-Deleted}
use platform_ipam.Service.Cancel.Handler.{
  Removal, removed, uncertain, refused, CancelOutside, CancelReport, Cancelled, cancel_report,
  cancel_remove_error, delete_cancelled, remove_cancelled, cancel_reservation,
}
use platform_ipam.Service.Cancel.Target.{fence-done, fence-target}

-- A cancel of the operation under the id that has finished.
pub record Finished (id : String) (out : CancelOutside) (st : State) (c : Cancelled) : Type 0 where
  pub report : CancelReport
  pub said : c.report ≡ some report
  pub deleted : report.deleted ≡ true
  pub operation : Operation
  pub found : lookup id (out.before_fence st).operations ≡ some operation
  pub same_operation : report.target.operation.id ≡ operation.id
  pub same_allocation : report.target.allocation.id ≡ operation.allocation_id
  pub removals :
      report.target.done ≡ false → (out.first_removal ≡ removed) × (out.second_removal ≡ removed)
  pub gone : lookup operation.allocation_id c.ledger.allocations ≡ none

-- What a run without an error reports of the target that its fence found.
record Withdrew (out : CancelOutside) (t : CancelTarget) (c : Cancelled) : Type 0 where
  pub report : CancelReport
  pub said : c.report ≡ some report
  pub deleted : report.deleted ≡ true
  pub same : report.target ≡ t
  pub removals : t.done ≡ false → (out.first_removal ≡ removed) × (out.second_removal ≡ removed)
  pub gone : lookup t.allocation.id c.ledger.allocations ≡ none

remove_error-none : (x : Removal) → cancel_remove_error x ≡ none → x ≡ removed
unfolding cancel_remove_error
remove_error-none removed e = refl
remove_error-none uncertain e = absurd cc
remove_error-none refused e = absurd cc

delete-gone :
    (h : Digests) (t : CancelTarget) (st : State) (resolved : Bool) (st' : State)
    → ((a : Allocation) → lookup t.allocation.id st.allocations ≡ some a → a.id ≡ t.allocation.id)
    → cancel_delete h t st ≡ ok (resolved, st')
    → lookup t.allocation.id st'.allocations ≡ none
unfolding cancel_delete
delete-gone h t st resolved st' keyed c =
    elim (Option-cases (lookup t.allocation.id st.allocations)) [
      | inl m ↦ let same : st ≡ st' = ground (arith, c, m) in rw (← same) m
      | inr (a, m) ↦
          subst (λ k. lookup k st'.allocations ≡ none) (keyed a m)
            (cancel_delete-Deleted h t st a resolved st' m c).gone
    ]

delete_cancelled-Withdrew :
    (h : Digests) (out : CancelOutside) (t : CancelTarget) (r : CancelReport) (st : State)
    → r.target ≡ t
    → out.first_removal ≡ removed
    → out.second_removal ≡ removed
    → ((a : Allocation) → lookup t.allocation.id st.allocations ≡ some a → a.id ≡ t.allocation.id)
    → (delete_cancelled h t r st).failure ≡ none
    → Withdrew out t (delete_cancelled h t r st)
unfolding delete_cancelled
delete_cancelled-Withdrew h out t r st is x y keyed e = elim (Result-cases (cancel_delete h t st)) [
  | inr (f, c) ↦ absurd (ground (arith, e, c))
  | inl ((resolved, st'), c) ↦
      let gone : lookup t.allocation.id st'.allocations ≡ none =
        delete-gone h t st resolved st' keyed c in
      rw (delete_cancelled, c)
        (record {
          report = record r { deleted = true; finding_resolved = resolved };
          said = refl;
          deleted = refl;
          same = is;
          removals = λ _. (x, y);
          gone = gone;
        })
]

remove_cancelled-Withdrew :
    (h : Digests) (out : CancelOutside) (t : CancelTarget) (st : State)
    → ((a : Allocation)
        → lookup t.allocation.id (out.before_delete st).allocations ≡ some a
        → a.id ≡ t.allocation.id)
    → (remove_cancelled h out t st).failure ≡ none
    → Withdrew out t (remove_cancelled h out t st)
unfolding remove_cancelled cancel_report
remove_cancelled-Withdrew h out t st keyed e =
    elim (Option-cases (cancel_remove_error out.first_removal)) [
      | inr (f, c) ↦ absurd (ground (arith, e, c))
      | inl c ↦ elim (Option-cases (cancel_remove_error out.second_removal)) [
        | inr (f, d) ↦ absurd (ground (arith, e, c, d))
        | inl d ↦
            let r : CancelReport = record (cancel_report t) { removal = true } in
            let is : remove_cancelled h out t st ≡ delete_cancelled h t r (out.before_delete st) =
              rw (remove_cancelled, c, d) refl in
            rw is (
              delete_cancelled-Withdrew h out t r (out.before_delete st) refl
                (remove_error-none out.first_removal c) (remove_error-none out.second_removal d)
                keyed (rw is at e))
      ]
    ]

cancel_reservation-Withdrew :
    (h : Digests) (p : Principal) (id : String) (out : CancelOutside) (st : State)
    (t : CancelTarget) (st' : State)
    → ((a : Allocation)
        → lookup t.allocation.id (out.before_delete st').allocations ≡ some a
        → a.id ≡ t.allocation.id)
    → cancel_fence h p id out.now out.event_id (out.before_fence st) ≡ ok (t, st')
    → out.ledger_ready ≡ true
    → out.inventory_configured ≡ true
    → (cancel_reservation h p id out st).failure ≡ none
    → Withdrew out t (cancel_reservation h p id out st)
unfolding cancel_reservation cancel_report remove_cancelled
cancel_reservation-Withdrew h p id out st t st' keyed c l i e = elim (Bool-cases t.done) [
  | inl d ↦
      let answer : Cancelled = record {
        report = some (cancel_report t);
        failure = none;
        ledger = st';
      } in
      let is : cancel_reservation h p id out st ≡ answer =
        rw (cancel_reservation, l, i, c)
          (ap (λ b. if b then answer else remove_cancelled h out t st') d) in
      rw is (record {
        report = cancel_report t;
        said = refl;
        deleted = d;
        same = refl;
        removals = λ n. absurd (ground (arith, d, n));
        gone = fence-done h p id out.now out.event_id (out.before_fence st) t st' c d;
      })
  | inr d ↦
      let is : cancel_reservation h p id out st ≡ remove_cancelled h out t st' =
        rw (cancel_reservation, l, i, c, d) refl in
      rw is (remove_cancelled-Withdrew h out t st' keyed (rw is at e))
]

-- A cancel of the operation under an id that answers without an error, where the ledgers it judges
-- and deletes from have their rows under their own ids, has a report that says deleted and names
-- that operation and its allocation. The ledger then has no row under the operation's allocation
-- id. Either an earlier run had deleted the row, or the inventory confirmed both removals of this
-- run.
pub cancel_reservation-Finished :
    (h : Digests) (p : Principal) (id : String) (out : CancelOutside) (st : State)
    → ((k : String) (a : Allocation)
        → lookup k (out.before_fence st).allocations ≡ some a
        → a.id ≡ k)
    → ((t : CancelTarget) (st' : State) (a : Allocation)
        → cancel_fence h p id out.now out.event_id (out.before_fence st) ≡ ok (t, st')
        → lookup t.allocation.id (out.before_delete st').allocations ≡ some a
        → a.id ≡ t.allocation.id)
    → (cancel_reservation h p id out st).failure ≡ none
    → Finished id out st (cancel_reservation h p id out st)
unfolding cancel_reservation
cancel_reservation-Finished h p id out st before keyed e = elim (Bool-cases out.ledger_ready) [
  | inr l ↦ absurd (ground (arith, e, l))
  | inl l ↦ elim (Bool-cases out.inventory_configured) [
    | inr i ↦ absurd (ground (arith, e, l, i))
    | inl i ↦ elim (Result-cases (cancel_fence h p id out.now out.event_id (out.before_fence st))) [
      | inr (f, c) ↦ absurd (ground (arith, e, l, i, c))
      | inl ((t, st'), c) ↦
          let w =
            cancel_reservation-Withdrew h p id out st t st' (λ a m. keyed t st' a c m) c l i e in
          let (o, m, is, at) =
            fence-target h p id out.now out.event_id (out.before_fence st) t st' before c in
          record {
            report = w.report;
            said = w.said;
            deleted = w.deleted;
            operation = o;
            found = m;
            same_operation = ap (λ (x : CancelTarget). x.operation.id) w.same ∙ is;
            same_allocation = ap (λ (x : CancelTarget). x.allocation.id) w.same ∙ at;
            removals = λ n. w.removals (ap (λ (x : CancelTarget). x.done) (sym w.same) ∙ n);
            gone =
                subst (λ k. lookup k (cancel_reservation h p id out st).ledger.allocations ≡ none)
                  at w.gone;
          }
    ]
  ]
]
