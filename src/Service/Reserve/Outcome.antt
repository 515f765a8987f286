-- ===== src/Service/Reserve/Outcome.antt =====
-- What an answer of 201 to a reservation or an adoption means for the ledger.
use platform_ipam.Prelude.{
  ◌≡◌, refl, sym, subst, ◌∙◌, ap, String, true, false, ◌⊎◌, inl, inr, some, lookup, insert,
  lookup-insert, Option-cases, Bool-cases, text_eq_iff, ◌==◌, string_eq, arith,
}
use platform_ipam.Domain.Errors.{Result, Result-cases, ok}
use platform_ipam.Domain.Rows.{Allocation, Operation}
use platform_ipam.Domain.State.{State, allocation_at, operation_at}
use platform_ipam.Service.Digests.{Digests}
use platform_ipam.Service.Raise.{resolve_finding}
use platform_ipam.Service.Withdrawal.{withdrawal_refusal}
use platform_ipam.Service.Reserve.Replay.{Reply, copy_allocation, is_retired}
use platform_ipam.Service.Reserve.Commit.{
  Settled, Commit, settled_already, committed_allocation, commit_hold, commit_tx,
}
use platform_ipam.Service.Reserve.Handler.{Outside, Mode, after_commit, commit_of, confirm, finish}

-- The ledger has the row, committed and neither quarantined nor released.
pub record Created (id : String) (a : Allocation) (st : State) : Type 0 where
  pub row : Allocation
  pub found : lookup id st.allocations ≡ some row
  pub committed : row.committed ≡ true
  pub live : is_retired row.state ≡ false
  pub answered : (a ≡ row) ⊎ (a ≡ copy_allocation row)

copy-committed : (a : Allocation) → (copy_allocation a).committed ≡ a.committed
unfolding copy_allocation
copy-committed a = refl

copy-state : (a : Allocation) → (copy_allocation a).state ≡ a.state
unfolding copy_allocation
copy-state a = refl

module _ (h : Digests) (c : Commit) (held : Allocation) (operation : Operation) (st : State) where
  commit-rows :
      (a : Allocation) (o : Operation)
      → (commit_hold h c a o st).allocations
        ≡ insert a.id (committed_allocation a c.inventory_id c.clock) st.allocations
  unfolding commit_hold resolve_finding
  commit-rows a o = ground arith

  abbrev row_now : Allocation
  row_now = allocation_at st held.id

  abbrev operation_now : Operation
  operation_now = operation_at st operation.id

  missing : (row_now.id == "") ≡ true → (commit_tx h c held operation st).0.found ≡ false
  unfolding commit_tx
  missing e = rw e refl

  settled :
      (row_now.id == "") ≡ false
      → settled_already row_now operation_now ≡ true
      → commit_tx h c held operation st ≡ (
        record { allocation = copy_allocation row_now; operation = operation_now; found = true },
        st,
      )
  unfolding commit_tx
  settled e s = rw (e, s) refl

  commits :
      (row_now.id == "") ≡ false
      → settled_already row_now operation_now ≡ false
      → ((commit_tx h c held operation st).0.allocation
          ≡ committed_allocation row_now c.inventory_id c.clock)
        × ((commit_tx h c held operation st).1 ≡ commit_hold h c row_now operation_now st)
  unfolding commit_tx
  commits e s = rw (e, s) (refl, refl)

  not_missing : (row_now.id == "") ≡ false → lookup held.id st.allocations ≡ some row_now
  not_missing e = elim (Option-cases (lookup held.id st.allocations)) [
    | inl m ↦ absurd (ground (arith, rw m at e, text_eq_iff "" ""))
    | inr (a, m) ↦ rw m refl
  ]

  settled-live : settled_already row_now operation_now ≡ false → is_retired row_now.state ≡ false
  unfolding settled_already
  settled-live s = ground (arith, s)

  -- The commit transaction found the row, and what it gives back is committed and not retired.
  commit_tx-Created :
      ((a : Allocation) → lookup held.id st.allocations ≡ some a → a.id ≡ held.id)
      → (commit_tx h c held operation st).0.found ≡ true
      → (commit_tx h c held operation st).0.allocation.committed ≡ true
      → is_retired (commit_tx h c held operation st).0.allocation.state ≡ false
      → Created held.id
          (commit_tx h c held operation st).0.allocation
          (commit_tx h c held operation st).1
  commit_tx-Created keyed f k l = elim (Bool-cases (row_now.id == "")) [
    | inl e ↦ absurd (cc (f, missing e))
    | inr e ↦ elim (Bool-cases (settled_already row_now operation_now)) [
      | inl s ↦
          let q = settled e s in
          record {
            row = row_now;
            found = rw q (not_missing e);
            committed = sym (copy-committed row_now) ∙ rw q at k;
            live = ap is_retired (sym (copy-state row_now)) ∙ rw q at l;
            answered = inr (rw q refl);
          }
      | inr s ↦
          let (answer, after) = commits e s in
          record {
            row = committed_allocation row_now c.inventory_id c.clock;
            found =
                rw (after, commit-rows row_now operation_now)
                  (ap
                      (λ i. lookup held.id (
                        insert i (committed_allocation row_now c.inventory_id c.clock)
                          st.allocations))
                      (keyed row_now (not_missing e))
                    ∙ ground (
                      arith,
                      lookup-insert held.id held.id
                          (committed_allocation row_now c.inventory_id c.clock) st.allocations,
                      text_eq_iff held.id held.id,
                    ));
            committed = refl;
            live = settled-live s;
            answered = inl answer;
          }
    ]
  ]

after_commit-created :
    (s : Settled) (reply : Reply)
    → after_commit s ≡ ok reply
    → reply.status ≡ 201
    → (s.found ≡ true)
      × (s.allocation.committed ≡ true)
      × (is_retired s.allocation.state ≡ false)
      × (reply.allocation ≡ some s.allocation)
unfolding after_commit
after_commit-created s reply e t = elim (Option-cases (withdrawal_refusal s.operation)) [
  | inl w ↦ (
    ground (arith, e, t, w),
    ground (arith, e, t, w),
    ground (arith, e, t, w),
    ground (arith, e, t, w),
  )
  | inr (f, w) ↦ (
    ground (arith, e, t, w),
    ground (arith, e, t, w),
    ground (arith, e, t, w),
    ground (arith, e, t, w),
  )
]

confirm-Created :
    (h : Digests) (mode : Mode) (out : Outside) (a : Allocation) (o : Operation) (i : String)
    (st st' : State) (reply : Reply)
    → ((x : Allocation) → lookup a.id (out.before_commit st).allocations ≡ some x → x.id ≡ a.id)
    → confirm h mode out a o i st ≡ (ok reply, st')
    → reply.status ≡ 201
    → (x : Allocation) × (reply.allocation ≡ some x) × Created a.id x st'
unfolding confirm
confirm-Created h mode out a o i st st' reply keyed e s =
    let tx = commit_tx h (commit_of mode out i) a o (out.before_commit st) in
    let (f, k, l, answer) =
      after_commit-created tx.0 reply (ap (λ (p : Result Reply × State). p.0) e) s in
    (
      tx.0.allocation,
      answer,
      subst (Created a.id tx.0.allocation) (ap (λ (p : Result Reply × State). p.1) e)
          (commit_tx-Created h (commit_of mode out i) a o (out.before_commit st) keyed f k l),
    )

-- Where the inventory created what a reservation or an adoption holds and the answer is 201, the
-- ledger after the call has the row of the answer, committed and neither quarantined nor released.
-- The rows that the commit transaction finds stand under their own ids.
pub finish-Created :
    (h : Digests) (mode : Mode) (out : Outside) (a : Allocation) (o : Operation) (st st' : State)
    (reply : Reply)
    → ((x : Allocation) → lookup a.id (out.before_commit st).allocations ≡ some x → x.id ≡ a.id)
    → finish h mode out a o st ≡ (ok reply, st')
    → reply.status ≡ 201
    → (x : Allocation) × (reply.allocation ≡ some x) × Created a.id x st'
unfolding finish
finish-Created h mode out a o st st' reply keyed e s = elim (Result-cases (out.ensured a o)) [
  | inr (f, w) ↦ absurd (ground (arith, e, w, s))
  | inl (i, w) ↦ confirm-Created h mode out a o i st st' reply keyed (ground (arith, e, w, s)) s
]
