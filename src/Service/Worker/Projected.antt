-- ===== src/Service/Worker/Projected.antt =====
-- The transaction that `syncProjections` skips (internal/service/worker.go) would have changed
-- nothing.
use platform_ipam.Prelude.{
  ℕ, ◌≡◌, refl, sym, ◌∙◌, ap, ◌⊎◌, String, List, [], ◌∷◌, Bool, true, false, inl, inr, none, some,
  ◌==◌, string_eq, text_eq_iff, lookup, insert, insert-same, values, lookup-mem, All, All-mem,
  Option-cases, Bool-cases, arith, if◌then◌else◌,
}
use platform_ipam.Domain.Rows.{Allocation, Finding}
use platform_ipam.Domain.State.{State}
use platform_ipam.Service.Digests.{Digests, finding_id}
use platform_ipam.Service.Raise.{worker_finding, resolve_finding}
use platform_ipam.Service.Worker.Projections.{
  SyncResult, status_of, moved_on, projected, record_result, apply_result, apply_results, reflected,
  already_applied, record_results,
}
use platform_ipam.Ledger.{Keyed}
use platform_ipam.Ledger.Upkeep.{row_at}

-- A finding is open or resolved.
abbrev pub Settled : Finding → Type 0
Settled f = (f.status ≡ "OPEN") ⊎ (f.status ≡ "RESOLVED")

resolves_none :
    (h : Digests) (a : Allocation) (code : String) (st : State)
    → lookup (finding_id h code a.id) st.findings ≡ none
    → resolve_finding h a code st ≡ st
unfolding resolve_finding
resolves_none h a code st e = rw (resolve_finding, e) refl

resolves_again :
    (h : Digests) (a : Allocation) (code : String) (st : State) (f : Finding)
    → lookup (finding_id h code a.id) st.findings ≡ some f
    → f.status ≡ "RESOLVED"
    → resolve_finding h a code st ≡ st
unfolding resolve_finding
resolves_again h a code st f e t =
    let restored : record f { status = "RESOLVED" } ≡ f =
      ap (λ (x : String). record f { status = x }) (sym t) in
    let same : insert (finding_id h code a.id) (record f { status = "RESOLVED" }) st.findings
        ≡ st.findings =
      insert-same (finding_id h code a.id) (record f { status = "RESOLVED" }) st.findings
        (e ∙ ap some (sym restored)) in
    rw (resolve_finding, e) (ap (λ (m : List (String × Finding)). record st { findings = m }) same)

-- A finding that is not open is resolved, so that resolving it again changes nothing.
resolves_idle :
    (h : Digests) (a : Allocation) (code : String) (st : State)
    → All Settled (values st.findings)
    → (status_of (lookup (finding_id h code a.id) st.findings) == "OPEN") ≡ false
    → resolve_finding h a code st ≡ st
resolves_idle h a code st settled t =
    elim (Option-cases (lookup (finding_id h code a.id) st.findings)) [
      | inl e ↦ resolves_none h a code st e
      | inr (f, e) ↦
          elim (All-mem Settled (values st.findings) f settled
            (lookup-mem (finding_id h code a.id) f st.findings e)) [
              | inl o ↦ absurd (not_open f o (rw (e) at t))
              | inr r ↦ resolves_again h a code st f e r
            ]
    ]
  where
    not_open : (f : Finding) → f.status ≡ "OPEN" → (f.status == "OPEN") ≡ false → ⊥
    not_open f o t = ground (arith, o, t, text_eq_iff f.status "OPEN")

applies :
    (h : Digests) (now : ℕ) (r : SyncResult) (st : State) (a : Allocation)
    → lookup r.allocation.id st.allocations ≡ some a
    → moved_on a r ≡ false
    → apply_result h now r st ≡ record (record_result h now r a st) {
      allocations = insert a.id (projected a r) (record_result h now r a st).allocations;
    }
unfolding apply_result
applies h now r st a e m = rw (apply_result, e, m) refl

records :
    (h : Digests) (now : ℕ) (r : SyncResult) (a : Allocation) (st : State)
    → r.failed ≡ false
    → record_result h now r a st ≡ resolve_finding h (projected a r) "inventory_sync_pending" st
unfolding record_result
records h now r a st e =
    ap
      (λ b.
        if b
        then worker_finding h (projected a r) "inventory_sync_pending" "WARNING" now st
        else resolve_finding h (projected a r) "inventory_sync_pending" st)
      e

-- What a row shows that is not behind a result.
current :
    (h : Digests) (r : SyncResult) (st : State) (a : Allocation)
    → lookup r.allocation.id st.allocations ≡ some a
    → moved_on a r ≡ false
    → reflected h r st ≡ true
    → (r.failed ≡ false)
      × ((a.inventory_sync == "CURRENT") ≡ true)
      × ((status_of (lookup (finding_id h "inventory_sync_pending" a.id) st.findings) == "OPEN")
          ≡ false)
unfolding reflected
current h r st a e m t = (ground (arith, t, e, m), ground (arith, t, e, m), ground (arith, t, e, m))

projected-same :
    (a : Allocation) (r : SyncResult)
    → r.failed ≡ false
    → (a.inventory_sync == "CURRENT") ≡ true
    → projected a r ≡ a
projected-same a r f t =
    let q : (if r.failed then "PENDING" else "CURRENT") ≡ a.inventory_sync =
      ap (λ b. if b then "PENDING" else "CURRENT") f
      ∙ sym ((text_eq_iff a.inventory_sync "CURRENT").0 t) in
    ap (λ (x : String). record a { inventory_sync = x }) q

module _ (h : Digests) (now : ℕ) (st : State) (keyed : Keyed st.allocations)
    (settled : All Settled (values st.findings)) where
  -- A result that the ledger reflects changes nothing.
  reflected-idle : (r : SyncResult) → reflected h r st ≡ true → apply_result h now r st ≡ st
  unfolding apply_result
  reflected-idle r t = elim (Option-cases (lookup r.allocation.id st.allocations)) [
    | inl e ↦ rw (apply_result, e) refl
    | inr (a, e) ↦ elim (Bool-cases (moved_on a r)) [
      | inl m ↦ rw (apply_result, e, m) refl
      | inr m ↦
          let (f, s, o) = current h r st a e m t in
          let quiet : record_result h now r a st ≡ st =
            records h now r a st f
            ∙ resolves_idle h (projected a r) "inventory_sync_pending" st settled o in
          let row : lookup a.id st.allocations ≡ some (projected a r) =
            row_at r.allocation.id a st.allocations keyed e
            ∙ ap some (sym (projected-same a r f s)) in
          applies h now r st a e m
          ∙ ap (λ (x : State). record x { allocations = insert a.id (projected a r) x.allocations })
              quiet
          ∙ ap (λ (x : List (String × Allocation)). record st { allocations = x })
              (insert-same a.id (projected a r) st.allocations row)
    ]
  ]

  applied-idle :
      (rs : List SyncResult) → already_applied h rs st ≡ true → apply_results h now rs st ≡ st
  unfolding already_applied apply_results
  applied-idle [] t = refl
  applied-idle (r ∷ rs) t =
      let first : reflected h r st ≡ true = ground (arith, t) in
      let rest : already_applied h rs st ≡ true = ground (arith, t) in
      ap (apply_results h now rs) (reflected-idle r first) ∙ applied-idle rs rest

  -- Where the rows of the ledger stand under their own ids and every finding is open or resolved,
  -- `applyProjectionResults` leaves what its transaction would leave, also where the check on the
  -- same ledger skips it.
  pub record_results-apply_results :
      (rs : List SyncResult) (interrupted : Bool)
      → record_results h now rs interrupted (some st) st ≡ apply_results h now rs st
  unfolding record_results
  record_results-apply_results rs interrupted = elim (Bool-cases interrupted) [
    | inl i ↦ rw (i) refl
    | inr i ↦ elim (Bool-cases (already_applied h rs st)) [
      | inl t ↦ rw (i, t) (sym (applied-idle rs t))
      | inr t ↦ rw (i, t) refl
    ]
  ]
