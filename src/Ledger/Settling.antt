-- ===== src/Ledger/Settling.antt =====
-- What the planning and the settling of a reclaim do to the rows of the ledger:
-- internal/service/worker.go.
use platform_ipam.Prelude.{
  ℕ, ◌≡◌, refl, sym, ◌∙◌, ap, String, [], ◌∷◌, true, false, inl, inr, some, lookup, insert,
  Option-cases, Bool-cases, string_eq, arith, subst,
}
use platform_ipam.Domain.Policy.{Config}
use platform_ipam.Domain.Rows.{Allocation, Operation, quarantined, is_quarantined}
use platform_ipam.Domain.State.{State, allocation_at, operation_at}
use platform_ipam.Service.Raise.{worker_event}
use platform_ipam.Service.Reclaim.{
  reclaim_eligible, quarantine_over, goes_through, Job, Seen, plan_reclaim, blocked_reclaim,
  complete_reclaim, released_allocation, settle_reclaim, reclaim_fence,
}
use platform_ipam.Ledger.{stays, ends, Continues, Keyed, Change, replace}
use platform_ipam.Ledger.Transactions.{record_observation-allocations}
use platform_ipam.Ledger.Upkeep.{row_at}

pub plan_reclaim-Change :
    (a : Allocation) (operation_id event_id : String) (now : ℕ) (st : State)
    → Keyed st.allocations
    → (k : String) → lookup k st.allocations ≡ some a
    → Change st.allocations (plan_reclaim a operation_id event_id now st).allocations
unfolding plan_reclaim worker_event
plan_reclaim-Change a operation_id event_id now st keyed k e =
    replace a.id a _ (row_at k a st.allocations keyed e) (record {
      id = refl;
      tenant = refl;
      key = refl;
      domain = refl;
      scope = refl;
      parent = refl;
      space = refl;
      moves = stays;
      revision = omega arith;
      owned = λ h. h;
    })

abbrev pub still_blocked : Allocation → Allocation
still_blocked a = record a { release_blockers = "post_delete_verification_pending" ∷ [] }

still_blocked-Continues : (a : Allocation) → Continues a (still_blocked a)
still_blocked-Continues a = record {
  id = refl;
  tenant = refl;
  key = refl;
  domain = refl;
  scope = refl;
  parent = refl;
  space = refl;
  moves = stays;
  revision = omega arith;
  owned = λ h. h;
}

pub blocked-allocations :
    (seen : Seen) (a : Allocation) (o : Operation) (st : State)
    → (blocked_reclaim seen a o st).allocations ≡ insert a.id (still_blocked a) st.allocations
unfolding blocked_reclaim
blocked-allocations seen a o st = elim (Option-cases seen.observation) [
  | inl e ↦ rw e refl
  | inr (obs, e) ↦ rw (e, record_observation-allocations st obs) refl
]

-- A fence that holds is of a quarantined allocation.
pub fence-quarantined :
    (st : State) (a : Allocation) (operation_id : String) (cfg : Config) (now : ℕ)
    → reclaim_fence st a operation_id cfg now ≡ true
    → a.state ≡ quarantined
unfolding reclaim_fence reclaim_eligible quarantine_over
fence-quarantined st a operation_id cfg now h = elim (Option-cases a.release_requested_at) [
  | inl e ↦ absurd (ground (arith, h, e))
  | inr (t, e) ↦ let q : is_quarantined a.state ≡ true = ground (arith, h, e) in ground (arith, q)
]

released-Continues :
    (a : Allocation) (now : ℕ) → a.state ≡ quarantined → Continues a (released_allocation a now)
unfolding released_allocation
released-Continues a now e = record {
  id = refl;
  tenant = refl;
  key = refl;
  domain = refl;
  scope = refl;
  parent = refl;
  space = refl;
  moves = rw e ends;
  revision = omega arith;
  owned = λ h. h;
}

pub complete-allocations :
    (seen : Seen) (a : Allocation) (o : Operation) (st : State)
    → (complete_reclaim seen a o st).allocations
      ≡ insert a.id (released_allocation a seen.clock) st.allocations
unfolding complete_reclaim worker_event released_allocation
complete-allocations seen a o st = refl

module _ (cfg : Config) (job : Job) (seen : Seen) (st : State) where
  abbrev pub settled_row : Allocation
  settled_row = allocation_at st job.allocation.id

  pub settle-completes :
      goes_through cfg job seen st ≡ true
      → settle_reclaim cfg job seen st
        ≡ complete_reclaim seen settled_row (operation_at st job.operation_id) st
  unfolding settle_reclaim
  settle-completes g = rw g refl

  pub settle-blocks :
      goes_through cfg job seen st ≡ false
      → settle_reclaim cfg job seen st
        ≡ blocked_reclaim seen settled_row (operation_at st job.operation_id) st
  unfolding settle_reclaim
  settle-blocks g = rw g refl

  goes_through-quarantined : goes_through cfg job seen st ≡ true → settled_row.state ≡ quarantined
  unfolding goes_through
  goes_through-quarantined g =
      fence-quarantined st settled_row job.operation_id cfg seen.clock (ground (arith, g))

  pub settle_reclaim-Change :
      (a : Allocation)
      → Keyed st.allocations
      → lookup job.allocation.id st.allocations ≡ some a
      → Change st.allocations (settle_reclaim cfg job seen st).allocations
  settle_reclaim-Change a keyed e =
      let row : settled_row ≡ a = rw e refl in
      let at = row_at job.allocation.id a st.allocations keyed e in
      elim (Bool-cases (goes_through cfg job seen st)) [
        | inl g ↦
            rw
              (
                settle-completes g,
                complete-allocations seen settled_row (operation_at st job.operation_id) st,
              )
              (subst
                (λ x.
                  Change st.allocations
                    (insert x.id (released_allocation x seen.clock) st.allocations))
                (sym row)
                (replace a.id a _ at (
                  released-Continues a seen.clock
                    (ap (λ (x : Allocation). x.state) (sym row) ∙ goes_through-quarantined g))))
        | inr g ↦
            rw
              (
                settle-blocks g,
                blocked-allocations seen settled_row (operation_at st job.operation_id) st,
              )
              (subst (λ x. Change st.allocations (insert x.id (still_blocked x) st.allocations))
                (sym row) (replace a.id a _ at (still_blocked-Continues a)))
      ]
