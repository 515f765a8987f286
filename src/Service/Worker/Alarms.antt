-- ===== src/Service/Worker/Alarms.antt =====
-- What `reconcileAllocations` of internal/service/worker.go never passes over in silence.
use platform_ipam.Prelude.{
  ◌==◌, string_eq, ℕ, ◌≡◌, refl, sym, ap, ◌∙◌, String, List, [], ◌∷◌, true, false, inl, inr, none,
  some, lookup, insert, lookup-insert, ltb, length, text_eq_iff, Option-cases, Bool-cases,
  if◌then◌else◌, subst,
}
use platform_ipam.Domain.Policy.{Config}
use platform_ipam.Domain.Rows.{
  Allocation, Observation, is_active, is_quarantined, AllocationState, unset, reserved, active,
  quarantined, released,
}
use platform_ipam.Domain.State.{State}
use platform_ipam.Service.Digests.{Digests, finding_id}
use platform_ipam.Service.Eligible.{domain_for}
use platform_ipam.Service.Raise.{worker_finding, worker_event}
use platform_ipam.Service.Worker.Reconcile.{
  Decision, agrees, raises, takes, NewIds, is_reconciled, seen_at, latest_trusted, carry_out, judge,
  judge_with, judge_active, claimed_by, required_parent, shows_bound, sight_row, reconcile_row,
  reconcile_rows, resolve_codes,
}
use platform_ipam.Service.Worker.Unmanaged.{reconcile_allocations}
use platform_ipam.Service.Worker.Claimed.{visits, untouched, sighted, claimed, reconcile_row-Round}
use platform_ipam.Service.Worker.Open.{
  Open, worker_finding-opens, reconcile_rows-Open, report_unmanaged-Open,
}

-- What the pass has to report of a row, by the code of its finding: no trusted observation of its
-- domain, more than one resource that claims it, or no sight of the binding of an active VPC.
pub data Alarm (cfg : Config) (now : ℕ) (a : Allocation) (st : State) : String → Type 0 where
  unseen :
      latest_trusted cfg (domain_for cfg a.domain_id) a.domain_id now st ≡ none
      → Alarm cfg now a st "coverage_incomplete"
  contested :
      (o : Observation)
      → latest_trusted cfg (domain_for cfg a.domain_id) a.domain_id now st ≡ some o
      → ltb 1 (length (claimed_by a.id o)) ≡ true
      → Alarm cfg now a st "multiple_resource_claims"
  lost :
      (o : Observation)
      → latest_trusted cfg (domain_for cfg a.domain_id) a.domain_id now st ≡ some o
      → claimed_by a.id o ≡ []
      → (a.scope == "subnet") ≡ false
      → is_active a.state ≡ true
      → shows_bound a o "" a.binding ≡ false
      → Alarm cfg now a st "resource_missing"

active_only : (s : AllocationState) → is_active s ≡ true → is_quarantined s ≡ false
active_only unset e = refl
active_only reserved e = refl
active_only active e = refl
active_only quarantined e = absurd cc
active_only released e = refl

module _ (h : Digests) (cfg : Config) (now : ℕ) (ids : NewIds) where
  sees :
      (a : Allocation) (st st' : State)
      → st'.observations ≡ st.observations
      → latest_trusted cfg (domain_for cfg a.domain_id) a.domain_id now st'
        ≡ latest_trusted cfg (domain_for cfg a.domain_id) a.domain_id now st
  unfolding latest_trusted
  sees a st st' q = rw (latest_trusted, q) refl

  Alarm-seen :
      (a : Allocation) (code : String) (st st' : State)
      → st'.observations ≡ st.observations
      → Alarm cfg now a st code
      → Alarm cfg now a st' code
  Alarm-seen a code st st' q (unseen t) = unseen (sees a st st' q ∙ t)
  Alarm-seen a code st st' q (contested o t c) = contested o (sees a st st' q ∙ t) c
  Alarm-seen a code st st' q (lost o t c s k b) = lost o (sees a st st' q ∙ t) c s k b

  judge-contested :
      (a : Allocation) (o : Observation) (st : State)
      → ltb 1 (length (claimed_by a.id o)) ≡ true
      → judge cfg now st a o ≡ raises "multiple_resource_claims" "CRITICAL"
  unfolding judge
  judge-contested a o st t = rw (judge, t) refl

  judge-lost :
      (a : Allocation) (o : Observation) (st : State)
      → claimed_by a.id o ≡ []
      → (a.scope == "subnet") ≡ false
      → is_active a.state ≡ true
      → shows_bound a o "" a.binding ≡ false
      → judge cfg now st a o ≡ raises "resource_missing" "CRITICAL"
  unfolding judge judge_with judge_active required_parent
  judge-lost a o st c s k b =
      let few : ltb 1 (length (claimed_by a.id o)) ≡ false = ap (λ xs. ltb 1 (length xs)) c in
      let parentless : required_parent st a ≡ some "" = rw (required_parent, s) refl in
      let with_none : judge cfg now st a o ≡ judge_with cfg now st a o "" =
        rw (judge, few, parentless) refl in
      let as_active : judge_with cfg now st a o "" ≡ judge_active a o "" (claimed_by a.id o) =
        rw (judge_with, active_only a.state k, k) refl in
      let missing : judge_active a o "" [] ≡ raises "resource_missing" "CRITICAL" =
        rw (judge_active, b) refl in
      with_none ∙ as_active ∙ ap (judge_active a o "") c ∙ missing

  raised :
      (id : String) (a : Allocation) (code severity : String) (o : Observation) (st : State)
      → is_reconciled a ≡ true
      → latest_trusted cfg (domain_for cfg a.domain_id) a.domain_id now st ≡ some o
      → judge cfg now
          (record st { allocations = insert id (seen_at a o.finished_at) st.allocations })
          (seen_at a o.finished_at)
          o
        ≡ raises code severity
      → Open (finding_id h code a.id) (reconcile_row h cfg now ids id a st).findings
  unfolding carry_out
  raised id a code severity o st c t j =
      let b = seen_at a o.finished_at in
      let st' : State = record st { allocations = insert id b st.allocations } in
      subst (λ (s : State). Open (finding_id h code a.id) s.findings)
        (sym (visits h cfg now ids id a st o c t ∙ ap (λ d. carry_out h now ids id b o d st') j))
        (worker_finding-opens h (finding_id h code a.id) b code severity o.finished_at st' refl)

  -- The round of the row itself.
  reconcile_row-raises :
      (id : String) (a : Allocation) (code : String) (st : State)
      → is_reconciled a ≡ true
      → Alarm cfg now a st code
      → Open (finding_id h code a.id) (reconcile_row h cfg now ids id a st).findings
  unfolding reconcile_row
  reconcile_row-raises id a code st c (unseen t) =
      subst (λ (s : State). Open (finding_id h "coverage_incomplete" a.id) s.findings)
        (sym (blind id a st c t))
        (worker_finding-opens h (finding_id h "coverage_incomplete" a.id) a "coverage_incomplete"
          "WARNING" now st refl)
    where
      blind :
          (id : String) (a : Allocation) (st : State)
          → is_reconciled a ≡ true
          → latest_trusted cfg (domain_for cfg a.domain_id) a.domain_id now st ≡ none
          → reconcile_row h cfg now ids id a st
            ≡ worker_finding h a "coverage_incomplete" "WARNING" now st
      blind id a st c t = rw (reconcile_row, c, t) refl
  reconcile_row-raises id a code st c (contested o t m) =
      raised id a "multiple_resource_claims" "CRITICAL" o st c t
        (judge-contested (seen_at a o.finished_at) o _ m)
  reconcile_row-raises id a code st c (lost o t m s k b) =
      raised id a "resource_missing" "CRITICAL" o st c t
        (judge-lost (seen_at a o.finished_at) o _ m s k b)

  carry_out-observations :
      (id : String) (a : Allocation) (o : Observation) (d : Decision) (st : State)
      → (carry_out h now ids id a o d st).observations ≡ st.observations
  unfolding carry_out worker_finding worker_event
  carry_out-observations id a o agrees st = refl
  carry_out-observations id a o (raises code severity) st = refl
  carry_out-observations id a o (takes b) st = refl

  reconcile_row-observations :
      (id : String) (a : Allocation) (st : State)
      → (reconcile_row h cfg now ids id a st).observations ≡ st.observations
  unfolding reconcile_row sight_row worker_finding
  reconcile_row-observations id a st = elim (Bool-cases (is_reconciled a)) [
    | inr c ↦ rw (reconcile_row, c) refl
    | inl c ↦
        elim (Option-cases (latest_trusted cfg (domain_for cfg a.domain_id) a.domain_id now st)) [
          | inl n ↦ rw (reconcile_row, c, n) refl
          | inr (o, t) ↦
              rw (reconcile_row, c, t) (carry_out-observations id (seen_at a o.finished_at) o _ _)
        ]
  ]

  insert_other :
      (j id : String) (b : Allocation) (m : List (String × Allocation))
      → (j == id) ≡ false
      → lookup id (insert j b m) ≡ lookup id m
  insert_other j id b m q = lookup-insert j id b m ∙ ap (λ x. if x then some b else lookup id m) q

  reconcile_row-other :
      (j id : String) (b : Allocation) (st : State)
      → (j == id) ≡ false
      → lookup id (reconcile_row h cfg now ids j b st).allocations ≡ lookup id st.allocations
  reconcile_row-other j id b st q = elim (reconcile_row-Round h cfg now ids j b st) [
    | untouched e ↦ ap (lookup id) e
    | sighted o e ↦ ap (lookup id) e ∙ insert_other j id _ _ q
    | claimed o c g e ↦ ap (lookup id) e ∙ insert_other j id _ _ q ∙ insert_other j id _ _ q
  ]

  rows-raise :
      (id : String) (a : Allocation) (code : String) (rows : List (String × Allocation))
      (st : State) (row : Allocation)
      → lookup id rows ≡ some row
      → lookup id st.allocations ≡ some a
      → is_reconciled a ≡ true
      → Alarm cfg now a st code
      → Open (finding_id h code a.id) (reconcile_rows h cfg now ids rows st).findings
  unfolding reconcile_rows lookup
  rows-raise id a code [] st row listed e c alarm = absurd cc
  rows-raise id a code ((j, x) ∷ rest) st row listed e c alarm = elim (Bool-cases (j == id)) [
    | inl q ↦
        let here : lookup j st.allocations ≡ some a =
          ap (λ i. lookup i st.allocations) ((text_eq_iff j id).0 q) ∙ e in
        rw (reconcile_rows, here)
          (reconcile_rows-Open h (finding_id h code a.id) cfg now ids rest
            (reconcile_row h cfg now ids j a st) (reconcile_row-raises j a code st c alarm))
    | inr q ↦ elim (Option-cases (lookup j st.allocations)) [
      | inl n ↦ rw (reconcile_rows, n) (rows-raise id a code rest st row (rw q at listed) e c alarm)
      | inr (b, f) ↦
          rw (reconcile_rows, f)
            (rows-raise id a code rest (reconcile_row h cfg now ids j b st) row (rw q at listed)
              (reconcile_row-other j id b st q ∙ e) c
              (Alarm-seen a code st (reconcile_row h cfg now ids j b st)
                (reconcile_row-observations j b st) alarm))
    ]
  ]

  -- After a pass of `reconcileAllocations`, a committed row that is not released has an open
  -- finding when its domain has no trusted observation, when more than one resource claims it,
  -- and when it is an active VPC that no resource claims and whose binding the observation does
  -- not show.
  pub reconcile_allocations-Open :
      (id : String) (a : Allocation) (code : String) (st : State)
      → lookup id st.allocations ≡ some a
      → is_reconciled a ≡ true
      → Alarm cfg now a st code
      → Open (finding_id h code a.id) (reconcile_allocations h cfg now ids st).findings
  unfolding reconcile_allocations
  reconcile_allocations-Open id a code st e c alarm =
      let st' : State = record st { findings = resolve_codes st.findings } in
      report_unmanaged-Open h (finding_id h code a.id) cfg now cfg.domains
        (reconcile_rows h cfg now ids st.allocations st')
        (rows-raise id a code st.allocations st' a e e c (Alarm-seen a code st st' refl alarm))
