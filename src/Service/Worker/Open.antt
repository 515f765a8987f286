-- ===== src/Service/Worker/Open.antt =====
-- `reconcileAllocations` of internal/service/worker.go closes no finding after its first loop.
use platform_ipam.Prelude.{
  ◌==◌, string_eq, ℕ, ◌≡◌, refl, ap, ◌∙◌, String, List, [], ◌∷◌, inl, inr, Option, none, some,
  lookup, insert, lookup-insert, lookup-insert_self, Option-cases, Bool-cases, arith, if◌then◌else◌,
  subst,
}
use platform_ipam.Domain.Policy.{Config, Domain, Pool}
use platform_ipam.Domain.Rows.{Allocation, Resource, Observation, Finding}
use platform_ipam.Domain.State.{State}
use platform_ipam.Service.Digests.{Digests, finding_id}
use platform_ipam.Service.Eligible.{domain_for}
use platform_ipam.Service.Raise.{worker_finding, worker_event, reopened, new_finding}
use platform_ipam.Service.Worker.Reconcile.{
  Decision, agrees, raises, takes, NewIds, is_reconciled, seen_at, latest_trusted, carry_out,
  sight_row, reconcile_row, reconcile_rows,
}
use platform_ipam.Service.Worker.Unmanaged.{
  ResourceIdentity, is_explained, adopted_resources, raise_occupancy, raise_for_tenants,
  raise_for_pools, raise_unmanaged, report_unmanaged,
}

-- An open finding under the key.
abbrev pub Open : String → List (String × Finding) → Type 0
Open key m = (f : Finding) × (lookup key m ≡ some f) × (f.status ≡ "OPEN")

-- A finding that is written open leaves no open one closed.
pub insert-Open :
    (key other : String) (f : Finding) (m : List (String × Finding))
    → f.status ≡ "OPEN"
    → Open key m
    → Open key (insert other f m)
insert-Open key other f m o (g, e, t) = elim (Bool-cases (other == key)) [
  | inl q ↦ (f, lookup-insert other key f m ∙ ap (λ b. if b then some f else lookup key m) q, o)
  | inr q ↦ (g, lookup-insert other key f m ∙ ap (λ b. if b then some f else lookup key m) q ∙ e, t)
]

reopened-open :
    (old : Option Finding) (key : String) (a : Allocation) (code severity : String) (at : ℕ)
    → (reopened old (new_finding key a code severity at) at).status ≡ "OPEN"
reopened-open none key a code severity at = refl
reopened-open (some f) key a code severity at = ground arith

module _ (h : Digests) (key : String) where
  worker_finding-Open :
      (a : Allocation) (code severity : String) (at : ℕ) (st : State)
      → Open key st.findings
      → Open key (worker_finding h a code severity at st).findings
  unfolding worker_finding
  worker_finding-Open a code severity at st o =
      insert-Open key (finding_id h code a.id) _ st.findings
        (reopened-open (lookup (finding_id h code a.id) st.findings) _ a code severity at) o

  pub worker_finding-opens :
      (a : Allocation) (code severity : String) (at : ℕ) (st : State)
      → finding_id h code a.id ≡ key
      → Open key (worker_finding h a code severity at st).findings
  unfolding worker_finding
  worker_finding-opens a code severity at st q =
      subst (λ k. Open k (worker_finding h a code severity at st).findings) q
        (
          _,
          lookup-insert_self (finding_id h code a.id) _ st.findings,
          reopened-open (lookup (finding_id h code a.id) st.findings) _ a code severity at,
        )

  carry_out-Open :
      (now : ℕ) (ids : NewIds) (id : String) (a : Allocation) (o : Observation) (d : Decision)
      (st : State)
      → Open key st.findings
      → Open key (carry_out h now ids id a o d st).findings
  unfolding carry_out worker_event
  carry_out-Open now ids id a o agrees st k = k
  carry_out-Open now ids id a o (raises code severity) st k =
      worker_finding-Open a code severity o.finished_at st k
  carry_out-Open now ids id a o (takes b) st k = k

  module _ (cfg : Config) (now : ℕ) where
    reconcile_row-Open :
        (ids : NewIds) (id : String) (a : Allocation) (st : State)
        → Open key st.findings
        → Open key (reconcile_row h cfg now ids id a st).findings
    unfolding reconcile_row sight_row
    reconcile_row-Open ids id a st k = elim (Bool-cases (is_reconciled a)) [
      | inr c ↦ rw (reconcile_row, c) k
      | inl c ↦
          elim (Option-cases (latest_trusted cfg (domain_for cfg a.domain_id) a.domain_id now st)) [
            | inl n ↦
                rw (reconcile_row, c, n)
                  (worker_finding-Open a "coverage_incomplete" "WARNING" now st k)
            | inr (o, t) ↦
                rw (reconcile_row, c, t)
                  (carry_out-Open now ids id (seen_at a o.finished_at) o _ _ k)
          ]
    ]

    pub reconcile_rows-Open :
        (ids : NewIds) (rows : List (String × Allocation)) (st : State)
        → Open key st.findings
        → Open key (reconcile_rows h cfg now ids rows st).findings
    unfolding reconcile_rows
    reconcile_rows-Open ids [] st k = k
    reconcile_rows-Open ids ((id, row) ∷ rest) st k =
        elim (Option-cases (lookup id st.allocations)) [
          | inl e ↦ rw (reconcile_rows, e) (reconcile_rows-Open ids rest st k)
          | inr (a, e) ↦
              rw (reconcile_rows, e)
                (reconcile_rows-Open ids rest (reconcile_row h cfg now ids id a st)
                  (reconcile_row-Open ids id a st k))
        ]

    raise_for_tenants-Open :
        (d : String) (x : Resource) (at : ℕ) (ts : List String) (st : State)
        → Open key st.findings
        → Open key (raise_for_tenants h d x at ts st).findings
    unfolding raise_for_tenants raise_occupancy
    raise_for_tenants-Open d x at [] st k = k
    raise_for_tenants-Open d x at (t ∷ ts) st k =
        raise_for_tenants-Open d x at ts (raise_occupancy h d x at t st)
          (insert-Open key _ _ st.findings refl k)

    raise_for_pools-Open :
        (d : String) (x : Resource) (at : ℕ) (ps : List Pool) (st : State)
        → Open key st.findings
        → Open key (raise_for_pools h d x at ps st).findings
    unfolding raise_for_pools
    raise_for_pools-Open d x at [] st k = k
    raise_for_pools-Open d x at (p ∷ ps) st k = elim (Bool-cases (p.domain_id == d)) [
      | inl t ↦
          rw (raise_for_pools, t)
            (raise_for_pools-Open d x at ps (raise_for_tenants h d x at p.eligible_tenants st)
              (raise_for_tenants-Open d x at p.eligible_tenants st k))
      | inr t ↦ rw (raise_for_pools, t) (raise_for_pools-Open d x at ps st k)
    ]

    raise_unmanaged-Open :
        (d : String) (adopted : List (String × ResourceIdentity)) (at : ℕ) (xs : List Resource)
        (st : State)
        → Open key st.findings
        → Open key (raise_unmanaged h cfg d adopted at xs st).findings
    unfolding raise_unmanaged
    raise_unmanaged-Open d adopted at [] st k = k
    raise_unmanaged-Open d adopted at (x ∷ xs) st k =
        elim (Bool-cases (is_explained st d adopted x)) [
          | inl t ↦ rw (raise_unmanaged, t) (raise_unmanaged-Open d adopted at xs st k)
          | inr t ↦
              rw (raise_unmanaged, t)
                (raise_unmanaged-Open d adopted at xs (raise_for_pools h d x at cfg.pools st)
                  (raise_for_pools-Open d x at cfg.pools st k))
        ]

    pub report_unmanaged-Open :
        (ds : List Domain) (st : State)
        → Open key st.findings
        → Open key (report_unmanaged h cfg now ds st).findings
    unfolding report_unmanaged
    report_unmanaged-Open [] st k = k
    report_unmanaged-Open (d ∷ ds) st k = elim (Option-cases (latest_trusted cfg d d.id now st)) [
      | inl e ↦ rw (report_unmanaged, e) (report_unmanaged-Open ds st k)
      | inr (o, e) ↦
          rw (report_unmanaged, e)
            (report_unmanaged-Open ds _ (
              raise_unmanaged-Open d.id (adopted_resources st d.id) o.finished_at o.resources st k))
    ]
