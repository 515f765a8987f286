-- ===== src/Ledger/Passes.antt =====
-- `reconcileAllocations` of internal/service/worker.go as a whole, on the rows of the ledger.
use platform_ipam.Prelude.{
  ◌==◌, string_eq, ℕ, ◌≡◌, refl, ◌∙◌, String, List, [], ◌∷◌, inl, inr, Option-cases, Bool-cases,
}
use platform_ipam.Domain.Policy.{Config, Domain, Pool}
use platform_ipam.Domain.Rows.{Resource}
use platform_ipam.Domain.State.{State}
use platform_ipam.Service.Digests.{Digests}
use platform_ipam.Service.Worker.Reconcile.{NewIds, latest_trusted, resolve_codes, reconcile_rows}
use platform_ipam.Service.Worker.Unmanaged.{
  ResourceIdentity, is_explained, adopted_resources, raise_occupancy, raise_for_tenants,
  raise_for_pools, raise_unmanaged, report_unmanaged, reconcile_allocations,
}
use platform_ipam.Ledger.{IsSound, Course}
use platform_ipam.Ledger.Rounds.{reconcile_rows-Course}

module _ (h : Digests) (cfg : Config) (now : ℕ) (ids : NewIds) where
  raise_for_tenants-rows :
      (d : String) (x : Resource) (at : ℕ) (ts : List String) (st : State)
      → (raise_for_tenants h d x at ts st).allocations ≡ st.allocations
  unfolding raise_for_tenants raise_occupancy
  raise_for_tenants-rows d x at [] st = refl
  raise_for_tenants-rows d x at (t ∷ ts) st =
      raise_for_tenants-rows d x at ts (raise_occupancy h d x at t st)

  raise_for_pools-rows :
      (d : String) (x : Resource) (at : ℕ) (ps : List Pool) (st : State)
      → (raise_for_pools h d x at ps st).allocations ≡ st.allocations
  unfolding raise_for_pools
  raise_for_pools-rows d x at [] st = refl
  raise_for_pools-rows d x at (p ∷ ps) st = elim (Bool-cases (p.domain_id == d)) [
    | inl t ↦
        rw (raise_for_pools, t)
          (raise_for_pools-rows d x at ps (raise_for_tenants h d x at p.eligible_tenants st)
            ∙ raise_for_tenants-rows d x at p.eligible_tenants st)
    | inr t ↦ rw (raise_for_pools, t) (raise_for_pools-rows d x at ps st)
  ]

  raise_unmanaged-rows :
      (d : String) (adopted : List (String × ResourceIdentity)) (at : ℕ) (xs : List Resource)
      (st : State)
      → (raise_unmanaged h cfg d adopted at xs st).allocations ≡ st.allocations
  unfolding raise_unmanaged
  raise_unmanaged-rows d adopted at [] st = refl
  raise_unmanaged-rows d adopted at (x ∷ xs) st = elim (Bool-cases (is_explained st d adopted x)) [
    | inl t ↦ rw (raise_unmanaged, t) (raise_unmanaged-rows d adopted at xs st)
    | inr t ↦
        rw (raise_unmanaged, t)
          (raise_unmanaged-rows d adopted at xs (raise_for_pools h d x at cfg.pools st)
            ∙ raise_for_pools-rows d x at cfg.pools st)
  ]

  report_unmanaged-rows :
      (ds : List Domain) (st : State)
      → (report_unmanaged h cfg now ds st).allocations ≡ st.allocations
  unfolding report_unmanaged
  report_unmanaged-rows [] st = refl
  report_unmanaged-rows (d ∷ ds) st = elim (Option-cases (latest_trusted cfg d d.id now st)) [
    | inl e ↦ rw (report_unmanaged, e) (report_unmanaged-rows ds st)
    | inr (o, e) ↦
        rw (report_unmanaged, e)
          (report_unmanaged-rows ds _
            ∙ raise_unmanaged-rows d.id (adopted_resources st d.id) o.finished_at o.resources st)
  ]

  pub reconcile_allocations-Course :
      (st : State)
      → IsSound st.allocations
      → Course st.allocations (reconcile_allocations h cfg now ids st).allocations
  unfolding reconcile_allocations
  reconcile_allocations-Course st s =
      rw
        (report_unmanaged-rows cfg.domains (
          reconcile_rows h cfg now ids st.allocations
            (record st { findings = resolve_codes st.findings })))
        (reconcile_rows-Course h cfg now ids st.allocations
          (record st { findings = resolve_codes st.findings }) s)
