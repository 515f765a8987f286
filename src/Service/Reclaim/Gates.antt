-- ===== src/Service/Reclaim/Gates.antt =====
-- What `reclaimEligible` and the fence of a deletion have established.
use platform_ipam.Prelude.{
  ℕ, ◌≤◌, ◌≡◌, List, Bool, true, false, All, All-of_mem, any-mem, values, some, inl, inr,
  Option-cases, arith, any,
}
use mathlib.Core.List.{reverse}
use platform_ipam.Domain.Policy.{Config}
use platform_ipam.Domain.Rows.{Allocation, is_quarantined}
use platform_ipam.Domain.State.{State, observations_at}
use platform_ipam.Service.Reclaim.{
  gate_of, quarantine_over, live_child, busy_in, reclaim_eligible, over,
}
use platform_ipam.Service.Reclaim.Scans.{Evidence, count_scans-Evidence}

-- The grounds on which the space of an allocation may be reclaimed.
pub record Grounds (st : State) (a : Allocation) (cfg : Config) (now : ℕ) : Type 0 where
  pub requested : ℕ
  pub was_requested : a.release_requested_at ≡ some requested
  pub quarantined : is_quarantined a.state ≡ true
  pub committed : a.committed ≡ true
  pub elapsed : over a.quarantine_until now ≡ true
  pub childless : All (λ child. live_child a.id child ≡ false) (values st.allocations)
  pub idle : All (λ o. busy_in a.domain_id o ≡ false) (values st.operations)
  pub scans :
      Evidence (gate_of st a cfg now requested) 0 0 (reverse (observations_at st a.domain_id))
  pub twice : 2 ≤ (gate_of st a cfg now requested).need

All-false {ℓ} :
    {A : Type ℓ} (f : A → Bool) (xs : List A) → any f xs ≡ false → All (λ x. f x ≡ false) xs
All-false f xs h = All-of_mem (λ x. f x ≡ false) xs (λ x m. any-mem f xs x h m)

need_twice :
    (st : State) (a : Allocation) (cfg : Config) (now requested : ℕ)
    → 2 ≤ (gate_of st a cfg now requested).need
unfolding gate_of
need_twice st a cfg now requested = ground arith

-- An eligible allocation is quarantined and committed, its quarantine is over, it has no child that
-- is not released, its domain has no pending operation, and its newest observations are trusted,
-- began after the release request and show no use of its space, with at least two of them, and
-- as many as the configuration wants, spaced apart as it says.
pub reclaim_eligible-Grounds :
    (st : State) (a : Allocation) (cfg : Config) (now : ℕ)
    → reclaim_eligible st a cfg now ≡ true
    → Grounds st a cfg now
unfolding reclaim_eligible quarantine_over
reclaim_eligible-Grounds st a cfg now h = elim (Option-cases a.release_requested_at) [
  | inl e ↦ absurd (ground (arith, h, e))
  | inr (requested, e) ↦ record {
    requested = requested;
    was_requested = e;
    quarantined = ground (arith, h, e);
    committed = ground (arith, h, e);
    elapsed = ground (arith, h, e);
    childless = All-false (live_child a.id) (values st.allocations) (ground (arith, h, e));
    idle = All-false (busy_in a.domain_id) (values st.operations) (ground (arith, h, e));
    scans =
        count_scans-Evidence (gate_of st a cfg now requested)
          (reverse (observations_at st a.domain_id)) 0 0 (ground (arith, h, e));
    twice = need_twice st a cfg now requested;
  }
]
