-- ===== src/Service/Worker/Held.antt =====
-- The row that a recovery of internal/service/worker.go commits, and what it leaves alone.
use platform_ipam.Prelude.{
  ℕ, ◌≡◌, refl, sym, ap, String, true, false, inl, inr, none, some, lookup, insert, lookup-insert,
  Option-cases, Bool-cases, ◌==◌, string_eq, text_eq_iff, arith, some_eq,
}
use platform_ipam.Domain.Rows.{Allocation, Operation}
use platform_ipam.Domain.State.{State}
use platform_ipam.Service.Digests.{Digests}
use platform_ipam.Service.Raise.{worker_finding, resolve_finding}
use platform_ipam.Service.Reserve.Commit.{cannot_recover, commit_recovered, committed_allocation}
use platform_ipam.Service.Worker.{flag_stuck_hold}

-- No row under the id is committed.
abbrev pub Uncommitted : String → State → Type 0
Uncommitted k st = (a : Allocation) → lookup k st.allocations ≡ some a → a.committed ≡ false

-- The row that a recovery has committed, as it was.
pub record Held (id k : String) (job : Operation) (inventory_id : String) (b : Allocation)
    (st : State) : Type 0 where
  pub row : Allocation
  pub found : lookup id st.allocations ≡ some row
  pub recoverable : cannot_recover row job st ≡ false
  pub under : row.id ≡ k
  pub named : b.inventory_id ≡ inventory_id

pub not_both : (a : Allocation) → a.committed ≡ true → a.committed ≡ false → ⊥
not_both a h k = ground (arith, h, k)

module _ (id : String) (job : Operation) (inventory_id : String) (clock : ℕ)
    (event : Allocation → State → State) (st : State) where
  pub recovered_rows :
      (a : Allocation)
      → ((b : Allocation) (s : State) → (event b s).allocations ≡ s.allocations)
      → lookup id st.allocations ≡ some a
      → cannot_recover a job st ≡ false
      → (commit_recovered id job inventory_id clock event st).allocations
        ≡ insert a.id (committed_allocation a inventory_id clock) st.allocations
  unfolding commit_recovered
  recovered_rows a quiet e t = rw (commit_recovered, e, t) (quiet _ _)

  pub recovered-missing :
      lookup id st.allocations ≡ none → commit_recovered id job inventory_id clock event st ≡ st
  unfolding commit_recovered
  recovered-missing e = rw (commit_recovered, e) refl

  pub recovered-stays :
      (a : Allocation)
      → lookup id st.allocations ≡ some a
      → cannot_recover a job st ≡ true
      → commit_recovered id job inventory_id clock event st ≡ st
  unfolding commit_recovered
  recovered-stays a e t = rw (commit_recovered, e, t) refl

  pub commit_recovered-Held :
      ((b : Allocation) (s : State) → (event b s).allocations ≡ s.allocations)
      → (k : String) (b : Allocation)
      → lookup k (commit_recovered id job inventory_id clock event st).allocations ≡ some b
      → b.committed ≡ true
      → Uncommitted k st
      → Held id k job inventory_id b st
  commit_recovered-Held quiet k b e owned free = elim (Option-cases (lookup id st.allocations)) [
    | inl m ↦ absurd (not_both b owned (free b (rw (recovered-missing m) at e)))
    | inr (a, m) ↦ elim (Bool-cases (cannot_recover a job st)) [
      | inl t ↦ absurd (not_both b owned (free b (rw (recovered-stays a m t) at e)))
      | inr t ↦
          let put = rw (recovered_rows a quiet m t, lookup-insert a.id k _ st.allocations) at e in
          elim (Bool-cases (a.id == k)) [
            | inl q ↦
                let is : committed_allocation a inventory_id clock ≡ b = some_eq (rw (q) at put) in
                record {
                  row = a;
                  found = m;
                  recoverable = t;
                  under = (text_eq_iff a.id k).0 q;
                  named = ap (λ (x : Allocation). x.inventory_id) (sym is);
                }
            | inr q ↦ absurd (not_both b owned (free b (rw (q) at put)))
          ]
    ]
  ]

pub flag_stuck_hold-rows :
    (h : Digests) (a : Allocation) (code : String) (at : ℕ) (st : State)
    → (flag_stuck_hold h a code at st).allocations ≡ st.allocations
unfolding flag_stuck_hold worker_finding
flag_stuck_hold-rows h a code at st = elim (Option-cases (lookup a.id st.allocations)) [
  | inl m ↦ rw (flag_stuck_hold, m) refl
  | inr (held, m) ↦ elim (Bool-cases held.committed) [
    | inl t ↦ rw (flag_stuck_hold, m, t) refl
    | inr t ↦ rw (flag_stuck_hold, m, t) refl
  ]
]

pub resolve_finding-rows :
    (h : Digests) (a : Allocation) (code : String) (st : State)
    → (resolve_finding h a code st).allocations ≡ st.allocations
unfolding resolve_finding
resolve_finding-rows h a code st = ground arith
