-- ===== src/Ledger/Recovery.antt =====
-- What the recovery of a lost commit does to the rows of the ledger: `commitRecovered` in
-- internal/service/worker.go.
use platform_ipam.Prelude.{ℕ, ◌≡◌, String, inl, inr, lookup, Option-cases, Bool-cases, string_eq}
use platform_ipam.Domain.Rows.{Allocation, Operation}
use platform_ipam.Domain.State.{State}
use platform_ipam.Service.Reserve.Commit.{cannot_recover, commit_recovered}
use platform_ipam.Service.Worker.Held.{recovered_rows, recovered-missing, recovered-stays}
use platform_ipam.Ledger.{Keyed, Change, same, replace}
use platform_ipam.Ledger.Upkeep.{row_at, committed-Continues}

-- A recovery commits a reserved row that is not committed; its event leaves the rows.
pub commit_recovered-Change :
    (id : String) (job : Operation) (inventory_id : String) (clock : ℕ)
    (event : Allocation → State → State) (st : State)
    → ((b : Allocation) (s : State) → (event b s).allocations ≡ s.allocations)
    → Keyed st.allocations
    → Change st.allocations (commit_recovered id job inventory_id clock event st).allocations
commit_recovered-Change id job inventory_id clock event st quiet keyed =
    elim (Option-cases (lookup id st.allocations)) [
      | inl e ↦ rw (recovered-missing id job inventory_id clock event st e) same
      | inr (a, e) ↦ elim (Bool-cases (cannot_recover a job st)) [
        | inl t ↦ rw (recovered-stays id job inventory_id clock event st a e t) same
        | inr t ↦ rw (recovered_rows id job inventory_id clock event st a quiet e t) (
            replace a.id a _ (row_at id a st.allocations keyed e)
              (committed-Continues a inventory_id clock))
      ]
    ]
