-- ===== src/Service/Abandon/Fenced.antt =====
-- What the fence of an abandon does to a commit of the same hold: `reserve`'s and the worker's.
use platform_ipam.Prelude.{ℕ, ◌≡◌, String, false, some, values, lookup, Memᴰ}
use platform_ipam.Domain.Errors.{ok}
use platform_ipam.Domain.Rows.{Allocation, Operation, is_pending}
use platform_ipam.Domain.State.{State, operation_at}
use platform_ipam.Service.Cancel.Fenced.{Fenced, commit_tx-settled, commit_recovered-settled}
use platform_ipam.Service.Abandon.{AbandonTarget, abandon_fence}
use platform_ipam.Service.Abandon.Target.{Aimed, abandon_fence-Aimed}

-- An abandon of an allocation has passed its fence, whether it wrote the fence or found it, and the
-- row under the allocation's id and every operation stand under their own ids. Its target is then
-- that allocation's row, which is not committed, and an adoption that names the allocation and has
-- the operation id where one was given. No other operation names the allocation, or with a given
-- operation id none that has it. The operation is no longer pending and no commit of it changes the
-- ledger: neither the second transaction of an adoption nor the worker's recovery. Every row and
-- every other operation is as it was.
pub abandon_fence-Fenced :
    (allocation_id operation_id operator : String) (now : ℕ) (event_id : String) (st : State)
    (t : AbandonTarget) (st' : State)
    → ((a : Allocation) → lookup allocation_id st.allocations ≡ some a → a.id ≡ allocation_id)
    → ((o : Operation) → Memᴰ o (values st.operations) → lookup o.id st.operations ≡ some o)
    → abandon_fence allocation_id operation_id operator now event_id st ≡ ok (t, st')
    → Aimed allocation_id operation_id st t st' × Fenced t.operation.id st'
abandon_fence-Fenced allocation_id operation_id operator now event_id st t st' keyed named e =
    let aimed =
      abandon_fence-Aimed allocation_id operation_id operator now event_id st t st' keyed named e in
    let settled : is_pending (operation_at st' t.operation.id).status ≡ false =
      rw (aimed.same_operation, aimed.ended) aimed.quiet in
    (
      aimed,
      record {
        reserve = λ g c held op k. commit_tx-settled g c held op st' (rw k settled);
        recovery = λ a job i clock event k.
            commit_recovered-settled a job i clock event st' (rw k settled);
      },
    )
