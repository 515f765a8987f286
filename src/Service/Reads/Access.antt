-- ===== src/Service/Reads/Access.antt =====
-- Who sees what: when `Get` answers a principal.
use platform_ipam.Prelude.{
  ◌≡◌, String, true, ◌↔◌, inl, inr, some, lookup, Option-cases, string_eq, arith,
}
use platform_ipam.Domain.Policy.{Principal}
use platform_ipam.Domain.Errors.{ok}
use platform_ipam.Domain.Rows.{Allocation}
use platform_ipam.Domain.State.{State}
use platform_ipam.Service.Eligible.{pending_for_allocation}
use platform_ipam.Service.Reads.{visible_to, get}

get-forth :
    (p : Principal) (id : String) (st : State) (a : Allocation)
    → get p id st ≡ ok a
    → (lookup id st.allocations ≡ some a) × (a.committed ≡ true) × (visible_to p a.tenant_id ≡ true)
unfolding get
get-forth p id st a h = elim (Option-cases (lookup id st.allocations)) [
  | inl e ↦ absurd (ground (arith, h, e))
  | inr (b, e) ↦ elim (Option-cases (pending_for_allocation st id)) [
    | inl n ↦ (ground (arith, h, e, n), ground (arith, h, e, n), ground (arith, h, e, n))
    | inr (o, n) ↦ (ground (arith, h, e, n), ground (arith, h, e, n), ground (arith, h, e, n))
  ]
]

-- `Get` answers with an allocation exactly when it is the row under the id, is committed, and is
-- the principal's tenant's, or the principal is an operator.
pub get_iff :
    (p : Principal) (id : String) (st : State) (a : Allocation)
    → (get p id st ≡ ok a) ↔ (
        (lookup id st.allocations ≡ some a)
        × (a.committed ≡ true)
        × (visible_to p a.tenant_id ≡ true))
unfolding get
get_iff p id st a = (
  get-forth p id st a,
  λ (h : (lookup id st.allocations ≡ some a)
        × (a.committed ≡ true)
        × (visible_to p a.tenant_id ≡ true)).
      ground (arith, h.0, h.1, h.2),
)
