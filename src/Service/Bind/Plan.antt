-- ===== src/Service/Bind/Plan.antt =====
-- The transaction of `Bind` that plans a verification, on the rows of the ledger.
use platform_ipam.Prelude.{
  ◌≡◌, refl, String, inl, inr, Option, none, some, lookup, Option-cases, arith,
}
use platform_ipam.Domain.Policy.{Principal}
use platform_ipam.Domain.Errors.{ok}
use platform_ipam.Domain.Rows.{Allocation, Operation, Binding}
use platform_ipam.Domain.State.{State}
use platform_ipam.Service.Digests.{Digests}
use platform_ipam.Service.Eligible.{pending_for_allocation}
use platform_ipam.Service.Lifecycle.{Stamp, owned}
use platform_ipam.Service.Bind.{bind_request_id, fresh_plan, bind_tx}

fresh-rows :
    (h : Digests) (p : Principal) (id key : String) (b : Binding) (stamp : Stamp) (a : Allocation)
    (o : Option Operation) (st : State)
    → (fresh_plan h p id key b stamp a o st).1.allocations ≡ st.allocations
unfolding fresh_plan
fresh-rows h p id key b stamp a none st = refl
fresh-rows h p id key b stamp a (some d) st = refl

-- The plan of a verification leaves the allocations.
pub bind_tx-rows :
    (h : Digests) (p : Principal) (id key : String) (b : Binding) (stamp : Stamp)
    (before : Option Operation) (st st' : State) (o : Option Operation)
    → bind_tx h p id key b stamp before st ≡ ok (o, st')
    → st'.allocations ≡ st.allocations
unfolding bind_tx owned
bind_tx-rows h p id key b stamp before st st' o e = elim (Option-cases (lookup id st.allocations)) [
  | inl m ↦ absurd (ground (arith, e, m))
  | inr (a, m) ↦ elim (Option-cases (lookup (bind_request_id h p id key) st.requests)) [
    | inr (old, r) ↦ elim (Option-cases (pending_for_allocation st id)) [
      | inl n ↦ ground (arith, e, m, r, n)
      | inr (d, n) ↦ ground (arith, e, m, r, n)
    ]
    | inl r ↦ elim (Option-cases (pending_for_allocation st id)) [
      | inl n ↦
          let after : (fresh_plan h p id key b stamp a none st).1 ≡ st' =
            ground (arith, e, m, r, n) in
          rw (← after) (fresh-rows h p id key b stamp a none st)
      | inr (d, n) ↦
          let after : (fresh_plan h p id key b stamp a (some d) st).1 ≡ st' =
            ground (arith, e, m, r, n) in
          rw (← after) (fresh-rows h p id key b stamp a (some d) st)
    ]
  ]
]
