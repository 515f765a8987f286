-- ===== src/Service/Bind/Activated.antt =====
-- The row that `finishBinding` leaves, and what it has checked of the row and the operation.
use platform_ipam.Prelude.{
  ℕ, ◌≡◌, refl, ◌∙◌, ap, String, List, true, false, inl, inr, Option, none, some, lookup, insert,
  lookup-insert, Option-cases, text_eq_iff, string_eq, arith,
}
use platform_ipam.Domain.Errors.{ok}
use platform_ipam.Domain.Rows.{Allocation, Operation, Binding, is_active, is_reserved, is_pending}
use platform_ipam.Domain.State.{State, operation_at}
use platform_ipam.Service.Eligible.{same_binding}
use platform_ipam.Service.Lifecycle.{Stamp, bound, is_bound, finish_binding}
use platform_ipam.Service.Bind.{is_candidate}

-- The verification was pending for this binding, and the row reserved without one, when it became
-- active.
pub record FinishedRow (id : String) (op : Operation) (b : Binding) (stamp : Stamp) (st : State)
    (row : Allocation) : Type 0 where
  pub before : Allocation
  pub there : lookup id st.allocations ≡ some before
  pub reserved : is_reserved before.state ≡ true
  pub unbound : before.binding ≡ none
  pub awaits : is_pending (operation_at st op.id).status ≡ true
  pub candidate : is_candidate (operation_at st op.id).candidate b ≡ true
  pub change : bound before b stamp.now ≡ row
  pub active : is_active row.state ≡ true

found-insert :
    (id : String) (a : Allocation) (m : List (String × Allocation))
    → lookup id (insert id a m) ≡ some a
found-insert id a m = ground (arith, lookup-insert id id a m, text_eq_iff id id)

same_binding_refl : (b : Binding) → same_binding b b ≡ true
unfolding same_binding
same_binding_refl b = ground (
  arith,
  text_eq_iff b.provider b.provider,
  text_eq_iff b.resource_type b.resource_type,
  text_eq_iff b.resource_id b.resource_id,
  text_eq_iff b.account_id b.account_id,
  text_eq_iff b.region b.region,
)

bound-candidate :
    (x : Allocation) (b : Binding) (now : ℕ) → is_candidate (bound x b now).binding b ≡ true
unfolding bound same_binding
bound-candidate x b now = unfold same_binding in same_binding_refl b

bound-active : (x : Allocation) (b : Binding) (now : ℕ) → is_active (bound x b now).state ≡ true
unfolding bound
bound-active x b now = refl

no_binding : (c : Option Binding) → is_bound c ≡ false → c ≡ none
no_binding none e = refl
no_binding (some b) e = absurd cc

pub finish_binding-FinishedRow :
    (id : String) (op : Operation) (b : Binding) (stamp : Stamp) (st : State) (x : Allocation)
    (o : Operation) (st' : State)
    → finish_binding id op b stamp st ≡ ok ((x, o), st')
    → (lookup id st'.allocations ≡ some x)
      × (is_candidate x.binding b ≡ true)
      × FinishedRow id op b stamp st x
unfolding finish_binding
finish_binding-FinishedRow id op b stamp st x o st' e =
    elim (Option-cases (lookup id st.allocations)) [
      | inl m ↦ absurd (ground (arith, e, m))
      | inr (a, m) ↦
          let rows : st'.allocations ≡ insert id (bound a b stamp.now) st.allocations =
            ground (arith, e, m) in
          let is : bound a b stamp.now ≡ x = ground (arith, e, m) in
          (
            rw rows (found-insert id (bound a b stamp.now) st.allocations ∙ ap some is),
            rw (← is) (bound-candidate a b stamp.now),
            record {
              before = a;
              there = m;
              reserved = ground (arith, e, m);
              unbound = no_binding a.binding (ground (arith, e, m));
              awaits = ground (arith, e, m);
              candidate = ground (arith, e, m);
              change = is;
              active = rw (← is) (bound-active a b stamp.now);
            },
          )
    ]
