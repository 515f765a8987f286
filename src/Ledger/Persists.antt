-- ===== src/Ledger/Persists.antt =====
-- What the steps of the ledger never take away from a committed row.
use platform_ipam.Prelude.{true, ℕ, ◌≡◌, refl, ◌∙◌, String, List, some, lookup, ◌≤◌, arith}
use platform_ipam.Domain.Rows.{
  Allocation, AllocationState, unset, reserved, active, quarantined, released,
}
use platform_ipam.Domain.State.{State}
use platform_ipam.Ledger.{
  Moves, stays, binds, gives_up, retires, ends, IsSound, Change, Course, unmoved, onward,
}
use platform_ipam.Ledger.Changes.{Change-Kept}
use platform_ipam.Ledger.Steps.{Steps, done, then, Step-Course, Steps-IsSound}

-- How far an allocation is in its life.
abbrev pub stage : AllocationState → ℕ
stage unset = 0
stage reserved = 1
stage active = 2
stage quarantined = 3
stage released = 4

Moves-stage : (s t : AllocationState) → Moves s t → stage s ≤ stage t
Moves-stage s t stays = omega arith
Moves-stage s t binds = omega arith
Moves-stage s t gives_up = omega arith
Moves-stage s t retires = omega arith
Moves-stage s t ends = omega arith

-- What is left of a row after any number of steps.
pub record Persists (k : String) (a : Allocation) (m : List (String × Allocation)) : Type 0 where
  pub row : Allocation
  pub found : lookup k m ≡ some row
  pub id : row.id ≡ a.id
  pub tenant : row.tenant_id ≡ a.tenant_id
  pub key : row.allocation_key ≡ a.allocation_key
  pub domain : row.domain_id ≡ a.domain_id
  pub space : row.cidr ≡ a.cidr
  pub stage : stage a.state ≤ stage row.state
  pub revision : a.revision ≤ row.revision
  pub owned : row.committed ≡ true

Persists-step :
    (k : String) (a : Allocation) (m n : List (String × Allocation))
    → Persists k a m
    → Change m n
    → Persists k a n
Persists-step k a m n p c =
    let q = Change-Kept m n c k p.row p.found p.owned in
    record {
      row = q.row;
      found = q.found;
      id = q.continues.id ∙ p.id;
      tenant = q.continues.tenant ∙ p.tenant;
      key = q.continues.key ∙ p.key;
      domain = q.continues.domain ∙ p.domain;
      space = q.continues.space ∙ p.space;
      stage = omega (arith, p.stage, Moves-stage _ _ q.continues.moves);
      revision = omega (arith, p.revision, q.continues.revision);
      owned = q.continues.owned p.owned;
    }

Persists-Course :
    (k : String) (a : Allocation) (m n : List (String × Allocation))
    → Persists k a m
    → Course m n
    → Persists k a n
Persists-Course k a m n p unmoved = p
Persists-Course k a m n p (onward {n = n'} c rest) =
    Persists-Course k a n' n (Persists-step k a m n' p c) rest

-- From a sound ledger, plans, commits, patches, bindings, releases, reclaims, withdrawals,
-- projections, reconciliations and observations keep every committed row under its id, committed
-- and with its id, tenant, key, domain and CIDR; its state goes forward only, and its revision
-- does not fall.
pub Steps-Persists :
    (st st' : State)
    → Steps st st'
    → IsSound st.allocations
    → (k : String) (a : Allocation) → lookup k st.allocations ≡ some a
    → a.committed ≡ true
    → Persists k a st'.allocations
Steps-Persists st st' done s k a e owned = record {
  row = a;
  found = e;
  id = refl;
  tenant = refl;
  key = refl;
  domain = refl;
  space = refl;
  stage = omega arith;
  revision = omega arith;
  owned = owned;
}
Steps-Persists st st'' (then {st' = st'} run step) s k a e owned =
    Persists-Course k a st'.allocations st''.allocations (Steps-Persists st st' run s k a e owned)
      (Step-Course st' st'' step (Steps-IsSound st st' run s))
