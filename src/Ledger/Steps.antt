-- ===== src/Ledger/Steps.antt =====
-- The ledger as a transition system: one step for each transaction of the service, in any order.
use platform_ipam.Prelude.{Bool, ℕ, ◌≡◌, String, List, Option, none, some, values, lookup, AllPairs}
use platform_ipam.Domain.Policy.{Config, Principal, Labels}
use platform_ipam.Domain.Errors.{ok}
use platform_ipam.Domain.Rows.{Allocation, Operation, Binding, Observation, InventorySnapshot}
use platform_ipam.Domain.State.{State, new_state}
use platform_ipam.Service.Digests.{Digests}
use platform_ipam.Service.Observe.{record_observation}
use platform_ipam.Service.Reserve.Plan.{Planning, Planned, reservation_selection, plan_tx}
use platform_ipam.Service.Reserve.Commit.{Commit, commit_tx, commit_recovered}
use platform_ipam.Service.Lifecycle.{Stamp, patch, finish_binding, release_tx}
use platform_ipam.Service.Adopt.{Pin, adoption_selection}
use platform_ipam.Service.Bind.{bind_tx}
use platform_ipam.Service.Bind.Plan.{bind_tx-rows}
use platform_ipam.Service.Reclaim.{Job, Seen, plan_reclaim, settle_reclaim}
use platform_ipam.Ledger.{Apart, Distinct, IsSound, Course, unmoved}
use platform_ipam.Ledger.Changes.{Course-IsSound, one}
use platform_ipam.Ledger.Transactions.{
  record_observation-allocations, plan_tx-Change, reservation-Unblocking, adoption-Unblocking,
}
use platform_ipam.Ledger.Upkeep.{
  commit_tx-Change, patch-Change, finish_binding-Change, release_tx-Change,
}
use platform_ipam.Ledger.Recovery.{commit_recovered-Change}
use platform_ipam.Service.Cancel.{CancelTarget, cancel_fence, cancel_delete}
use platform_ipam.Service.Abandon.{AbandonTarget, abandon_fence, abandon_delete}
use platform_ipam.Ledger.Withdrawals.{
  cancel_fence-rows, abandon_fence-rows, cancel_delete-Change, abandon_delete-Change,
}
use platform_ipam.Service.Worker.Projections.{SyncResult, apply_results}
use platform_ipam.Service.Worker.Reconcile.{NewIds}
use platform_ipam.Service.Worker.Unmanaged.{reconcile_allocations}
use platform_ipam.Ledger.Rounds.{apply_results-Course}
use platform_ipam.Ledger.Passes.{reconcile_allocations-Course}
use platform_ipam.Ledger.Settling.{plan_reclaim-Change, settle_reclaim-Change}

-- A transaction of the service. A planned reservation or adoption has an id that no row has, and
-- the pool and the domain that the validation of its request found together.
pub data Step : State → State → Type 0 where
  plans :
      {st st' : State} (pl : Planning) (snap : InventorySnapshot) (planned : Planned)
      → lookup pl.allocation_id st.allocations ≡ none
      → pl.pool.domain_id ≡ pl.domain.id
      → plan_tx pl (reservation_selection pl.pool pl.wanted snap) st ≡ ok (planned, st')
      → Step st st'
  adopts :
      {st st' : State} (pl : Planning) (pin : Pin) (snap : InventorySnapshot) (planned : Planned)
      → lookup pl.allocation_id st.allocations ≡ none
      → pl.pool.domain_id ≡ pl.domain.id
      → plan_tx pl (adoption_selection pin pl.pool pl.wanted snap) st ≡ ok (planned, st')
      → Step st st'
  commits :
      {st : State} (h : Digests) (c : Commit) (held : Allocation) (o : Operation)
      → Step st (commit_tx h c held o st).1
  recovers :
      {st : State} (id : String) (job : Operation) (inventory_id : String) (clock : ℕ)
      (event : Allocation → State → State)
      → ((b : Allocation) (s : State) → (event b s).allocations ≡ s.allocations)
      → Step st (commit_recovered id job inventory_id clock event st)
  patches :
      {st st' : State} (h : Digests) (p : Principal) (id key : String) (description : Option String)
      (labels : Option Labels) (etag : ℕ) (stamp : Stamp) (b : Allocation)
      → patch h p id key description labels etag stamp st ≡ ok (b, st')
      → Step st st'
  plans_binding :
      {st st' : State} (h : Digests) (p : Principal) (id key : String) (b : Binding) (stamp : Stamp)
      (before o : Option Operation)
      → bind_tx h p id key b stamp before st ≡ ok (o, st')
      → Step st st'
  takes_binding :
      {st st' : State} (id : String) (op : Operation) (b : Binding) (stamp : Stamp) (x : Allocation)
      (o : Operation)
      → finish_binding id op b stamp st ≡ ok ((x, o), st')
      → Step st st'
  releases :
      {st st' : State} (cfg : Config) (p : Principal) (id : String) (stamp : Stamp) (b : Allocation)
      → release_tx cfg p id stamp st ≡ ok (b, st')
      → Step st st'
  plans_reclaim :
      {st : State} (a : Allocation) (operation_id event_id : String) (now : ℕ) (k : String)
      → lookup k st.allocations ≡ some a
      → Step st (plan_reclaim a operation_id event_id now st)
  reclaims :
      {st : State} (cfg : Config) (job : Job) (seen : Seen) (a : Allocation)
      → lookup job.allocation.id st.allocations ≡ some a
      → Step st (settle_reclaim cfg job seen st)
  fences_cancel :
      {st st' : State} (h : Digests) (p : Principal) (id : String) (now : ℕ) (event_id : String)
      (t : CancelTarget)
      → cancel_fence h p id now event_id st ≡ ok (t, st')
      → Step st st'
  cancels :
      {st st' : State} (h : Digests) (t : CancelTarget) (resolved : Bool)
      → cancel_delete h t st ≡ ok (resolved, st')
      → Step st st'
  fences_abandon :
      {st st' : State} (allocation_id operation_id operator : String) (now : ℕ) (event_id : String)
      (t : AbandonTarget)
      → abandon_fence allocation_id operation_id operator now event_id st ≡ ok (t, st')
      → Step st st'
  abandons :
      {st st' : State} (h : Digests) (t : AbandonTarget) (resolved : Bool)
      → abandon_delete h t st ≡ ok (resolved, st')
      → Step st st'
  projects :
      {st : State} (h : Digests) (now : ℕ) (rs : List SyncResult)
      → Step st (apply_results h now rs st)
  reconciles :
      {st : State} (h : Digests) (cfg : Config) (now : ℕ) (ids : NewIds)
      → Step st (reconcile_allocations h cfg now ids st)
  observes : {st : State} (o : Observation) → Step st (record_observation st o)

pub data Steps : State → State → Type 0 where
  done : {st : State} → Steps st st
  then : {st st' st'' : State} → Steps st st' → Step st' st'' → Steps st st''

pub Step-Course :
    (st st' : State) → Step st st' → IsSound st.allocations → Course st.allocations st'.allocations
Step-Course st st' (plans pl snap planned fresh d e) s = one (
    plan_tx-Change pl (reservation_selection pl.pool pl.wanted snap)
      (reservation-Unblocking pl snap) st planned st' fresh d e)
Step-Course st st' (adopts pl pin snap planned fresh d e) s = one (
    plan_tx-Change pl (adoption_selection pin pl.pool pl.wanted snap)
      (adoption-Unblocking pl pin snap) st planned st' fresh d e)
Step-Course st st' (commits h c held o) s = one (commit_tx-Change h c held o st s.keyed)
Step-Course st st' (recovers id job i clock event quiet) s =
    one (commit_recovered-Change id job i clock event st quiet s.keyed)
Step-Course st st' (patches h p id key d l etag stamp b e) s =
    one (patch-Change h p id key etag stamp d l st b st' e)
Step-Course st st' (plans_binding h p id key b stamp before o e) s =
    rw (bind_tx-rows h p id key b stamp before st st' o e) unmoved
Step-Course st st' (takes_binding id op b stamp x o e) s =
    one (finish_binding-Change id op b stamp st x o st' e)
Step-Course st st' (releases cfg p id stamp b e) s =
    one (release_tx-Change cfg p id stamp st b st' s e)
Step-Course st st' (plans_reclaim a o v now k e) s =
    one (plan_reclaim-Change a o v now st s.keyed k e)
Step-Course st st' (reclaims cfg job seen a e) s =
    one (settle_reclaim-Change cfg job seen st a s.keyed e)
Step-Course st st' (fences_cancel h p id now event_id t e) s =
    rw (cancel_fence-rows h p id now event_id st t st' e) unmoved
Step-Course st st' (cancels h t resolved e) s =
    one (cancel_delete-Change h st resolved st' s.keyed t e)
Step-Course st st' (fences_abandon a o op now event_id t e) s =
    rw (abandon_fence-rows a o op now event_id st t st' e) unmoved
Step-Course st st' (abandons h t resolved e) s =
    one (abandon_delete-Change h st resolved st' s.keyed t e)
Step-Course st st' (observes o) s = rw (record_observation-allocations st o) unmoved
Step-Course st st' (projects h now rs) s = apply_results-Course h now rs st s
Step-Course st st' (reconciles h cfg now ids) s = reconcile_allocations-Course h cfg now ids st s

pub Steps-IsSound :
    (st st' : State) → Steps st st' → IsSound st.allocations → IsSound st'.allocations
Steps-IsSound st st' done s = s
Steps-IsSound st st'' (then {st' = st'} run step) s =
    let s' = Steps-IsSound st st' run s in
    Course-IsSound st'.allocations st''.allocations (Step-Course st' st'' step s') s'

-- The ledger at the start has no rows.
new_state-IsSound : IsSound new_state.allocations
unfolding new_state
new_state-IsSound = record { keyed = tt; begun = tt; keys = tt; space = tt }

pub reachable-IsSound : (st : State) → Steps new_state st → IsSound st.allocations
reachable-IsSound st run = Steps-IsSound new_state st run new_state-IsSound

-- In every ledger that plans, commits, patches, bindings, releases, reclaims, withdrawals,
-- projections, reconciliations and observations reach from the empty one, in any order, two
-- allocations of a domain that are not released and whose prefixes overlap are a subnet and the
-- parent that it names, and the subnet's address is in the parent's prefix.
pub reachable-space : (st : State) → Steps new_state st → AllPairs Apart (values st.allocations)
reachable-space st run = (reachable-IsSound st run).space

-- In every ledger that plans, commits, patches, bindings, releases, reclaims, withdrawals,
-- projections, reconciliations and observations reach from the empty one, in any order, two
-- allocations of one tenant have different allocation keys.
pub reachable-keys : (st : State) → Steps new_state st → AllPairs Distinct (values st.allocations)
reachable-keys st run = (reachable-IsSound st run).keys
