-- ===== src/Ledger/Upkeep.antt =====
-- What the transactions after the plan do to the rows of the ledger: the commit, a patch, a
-- binding and a release.
use platform_ipam.Prelude.{
  ℕ, ◌≡◌, refl, ◌∙◌, ap, String, List, true, false, inl, inr, ◌⊎◌, ◌≢◌, Option, some, values,
  lookup, insert, All-mem, lookup-mem, Option-cases, Bool-cases, ◌==◌, string_eq, arith, subst,
}
use platform_ipam.Domain.Policy.{Config, Principal, Labels}
use platform_ipam.Domain.Errors.{Result-cases, ok}
use platform_ipam.Domain.Rows.{
  Allocation, Operation, Binding, AllocationState, unset, reserved, active, quarantined, released,
  is_reserved,
}
use platform_ipam.Domain.State.{State, operation_at}
use platform_ipam.Service.Digests.{Digests}
use platform_ipam.Service.Raise.{resolve_finding}
use platform_ipam.Service.Reserve.Replay.{is_retired}
use platform_ipam.Service.Reserve.Commit.{
  settled_already, committed_allocation, Commit, commit_hold, commit_tx,
}
use platform_ipam.Service.Lifecycle.{
  patch_request_id, Stamp, owned, patched, new_patch, patch_tx, patch, bound, finish_binding,
  new_release, release_tx, released_by,
}
use platform_ipam.Service.Lifecycle.Changes.{relabelled, patched-Relabelled}
use platform_ipam.Ledger.{
  stays, binds, gives_up, retires, Continues, Keyed, IsSound, Change, same, replace,
}
use platform_ipam.Ledger.Changes.{lookup-Keyed}

commit_hold-allocations :
    (h : Digests) (c : Commit) (a : Allocation) (o : Operation) (st : State)
    → (commit_hold h c a o st).allocations
      ≡ insert a.id (committed_allocation a c.inventory_id c.clock) st.allocations
unfolding commit_hold resolve_finding
commit_hold-allocations h c a o st = ground arith

pub committed-Continues :
    (a : Allocation) (inventory_id : String) (at : ℕ)
    → Continues a (committed_allocation a inventory_id at)
committed-Continues a inventory_id at = record {
  id = refl;
  tenant = refl;
  key = refl;
  domain = refl;
  scope = refl;
  parent = refl;
  space = refl;
  moves = stays;
  revision = omega arith;
  owned = λ h. refl;
}

-- A row stands under its own id.
pub row_at :
    (k : String) (a : Allocation) (m : List (String × Allocation))
    → Keyed m
    → lookup k m ≡ some a
    → lookup a.id m ≡ some a
row_at k a m keyed e = ap (λ i. lookup i m) (lookup-Keyed k a m keyed e) ∙ e

pub commit_tx-Change :
    (h : Digests) (c : Commit) (held : Allocation) (operation : Operation) (st : State)
    → Keyed st.allocations
    → Change st.allocations (commit_tx h c held operation st).1.allocations
unfolding commit_tx
commit_tx-Change h c held operation st keyed = elim (Option-cases (lookup held.id st.allocations)) [
  | inl e ↦ rw e same
  | inr (a, e) ↦ elim (Bool-cases (a.id == "")) [
    | inl z ↦ rw (e, z) same
    | inr z ↦ elim (Bool-cases (settled_already a (operation_at st operation.id))) [
      | inl s ↦ rw (e, z, s) same
      | inr s ↦
          rw (e, z, s, commit_hold-allocations h c a (operation_at st operation.id) st)
            (replace a.id a _ (row_at held.id a st.allocations keyed e)
              (committed-Continues a c.inventory_id c.clock))
    ]
  ]
]

-- The row that the tenant owns is the one that the id names.
pub owned-row :
    (st : State) (p : Principal) (id : String) (a : Allocation)
    → owned st p id ≡ ok a
    → (lookup id st.allocations ≡ some a)
      × ((a.tenant_id == p.tenant_id) ≡ true)
      × (a.committed ≡ true)
unfolding owned
owned-row st p id a h = elim (Option-cases (lookup id st.allocations)) [
  | inl e ↦ absurd (ground (arith, e, h))
  | inr (b, e) ↦
      let b_is : b ≡ a = ground (arith, e, h) in
      ((ground (arith, e, b_is)), (ground (arith, e, h)), (ground (arith, e, h)))
]

relabelled-Continues :
    (a : Allocation) (d : String) (l : Labels) (now : ℕ) → Continues a (relabelled a d l now)
relabelled-Continues a d l now = record {
  id = refl;
  tenant = refl;
  key = refl;
  domain = refl;
  scope = refl;
  parent = refl;
  space = refl;
  moves = stays;
  revision = omega arith;
  owned = λ h. h;
}

module _ (h : Digests) (p : Principal) (id key : String) (etag : ℕ) (stamp : Stamp) where
  pub patched-Continues :
      (description : Option String) (labels : Option Labels) (a b : Allocation)
      → patched h p id key description labels etag stamp a ≡ ok b
      → Continues a b
  patched-Continues description labels a b e =
      let r = patched-Relabelled h p id key etag stamp description labels a b e in
      subst (Continues a) r.same (relabelled-Continues a r.description r.labels stamp.now)

  pub patch-Change :
      (description : Option String) (labels : Option Labels) (st : State) (b : Allocation)
      (st' : State)
      → patch h p id key description labels etag stamp st ≡ ok (b, st')
      → Change st.allocations st'.allocations
  unfolding patch patch_tx new_patch owned
  patch-Change description labels st b st' e =
      elim (Option-cases
        (lookup (patch_request_id h p id key description labels etag stamp) st.requests)) [
          | inr (old, r) ↦ let unchanged : st ≡ st' = ground (arith, e, r) in rw (← unchanged) same
          | inl r ↦ elim (Option-cases (lookup id st.allocations)) [
            | inl m ↦ absurd (ground (arith, e, r, m, owned))
            | inr (a, m) ↦
                elim (Result-cases (patched h p id key description labels etag stamp a)) [
                  | inr (f, w) ↦ absurd (ground (arith, e, r, m, w, owned))
                  | inl (c, w) ↦
                      let rows : st'.allocations ≡ insert id c st.allocations =
                        ground (arith, e, r, m, w, owned) in
                      rw rows (replace id a c m (patched-Continues description labels a c w))
                ]
          ]
        ]

pub bound-Continues :
    (x : Allocation) (b : Binding) (now : ℕ) → x.state ≡ reserved → Continues x (bound x b now)
unfolding bound
bound-Continues x b now e = record {
  id = refl;
  tenant = refl;
  key = refl;
  domain = refl;
  scope = refl;
  parent = refl;
  space = refl;
  moves = rw e binds;
  revision = omega arith;
  owned = λ h. h;
}

reserved_only : (s : AllocationState) → is_reserved s ≡ true → s ≡ reserved
reserved_only s e = ground (arith, e)

pub finish_binding-Change :
    (id : String) (op : Operation) (b : Binding) (stamp : Stamp) (st : State) (x : Allocation)
    (o : Operation) (st' : State)
    → finish_binding id op b stamp st ≡ ok ((x, o), st')
    → Change st.allocations st'.allocations
unfolding finish_binding
finish_binding-Change id op b stamp st x o st' e = elim (Option-cases (lookup id st.allocations)) [
  | inl m ↦ absurd (ground (arith, e, m))
  | inr (a, m) ↦
      let rows : st'.allocations ≡ insert id (bound a b stamp.now) st.allocations =
        ground (arith, e, m) in
      rw rows (
        replace id a _ m
          (bound-Continues a b stamp.now (reserved_only a.state (ground (arith, e, m)))))
]

-- A live allocation that has not been given up.
pub released_by-Continues :
    (cfg : Config) (a : Allocation) (now : ℕ)
    → (a.state ≡ reserved) ⊎ (a.state ≡ active)
    → Continues a (released_by cfg a now)
unfolding released_by
released_by-Continues cfg a now e = record {
  id = refl;
  tenant = refl;
  key = refl;
  domain = refl;
  scope = refl;
  parent = refl;
  space = refl;
  moves = elim e [ inl r ↦ rw r gives_up | inr r ↦ rw r retires ];
  revision = omega arith;
  owned = λ h. h;
}

live_state :
    (s : AllocationState) → s ≢ unset → is_retired s ≡ false → (s ≡ reserved) ⊎ (s ≡ active)
live_state unset h e = absurd (h refl)
live_state reserved h e = inl refl
live_state active h e = inr refl
live_state quarantined h e = absurd cc
live_state released h e = absurd cc

pub release_tx-Change :
    (cfg : Config) (p : Principal) (id : String) (stamp : Stamp) (st : State) (b : Allocation)
    (st' : State)
    → IsSound st.allocations
    → release_tx cfg p id stamp st ≡ ok (b, st')
    → Change st.allocations st'.allocations
unfolding release_tx new_release
release_tx-Change cfg p id stamp st b st' sound e = elim (Option-cases (lookup id st.allocations)) [
  | inl m ↦ absurd (ground (arith, e, m, owned))
  | inr (a, m) ↦ elim (Bool-cases (is_retired a.state)) [
    | inl r ↦ let unchanged : st ≡ st' = ground (arith, e, r, m, owned) in rw (← unchanged) same
    | inr r ↦
        let rows : st'.allocations ≡ insert id (released_by cfg a stamp.now) st.allocations =
          ground (arith, e, r, m, owned) in
        rw rows (
          replace id a _ m (
            released_by-Continues cfg a stamp.now (
              live_state a.state
                (All-mem (λ (x : Allocation). x.state ≢ unset) (values st.allocations) a sound.begun
                  (lookup-mem id a st.allocations m))
                r)))
  ]
]
