-- ===== src/Service/Lifecycle/Endings.antt =====
-- What `finishBinding` and `Release` have done when they answer, and what a second call does.
use platform_ipam.Prelude.{
  ℕ, ◌≡◌, ◌≢◌, none, subst, ◌&&◌, nat_eq, refl, sym, ◌∙◌, ap, String, List, [], ◌∷◌, true, false,
  inl, inr, some, values, lookup, insert, lookup-insert, All, All-of_mem, any-mem, any,
  Option-cases, Bool-cases, text_eq_iff, ◌==◌, string_eq, arith,
}
use platform_ipam.Domain.Policy.{Config, Principal}
use platform_ipam.Domain.Errors.{ok, fail, api_error}
use platform_ipam.Domain.Rows.{
  Allocation, Operation, Binding, is_reserved, is_pending, is_bind, failed,
}
use platform_ipam.Domain.State.{State}
use platform_ipam.Service.Reserve.Replay.{is_retired}
use platform_ipam.Service.Lifecycle.Quarantine.{
  Quarantined, lookup-map_values-some, lookup-map_values-none, released_by-Quarantined,
  fail_binding-fails, fail_binding-spares,
}
use platform_ipam.Service.Lifecycle.{
  Stamp, owned, bound, finish_binding, blocks_release, ends_binding, fail_binding, map_values,
  released_by, new_release, release_tx,
}

found-insert :
    (id : String) (b : Allocation) (m : List (String × Allocation))
    → lookup id (insert id b m) ≡ some b
found-insert id b m = ground (arith, lookup-insert id id b m, text_eq_iff id id)

-- A verified binding is taken once: the same call again, and any other for the same allocation, is
-- refused.
pub finish_binding-once :
    (id : String) (op op' : Operation) (b b' : Binding) (stamp stamp' : Stamp) (st : State)
    (x : Allocation) (o : Operation) (st' : State)
    → finish_binding id op b stamp st ≡ ok ((x, o), st')
    → finish_binding id op' b' stamp' st' ≡ fail 409 "binding_conflict"
unfolding finish_binding
finish_binding-once id op op' b b' stamp stamp' st x o st' e =
    elim (Option-cases (lookup id st.allocations)) [
      | inl m ↦ absurd (ground (arith, e, m))
      | inr (a, m) ↦
          let rows : st'.allocations ≡ insert id (bound a b stamp.now) st.allocations =
            ground (arith, e, m) in
          let at : lookup id st'.allocations ≡ some (bound a b stamp.now) =
            rw rows (found-insert id (bound a b stamp.now) st.allocations) in
          let active : is_reserved (bound a b stamp.now).state ≡ false = unfold bound in refl in
          ground (arith, at, active)
    ]

-- A release that was carried out.
pub record Released (cfg : Config) (p : Principal) (id : String) (stamp : Stamp) (st : State)
    (b : Allocation) (st' : State) : Type 0 where
  pub row : Allocation
  pub found : lookup id st.allocations ≡ some row
  pub own : (row.tenant_id == p.tenant_id) ≡ true
  pub committed : row.committed ≡ true
  pub childless : All (λ child. blocks_release st id child ≡ false) (values st.allocations)
  pub change : b ≡ released_by cfg row stamp.now
  pub quarantine : Quarantined cfg row stamp.now b
  pub stored : lookup id st'.allocations ≡ some b
  pub others : (k : String) → id ≢ k → lookup k st'.allocations ≡ lookup k st.allocations
  pub bindings_end : All (λ o. ends_binding id o ≡ false) (values st'.operations)
  pub failed_bindings :
      (k : String) (o : Operation)
      → lookup k st.operations ≡ some o
      → (o.allocation_id == id && is_pending o.status && is_bind o.type) ≡ true
      → lookup k st'.operations
        ≡ some (record o {
          status = failed;
          error = some (api_error 409 "allocation_key_retired");
          updated_at = stamp.now;
        })
  pub spared :
      (k : String) (o : Operation)
      → lookup k st.operations ≡ some o
      → (o.allocation_id == id && is_pending o.status && is_bind o.type) ≡ false
      → lookup k st'.operations ≡ some o
  pub no_new : (k : String) → lookup k st.operations ≡ none → lookup k st'.operations ≡ none

fail_binding-ended :
    (id : String) (now : ℕ) (o : Operation) → ends_binding id (fail_binding id now o) ≡ false
unfolding ends_binding fail_binding
fail_binding-ended id now o = ground arith

map_values-ended :
    (id : String) (now : ℕ) (m : List (String × Operation))
    → All (λ o. ends_binding id o ≡ false) (values (map_values (fail_binding id now) m))
map_values-ended id now [] = tt
map_values-ended id now ((k, o) ∷ m) = (fail_binding-ended id now o, map_values-ended id now m)

-- A release of an allocation that is neither quarantined nor released finds the tenant's own
-- committed row without a child that holds space, and leaves it quarantined: requested now, until
-- the configured hours (or 168 where none are configured) have passed, with the next revision and
-- its inventory pending. Nothing else of the row changes but its time of update and its release
-- blockers. Every pending verification of a binding for it has failed with
-- allocation_key_retired. Every other row and operation is as it was.
pub release_tx-Released :
    (cfg : Config) (p : Principal) (id : String) (stamp : Stamp) (st : State) (a b : Allocation)
    (st' : State)
    → lookup id st.allocations ≡ some a
    → is_retired a.state ≡ false
    → release_tx cfg p id stamp st ≡ ok (b, st')
    → Released cfg p id stamp st b st'
unfolding release_tx new_release owned
release_tx-Released cfg p id stamp st a b st' m live e =
    let rows : st'.allocations ≡ insert id (released_by cfg a stamp.now) st.allocations =
      ground (arith, e, m, live) in
    let operations : st'.operations ≡ map_values (fail_binding id stamp.now) st.operations =
      ground (arith, e, m, live) in
    let is : b ≡ released_by cfg a stamp.now = ground (arith, e, m, live) in
    let none_blocks : any (blocks_release st id) (values st.allocations) ≡ false =
      ground (arith, e, m, live) in
    record {
      row = a;
      found = m;
      own = ground (arith, e, m, live);
      committed = ground (arith, e, m, live);
      childless =
          All-of_mem (λ child. blocks_release st id child ≡ false) (values st.allocations)
            (λ child c. any-mem (blocks_release st id) (values st.allocations) child none_blocks c);
      change = is;
      quarantine =
          subst (Quarantined cfg a stamp.now) (sym is) (released_by-Quarantined cfg a stamp.now);
      others = λ k d. rw rows (
          ground (
            arith,
            lookup-insert id k (released_by cfg a stamp.now) st.allocations,
            text_eq_iff id k,
            d,
          ));
      failed_bindings = λ k o n t. rw operations (
          lookup-map_values-some (fail_binding id stamp.now) k o st.operations n
          ∙ ap some (fail_binding-fails id stamp.now o t));
      spared = λ k o n t. rw operations (
          lookup-map_values-some (fail_binding id stamp.now) k o st.operations n
          ∙ ap some (fail_binding-spares id stamp.now o t));
      no_new = λ k n.
          rw operations (lookup-map_values-none (fail_binding id stamp.now) k st.operations n);
      stored =
          rw rows (found-insert id (released_by cfg a stamp.now) st.allocations ∙ ap some (sym is));
      bindings_end = rw operations (map_values-ended id stamp.now st.operations);
    }

released_by-retired :
    (cfg : Config) (a : Allocation) (now : ℕ) → is_retired (released_by cfg a now).state ≡ true
unfolding released_by
released_by-retired cfg a now = refl

released_by-owner :
    (cfg : Config) (a : Allocation) (now : ℕ) → (released_by cfg a now).tenant_id ≡ a.tenant_id
unfolding released_by
released_by-owner cfg a now = refl

released_by-committed :
    (cfg : Config) (a : Allocation) (now : ℕ) → (released_by cfg a now).committed ≡ a.committed
unfolding released_by
released_by-committed cfg a now = refl

-- A second release, with any configuration and at any time, answers with the same row and changes
-- nothing.
pub release_tx-again :
    (cfg cfg' : Config) (p : Principal) (id : String) (stamp stamp' : Stamp) (st : State)
    (b : Allocation) (st' : State)
    → release_tx cfg p id stamp st ≡ ok (b, st')
    → release_tx cfg' p id stamp' st' ≡ ok (b, st')
unfolding release_tx owned
release_tx-again cfg cfg' p id stamp stamp' st b st' e =
    elim (Option-cases (lookup id st.allocations)) [
      | inl m ↦ absurd (ground (arith, e, m))
      | inr (a, m) ↦ elim (Bool-cases (is_retired a.state)) [
        | inl r ↦
            let same : st ≡ st' = ground (arith, e, m, r) in
            let at : lookup id st'.allocations ≡ some a = rw (← same) m in
            ground (arith, e, m, r, at)
        | inr r ↦
            let q = release_tx-Released cfg p id stamp st a b st' m r e in
            ground (
              arith,
              q.stored,
              q.change,
              q.own,
              q.committed,
              released_by-retired cfg q.row stamp.now,
              released_by-owner cfg q.row stamp.now,
              released_by-committed cfg q.row stamp.now,
            )
      ]
    ]
