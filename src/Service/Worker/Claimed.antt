-- ===== src/Service/Worker/Claimed.antt =====
-- What `reconcileAllocations` of internal/service/worker.go stands on when it binds a row.
use platform_ipam.Prelude.{
  ℕ, ◌≡◌, refl, sym, ◌∙◌, String, List, [], ◌∷◌, true, false, inl, inr, none, some, some_eq, ltb,
  length, lookup, insert, lookup-insert_self, string_eq, Option-cases, Bool-cases, arith, subst,
}
use platform_ipam.Domain.Policy.{Config}
use platform_ipam.Domain.Rows.{
  Allocation, Binding, Resource, Observation, is_active, is_quarantined,
}
use platform_ipam.Domain.State.{State}
use platform_ipam.Service.Digests.{Digests}
use platform_ipam.Service.Eligible.{domain_for, pending_for_allocation}
use platform_ipam.Service.Observe.{binding_observed}
use platform_ipam.Service.Raise.{worker_finding, worker_event}
use platform_ipam.Service.Worker.Reconcile.{
  Decision, agrees, raises, takes, claimed_by, required_parent, candidate_binding, latest_trusted,
  judge_active, judge_unclaimed, judge_reserved, judge_with, judge, bound_observed, carry_out,
  is_reconciled, sight_row, seen_at, NewIds, reconcile_row,
}

-- One resource claims the row and shows its binding, and no operation on the row is pending.
pub record Claim (st : State) (a : Allocation) (o : Observation) (b : Binding) : Type 0 where
  pub resource : Resource
  pub parent : String
  pub alone : claimed_by a.id o ≡ resource ∷ []
  pub parent_found : required_parent st a ≡ some parent
  pub shown :
      binding_observed o
        (candidate_binding a resource)
        a.id
        a.allocation_key
        a.cidr
        a.availability_zone_id
        parent
      ≡ true
  pub idle : pending_for_allocation st a.id ≡ none
  pub binds : b ≡ record (candidate_binding a resource) { verified_at = some o.finished_at }
  pub inactive : is_active a.state ≡ false
  pub usable : is_quarantined a.state ≡ false

takes_eq : {b c : Binding} → takes b ≡ takes c → c ≡ b
takes_eq e = cc

module _ (cfg : Config) (now : ℕ) (st : State) (a : Allocation) (o : Observation)
    (b : Binding) where
  unclaimed-takes : judge_unclaimed cfg now a ≡ takes b → ⊥
  unfolding judge_unclaimed
  unclaimed-takes e = ground (arith, e)

  active-takes : (parent : String) (xs : List Resource) → judge_active a o parent xs ≡ takes b → ⊥
  unfolding judge_active
  active-takes parent xs e = ground (arith, e)

  reserved-takes :
      (parent : String) (xs : List Resource)
      → judge_reserved cfg now st a o parent xs ≡ takes b
      → (x : Resource) × (rest : List Resource) × (xs ≡ x ∷ rest)
        × (binding_observed o
              (candidate_binding a x)
              a.id
              a.allocation_key
              a.cidr
              a.availability_zone_id
              parent
            ≡ true)
        × (pending_for_allocation st a.id ≡ none)
        × (b ≡ record (candidate_binding a x) { verified_at = some o.finished_at })
  unfolding judge_reserved
  reserved-takes parent [] e = absurd (unclaimed-takes e)
  reserved-takes parent (x ∷ rest) e =
      elim (Bool-cases (
        binding_observed o (candidate_binding a x) a.id a.allocation_key a.cidr
          a.availability_zone_id parent)) [
            | inr t ↦ absurd (ground (arith, e, t))
            | inl t ↦ elim (Option-cases (pending_for_allocation st a.id)) [
              | inr (p, q) ↦ absurd (ground (arith, e, t, q))
              | inl q ↦ (x, rest, refl, t, q, takes_eq (ground (arith, e, t, q)))
            ]
          ]

  with-takes :
      (parent : String)
      → judge_with cfg now st a o parent ≡ takes b
      → (is_quarantined a.state ≡ false)
        × (is_active a.state ≡ false)
        × (judge_reserved cfg now st a o parent (claimed_by a.id o) ≡ takes b)
  unfolding judge_with
  with-takes parent e = elim (Bool-cases (is_quarantined a.state)) [
    | inl q ↦ absurd (ground (arith, e, q))
    | inr q ↦ elim (Bool-cases (is_active a.state)) [
      | inl t ↦ absurd (active-takes parent (claimed_by a.id o) (rw (judge_with, q, t) at e))
      | inr t ↦ (q, t, rw (judge_with, q, t) at e)
    ]
  ]

  single :
      (x : Resource) (rest : List Resource)
      → claimed_by a.id o ≡ x ∷ rest
      → ltb 1 (length (claimed_by a.id o)) ≡ false
      → claimed_by a.id o ≡ x ∷ []
  single x [] e few = e
  single x (y ∷ rest) e few = absurd (ground (arith, rw (e) at few))

  pub judge-Claim : judge cfg now st a o ≡ takes b → Claim st a o b
  unfolding judge
  judge-Claim e = elim (Bool-cases (ltb 1 (length (claimed_by a.id o)))) [
    | inl many ↦ absurd (ground (arith, e, many))
    | inr few ↦ elim (Option-cases (required_parent st a)) [
      | inl n ↦ absurd (ground (arith, e, few, n))
      | inr (parent, p) ↦
          let (q, t, r) = with-takes parent (rw (judge, few, p) at e) in
          let (x, rest, all, shown, idle, is) = reserved-takes parent (claimed_by a.id o) r in
          record {
            resource = x;
            parent = parent;
            alone = single x rest all few;
            parent_found = p;
            shown = shown;
            idle = idle;
            binds = is;
            inactive = t;
            usable = q;
          }
    ]
  ]

module _ (h : Digests) (cfg : Config) (now : ℕ) (ids : NewIds) (id : String) (a : Allocation)
    (st : State) where
  abbrev sighted_rows : Observation → List (String × Allocation)
  sighted_rows o = insert id (seen_at a o.finished_at) st.allocations

  -- What a round of the loop did to the rows, and a binding's grounds.
  pub record Bound (o : Observation) (b : Binding) : Type 0 where
    pub reconciled : is_reconciled a ≡ true
    pub trusted : latest_trusted cfg (domain_for cfg a.domain_id) a.domain_id now st ≡ some o
    pub claim : Claim (record st { allocations = sighted_rows o }) (seen_at a o.finished_at) o b

  abbrev BoundIf : Decision → Observation → Type 0
  BoundIf agrees o = Unit
  BoundIf (raises code severity) o = Unit
  BoundIf (takes b) o = Bound o b

  pub data Round (rows : List (String × Allocation)) : Type 0 where
    untouched : rows ≡ st.allocations → Round rows
    sighted : (o : Observation) → rows ≡ sighted_rows o → Round rows
    claimed :
        (o : Observation) (b : Binding)
        → Bound o b
        → rows ≡ insert id (bound_observed (seen_at a o.finished_at) b now) (sighted_rows o)
        → Round rows

  carried_out :
      (o : Observation) (d : Decision)
      → BoundIf d o
      → Round
          (carry_out h now ids id
            (seen_at a o.finished_at)
            o
            d
            (record st { allocations = sighted_rows o })).allocations
  unfolding carry_out worker_finding worker_event
  carried_out o agrees g = sighted o refl
  carried_out o (raises code severity) g = sighted o refl
  carried_out o (takes b) g = claimed o b g refl

  grounds :
      (o : Observation) (d : Decision)
      → is_reconciled a ≡ true
      → latest_trusted cfg (domain_for cfg a.domain_id) a.domain_id now st ≡ some o
      → judge cfg now (record st { allocations = sighted_rows o }) (seen_at a o.finished_at) o ≡ d
      → BoundIf d o
  grounds o agrees c t e = tt
  grounds o (raises code severity) c t e = tt
  grounds o (takes b) c t e = record {
    reconciled = c;
    trusted = t;
    claim =
        judge-Claim cfg now (record st { allocations = sighted_rows o }) (seen_at a o.finished_at) o
          b e;
  }

  pub visits :
      (o : Observation)
      → is_reconciled a ≡ true
      → latest_trusted cfg (domain_for cfg a.domain_id) a.domain_id now st ≡ some o
      → reconcile_row h cfg now ids id a st
        ≡ carry_out h now ids id
            (seen_at a o.finished_at)
            o
            (judge cfg now (record st { allocations = sighted_rows o }) (seen_at a o.finished_at) o)
            (record st { allocations = sighted_rows o })
  unfolding reconcile_row sight_row
  visits o c t = rw (reconcile_row, c, t) refl

  pub reconcile_row-Round : Round (reconcile_row h cfg now ids id a st).allocations
  unfolding reconcile_row worker_finding
  reconcile_row-Round = elim (Bool-cases (is_reconciled a)) [
    | inr c ↦ untouched (rw (reconcile_row, c) refl)
    | inl c ↦
        elim (Option-cases (latest_trusted cfg (domain_for cfg a.domain_id) a.domain_id now st)) [
          | inl n ↦ untouched (rw (reconcile_row, c, n) refl)
          | inr (o, t) ↦
              subst (λ (s : State). Round s.allocations) (sym (visits o c t))
                (carried_out o _ (grounds o _ c t refl))
        ]
  ]

  -- When the round of a row that is not active leaves it active, the row was committed and not
  -- released, the latest observation of its domain is trusted, exactly one resource of it claims
  -- the row and shows its tags, account, region, zone, parent and CIDR, no operation on the row
  -- was pending, and the row is bound to that resource with the next revision.
  pub reconcile_row-Bound :
      (row : Allocation)
      → lookup id st.allocations ≡ some a
      → is_active a.state ≡ false
      → lookup id (reconcile_row h cfg now ids id a st).allocations ≡ some row
      → is_active row.state ≡ true
      → (o : Observation) × (b : Binding) × Bound o b
        × (row ≡ bound_observed (seen_at a o.finished_at) b now)
  reconcile_row-Bound row e before found after = elim reconcile_row-Round [
    | untouched q ↦ absurd (ground (arith, e, found, q, before, after))
    | sighted o q ↦
        let same : some (seen_at a o.finished_at) ≡ some row =
          sym (lookup-insert_self id (seen_at a o.finished_at) st.allocations) ∙ (rw q at found) in
        absurd (ground (arith, same, before, after))
    | claimed o b g q ↦
        let next = bound_observed (seen_at a o.finished_at) b now in
        (o, b, g, some_eq (sym (rw q at found) ∙ lookup-insert_self id next (sighted_rows o)))
  ]
