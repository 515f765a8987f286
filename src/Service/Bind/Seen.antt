-- ===== src/Service/Bind/Seen.antt =====
-- What the first read of `Bind` takes from the ledger, and the observations that show a binding.
use platform_ipam.Prelude.{
  ℕ, ◌≡◌, ◌≢◌, refl, sym, ◌∙◌, ap, String, List, true, inl, inr, Option, none, some, last?, lookup,
  Option-cases, Bool-cases, text_eq_iff, ◌==◌, string_eq, ◌&&◌, arith,
}
use platform_ipam.Domain.Policy.{Config, Principal}
use platform_ipam.Domain.Errors.{Result-cases, ok}
use platform_ipam.Domain.Rows.{Allocation, Operation, Binding, Observation, is_bind}
use platform_ipam.Domain.State.{State, observations_at}
use platform_ipam.Service.Eligible.{pending_for_allocation, domain_for}
use platform_ipam.Service.Observe.{trusted_observation, binding_observed}
use platform_ipam.Service.Lifecycle.{owned}
use platform_ipam.Service.Bind.{
  Expected, expects, Sight, is_candidate, parent_of, pending_binding, observed_unless, expected_of,
  known_of, read_binding, shows_binding, stored_for, sees_twice,
}

-- A trusted observation of the domain shows the binding on the row's own network.
pub record Shown (cfg : Config) (domain_id id : String) (b : Binding) (a : Allocation)
    (parent : String) (now : ℕ) (o : Observation) : Type 0 where
  pub trusted :
      trusted_observation o (domain_for cfg domain_id) now cfg.lifecycle.max_observation_age ≡ true
  pub shows : binding_observed o b id a.allocation_key a.cidr a.availability_zone_id parent ≡ true

-- Two observations show the binding: the ledger's last one of the row's domain and a fresh one, or
-- two fresh ones.
pub data Sights (cfg : Config) (id : String) (b : Binding) (st : State) (a : Allocation)
    (parent domain_id : String) (sight : Sight) : Type 0 where
  stored_and_fresh :
      (o o' : Observation)
      → a.domain_id ≡ domain_id
      → last? (observations_at st a.domain_id) ≡ some o
      → sight.first ≡ some o'
      → Shown cfg domain_id id b a parent (sight.clocks.0) o
      → Shown cfg domain_id id b a parent (sight.clocks.1) o'
      → Sights cfg id b st a parent domain_id sight
  both_fresh :
      (o o' : Observation)
      → sight.configured ≡ true
      → sight.first ≡ some o
      → sight.second ≡ some o'
      → Shown cfg domain_id id b a parent (sight.clocks.1) o
      → Shown cfg domain_id id b a parent (sight.clocks.2) o'
      → Sights cfg id b st a parent domain_id sight

-- The resource that the parent of the row is bound to; nothing where it has no bound parent.
pub record ParentResource (st : State) (a : Allocation) (parent : String) : Type 0 where
  pub top : a.parent_allocation_id ≡ "" → parent ≡ ""
  pub unknown :
      a.parent_allocation_id ≢ ""
      → lookup a.parent_allocation_id st.allocations ≡ none
      → parent ≡ ""
  pub unbound :
      (q : Allocation)
      → a.parent_allocation_id ≢ ""
      → lookup a.parent_allocation_id st.allocations ≡ some q
      → q.binding ≡ none
      → parent ≡ ""
  pub bound :
      (q : Allocation) (c : Binding)
      → a.parent_allocation_id ≢ ""
      → lookup a.parent_allocation_id st.allocations ≡ some q
      → q.binding ≡ some c
      → parent ≡ c.resource_id

pub parent_of-ParentResource : (st : State) (a : Allocation) → ParentResource st a (parent_of st a)
parent_of-ParentResource st a = record {
  top = λ e. ground (arith, (text_eq_iff a.parent_allocation_id "").1 e);
  unknown = λ n e. ground (arith, text_eq_iff a.parent_allocation_id "", n, e);
  unbound = λ q n e u. ground (arith, text_eq_iff a.parent_allocation_id "", n, e, u);
  bound = λ q c n e u. ground (arith, text_eq_iff a.parent_allocation_id "", n, e, u);
}

module _ (cfg : Config) (id : String) (b : Binding) (st : State) (a : Allocation)
    (taken : Option Operation) where
  shows_binding-Shown :
      (domain_id : String) (now : ℕ) (seen : Option Observation)
      → shows_binding cfg domain_id b id (expected_of st a taken) now seen ≡ true
      → (o : Observation) × (seen ≡ some o) × Shown cfg domain_id id b a (parent_of st a) now o
  unfolding shows_binding expected_of
  shows_binding-Shown domain_id now none e = absurd cc
  shows_binding-Shown domain_id now (some o) e =
      (o, refl, record { trusted = ground (arith, e); shows = ground (arith, e) })

  observed_unless-last :
      (rows : List Observation) (o : Observation) (t : Option Operation)
      → observed_unless t rows ≡ some o
      → last? rows ≡ some o
  unfolding observed_unless
  observed_unless-last rows o none e = e
  observed_unless-last rows o (some d) e = absurd cc

  stored_for-last :
      (d : Operation) (o : Observation)
      → stored_for (expected_of st a taken) d ≡ some o
      → (a.domain_id ≡ d.domain_id) × (last? (observations_at st a.domain_id) ≡ some o)
  unfolding expected_of
  stored_for-last d o e = elim (Bool-cases (a.domain_id == d.domain_id)) [
    | inr t ↦ absurd (ground (arith, e, t))
    | inl t ↦ (
      (text_eq_iff a.domain_id d.domain_id).0 t,
      observed_unless-last (observations_at st a.domain_id) o taken (ground (arith, e, t)),
    )
  ]

  pub sees_twice-Sights :
      (d : Operation) (sight : Sight)
      → sees_twice cfg id b d (expected_of st a taken) (stored_for (expected_of st a taken) d) sight
        ≡ true
      → Sights cfg id b st a (parent_of st a) d.domain_id sight
  unfolding sees_twice
  sees_twice-Sights d sight e =
      let x = expected_of st a taken in
      elim (Bool-cases (shows_binding cfg d.domain_id b id x (sight.clocks.0) (stored_for x d))) [
        | inl t ↦
            let (o, is, shown) =
              shows_binding-Shown d.domain_id (sight.clocks.0) (stored_for x d) t in
            let (o', is', shown') =
              shows_binding-Shown d.domain_id (sight.clocks.1) sight.first (ground (arith, e, t)) in
            let (domain, last) = stored_for-last d o is in
            stored_and_fresh o o' domain last is' shown shown'
        | inr t ↦
            let (o, is, shown) =
              shows_binding-Shown d.domain_id (sight.clocks.1) sight.first (ground (arith, e, t)) in
            let (o', is', shown') =
              shows_binding-Shown d.domain_id (sight.clocks.2) sight.second
                (ground (arith, e, t)) in
            both_fresh o o' (ground (arith, e, t)) is is' shown shown'
      ]

-- What the first read finds where the binding is to be verified.
pub record FirstRead (st : State) (p : Principal) (id : String) (b : Binding) (e : Expected)
    (a : Allocation) (taken : Option Operation) : Type 0 where
  pub found : lookup id st.allocations ≡ some a
  pub own : (a.tenant_id == p.tenant_id) ≡ true
  pub committed : a.committed ≡ true
  pub unbound : a.binding ≡ none
  pub awaited :
      (o : Operation)
      → taken ≡ some o
      → (pending_for_allocation st id ≡ some o)
        × (is_bind o.type ≡ true)
        × (is_candidate o.candidate b ≡ true)
  pub expected : expected_of st a taken ≡ e

pending_binding-awaited :
    (pending : Option Operation) (b : Binding) (taken : Option Operation) (o : Operation)
    → pending_binding pending b ≡ ok taken
    → taken ≡ some o
    → (pending ≡ some o) × (is_bind o.type ≡ true) × (is_candidate o.candidate b ≡ true)
unfolding pending_binding
pending_binding-awaited none b taken o e t = absurd (ground (arith, e, t))
pending_binding-awaited (some q) b taken o e t =
    elim (Bool-cases (is_bind q.type && is_candidate q.candidate b)) [
      | inr n ↦ absurd (ground (arith, e, t, n))
      | inl y ↦
          let same : q ≡ o = ground (arith, e, t, y) in
          let kind : is_bind q.type ≡ true = ground (arith, y) in
          let candidate : is_candidate q.candidate b ≡ true = ground (arith, y) in
          (
            ap some same,
            ap (λ (x : Operation). is_bind x.type) (sym same) ∙ kind,
            ap (λ (x : Operation). is_candidate x.candidate b) (sym same) ∙ candidate,
          )
    ]

known_of-expects :
    (st : State) (id : String) (a : Allocation) (b : Binding) (c : Option Binding) (e : Expected)
    → known_of st id a b c ≡ ok (expects e)
    → (taken : Option Operation) × (c ≡ none)
      × (pending_binding (pending_for_allocation st id) b ≡ ok taken)
      × (expected_of st a taken ≡ e)
unfolding known_of
known_of-expects st id a b none e h =
    elim (Result-cases (pending_binding (pending_for_allocation st id) b)) [
      | inr (f, w) ↦ absurd (ground (arith, h, w))
      | inl (o, w) ↦ (o, refl, w, ground (arith, h, w))
    ]
known_of-expects st id a b (some c) e h = absurd (ground (arith, h))

pub read_binding-FirstRead :
    (st : State) (p : Principal) (id : String) (b : Binding) (e : Expected)
    → read_binding st p id b ≡ ok (expects e)
    → (a : Allocation) × (taken : Option Operation) × FirstRead st p id b e a taken
unfolding read_binding owned
read_binding-FirstRead st p id b e h = elim (Option-cases (lookup id st.allocations)) [
  | inl m ↦ absurd (ground (arith, h, m))
  | inr (a, m) ↦
      let known : known_of st id a b a.binding ≡ ok (expects e) = ground (arith, h, m) in
      let (taken, unbound, awaited, expected) = known_of-expects st id a b a.binding e known in
      (
        a,
        taken,
        record {
          found = m;
          own = ground (arith, h, m);
          committed = ground (arith, h, m);
          unbound = unbound;
          awaited =
              λ o t. pending_binding-awaited (pending_for_allocation st id) b taken o awaited t;
          expected = expected;
        },
      )
]
