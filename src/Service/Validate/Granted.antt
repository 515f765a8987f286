-- ===== src/Service/Validate/Granted.antt =====
-- What an answer of `validateRequest` (internal/service/service.go) grants.
use platform_ipam.Prelude.{
  ◌≡◌, refl, sym, ap, ◌∙◌, String, List, [], ◌∷◌, Memᴰ, Bool, true, false, inl, inr, Option, none,
  some, count_if, ◌==◌, string_eq, text_eq_iff, Option-cases, Bool-cases, arith, subst,
}
use platform_ipam.Domain.Policy.{Request, Pool, Domain, Config, Principal}
use platform_ipam.Domain.Errors.{Result-cases, ok, ok_eq}
use platform_ipam.Domain.Rows.{Allocation}
use platform_ipam.Domain.State.{State}
use platform_ipam.Service.Eligible.{eligible_string}
use platform_ipam.Service.Validate.Completed.{
  Completed, with_account-Accounted, Accounted-Completed,
}
use platform_ipam.Service.Validate.{
  Validated, with_family, check_form, with_account, find_parent, offered, select_pool, last_domain,
  find_domain, validate_request,
}

abbrev pub is_offered : Option Pool → Bool
is_offered none = false
is_offered (some pool) = true

-- The completed request, the one pool of the configuration that serves it, its domain, and the
-- caller's rights.
pub record Granted (cfg : Config) (st : State) (p : Principal) (request : Request) (v : Validated)
    : Type 0 where
  pub completed : Completed p request v.wanted
  pub parent : Allocation
  pub pool : Pool
  pub listed : Memᴰ pool cfg.pools
  pub serves : offered cfg p v.wanted parent pool ≡ some v.pool
  pub only : count_if (λ q. is_offered (offered cfg p v.wanted parent q)) cfg.pools ≡ 1
  pub parent_found : find_parent cfg st p v.wanted ≡ ok parent
  pub domain_listed : Memᴰ v.domain cfg.domains
  pub same_domain : v.pool.domain_id ≡ v.domain.id
  pub environment : eligible_string p.environments v.wanted.environment ≡ true
  pub region : eligible_string p.regions v.wanted.region ≡ true
  pub account : eligible_string p.accounts v.wanted.account_id ≡ true

-- Once a pool is selected, no later one is offered.
selected-rest :
    (offer : Pool → Option Pool) (selected found : Pool) (pools : List Pool)
    → select_pool offer (some selected) pools ≡ ok found
    → (selected ≡ found) × (count_if (λ q. is_offered (offer q)) pools ≡ 0)
unfolding select_pool
selected-rest offer selected found [] e = (ok_eq e, refl)
selected-rest offer selected found (q ∷ qs) e = elim (Option-cases (offer q)) [
  | inl n ↦
      let (same, none_later) = selected-rest offer selected found qs (rw (select_pool, n) at e) in
      (same, rw (n, none_later) refl)
  | inr (other, t) ↦ absurd (ground (arith, e, t))
]

-- The selected pool is what exactly one pool of the list offers.
select_pool-only :
    (offer : Pool → Option Pool) (found : Pool) (pools : List Pool)
    → select_pool offer none pools ≡ ok found
    → (q : Pool) × Memᴰ q pools
      × (offer q ≡ some found)
      × (count_if (λ x. is_offered (offer x)) pools ≡ 1)
unfolding select_pool
select_pool-only offer found [] e = absurd (ground (arith, e))
select_pool-only offer found (q ∷ qs) e = elim (Option-cases (offer q)) [
  | inl n ↦
      let (x, m, t, one) = select_pool-only offer found qs (rw (select_pool, n) at e) in
      (x, Memᴰ.tail m, t, rw (n, one) refl)
  | inr (candidate, t) ↦
      let (same, none_later) = selected-rest offer candidate found qs (rw (select_pool, t) at e) in
      (q, Memᴰ.head refl, t ∙ ap some same, rw (t, none_later) refl)
]

last_domain-mem :
    (id : String) (ds : List Domain) (d : Domain)
    → last_domain id ds ≡ some d
    → Memᴰ d ds × (d.id ≡ id)
unfolding last_domain
last_domain-mem id [] d e = absurd cc
last_domain-mem id (x ∷ xs) d e = elim (Option-cases (last_domain id xs)) [
  | inr (y, t) ↦
      let same : y ≡ d = ground (arith, e, t) in
      let (m, q) = last_domain-mem id xs d (t ∙ ap some same) in (Memᴰ.tail m, q)
  | inl n ↦ elim (Bool-cases (x.id == id)) [
    | inl t ↦
        let same : x ≡ d = ground (arith, e, n, t) in
        (Memᴰ.head (sym same), ap (λ (y : Domain). y.id) (sym same) ∙ (text_eq_iff x.id id).0 t)
    | inr t ↦ absurd (ground (arith, e, n, t))
  ]
]

find_domain-mem :
    (cfg : Config) (pool : Pool) (d : Domain)
    → find_domain cfg pool ≡ ok d
    → Memᴰ d cfg.domains × (d.id ≡ pool.domain_id)
unfolding find_domain
find_domain-mem cfg pool d e = elim (Option-cases (last_domain pool.domain_id cfg.domains)) [
  | inl n ↦ absurd (ground (arith, e, n))
  | inr (x, t) ↦
      let same : x ≡ d = ground (arith, e, t) in
      last_domain-mem pool.domain_id cfg.domains d (t ∙ ap some same)
]

offered-domain :
    (cfg : Config) (p : Principal) (r : Request) (parent : Allocation) (pool served : Pool)
    → offered cfg p r parent pool ≡ some served
    → served.domain_id ≡ pool.domain_id
unfolding offered
offered-domain cfg p r parent pool served e = ground (arith, e)

check_form-granted :
    (p : Principal) (r : Request)
    → check_form p r ≡ ok tt
    → (eligible_string p.environments r.environment ≡ true)
      × (eligible_string p.regions r.region ≡ true)
unfolding check_form
check_form-granted p r e = (ground (arith, e), ground (arith, e))

module _ (cfg : Config) (st : State) (p : Principal) where
  granted :
      (request r' : Request) (parent : Allocation) (pool : Pool) (d : Domain)
      → check_form p (with_family request) ≡ ok tt
      → with_account p (with_family request) ≡ ok r'
      → find_parent cfg st p r' ≡ ok parent
      → select_pool (offered cfg p r' parent) none cfg.pools ≡ ok pool
      → find_domain cfg pool ≡ ok d
      → Granted cfg st p request (record { wanted = r'; pool = pool; domain = d })
  granted request r' parent pool d form account up chosen home =
      let (environment, region) = check_form-granted p (with_family request) form in
      let accounted = with_account-Accounted p (with_family request) r' account in
      let (q, m, t, one) = select_pool-only (offered cfg p r' parent) pool cfg.pools chosen in
      let (listed, id) = find_domain-mem cfg pool d home in
      record {
        completed = Accounted-Completed p request r' accounted;
        parent = parent;
        pool = q;
        listed = m;
        serves = t;
        only = one;
        parent_found = up;
        domain_listed = listed;
        same_domain = sym id;
        environment =
            ap (λ (x : Request). eligible_string p.environments x.environment) accounted.kept
            ∙ environment;
        region = ap (λ (x : Request). eligible_string p.regions x.region) accounted.kept ∙ region;
        account = accounted.eligible;
      }

  with_parent :
      (request r' : Request) (parent : Allocation) (v : Validated)
      → (p.tenant_id == "") ≡ false
      → check_form p (with_family request) ≡ ok tt
      → with_account p (with_family request) ≡ ok r'
      → find_parent cfg st p r' ≡ ok parent
      → validate_request cfg st p request ≡ ok v
      → Granted cfg st p request v
  unfolding validate_request
  with_parent request r' parent v t c w n e =
      elim (Result-cases (select_pool (offered cfg p r' parent) none cfg.pools)) [
        | inr (f, s) ↦ absurd (ground (arith, e, t, c, w, n, s))
        | inl (pool, s) ↦ elim (Result-cases (find_domain cfg pool)) [
          | inr (f, d) ↦ absurd (ground (arith, e, t, c, w, n, s, d))
          | inl (d, q) ↦
              let same : record { wanted = r'; pool = pool; domain = d } ≡ v =
                ground (arith, e, t, c, w, n, s, q) in
              subst (Granted cfg st p request) same (granted request r' parent pool d c w n s q)
        ]
      ]

  -- An answer of `validateRequest` has the request itself, but for two defaults: an empty address
  -- family becomes ipv4, and an empty account the only one of the caller. It names a configured
  -- domain and the one configured pool that the request is offered, narrowed to its parent for a
  -- subnet; the pool belongs to the domain, and the caller may use the request's environment, region
  -- and account.
  pub validate_request-Granted :
      (request : Request) (v : Validated)
      → validate_request cfg st p request ≡ ok v
      → Granted cfg st p request v
  unfolding validate_request
  validate_request-Granted request v e =
      let r = with_family request in
      elim (Bool-cases (p.tenant_id == "")) [
        | inl t ↦ absurd (ground (arith, e, t))
        | inr t ↦ elim (Result-cases (check_form p r)) [
          | inr (f, c) ↦ absurd (ground (arith, e, t, c))
          | inl (u, c) ↦ elim (Result-cases (with_account p r)) [
            | inr (f, w) ↦ absurd (ground (arith, e, t, c, w))
            | inl (r', w) ↦ elim (Result-cases (find_parent cfg st p r')) [
              | inr (f, n) ↦ absurd (ground (arith, e, t, c, w, n))
              | inl (parent, n) ↦ with_parent request r' parent v t c w n e
            ]
          ]
        ]
      ]
