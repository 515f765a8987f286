-- ===== src/Service/Validate/Completed.antt =====
-- The defaults that `validateRequest` gives a request: its address family and its account.
use platform_ipam.Prelude.{
  ◌≡◌, ◌≢◌, refl, sym, ap, ◌∙◌, String, List, [], ◌∷◌, true, inl, inr, ◌==◌, string_eq, text_eq_iff,
  Bool-cases, arith, subst,
}
use platform_ipam.Domain.Policy.{Request, Principal}
use platform_ipam.Domain.Errors.{ok, ok_eq}
use platform_ipam.Service.Eligible.{eligible_string}
use platform_ipam.Service.Validate.{with_family, only_account, with_account}

-- The request as it is served: completed with the address family and the account that it leaves
-- out, and nothing else changed.
pub record Completed (p : Principal) (request wanted : Request) : Type 0 where
  pub kept :
      wanted
      ≡ record request { address_family = wanted.address_family; account_id = wanted.account_id }
  pub default_family : request.address_family ≡ "" → wanted.address_family ≡ "ipv4"
  pub same_family : request.address_family ≢ "" → wanted.address_family ≡ request.address_family
  pub only_account : request.account_id ≡ "" → p.accounts ≡ wanted.account_id ∷ []
  pub same_account : request.account_id ≢ "" → wanted.account_id ≡ request.account_id

-- A request whose account is settled, compared with the one before.
pub record Accounted (p : Principal) (r r' : Request) : Type 0 where
  pub eligible : eligible_string p.accounts r'.account_id ≡ true
  pub kept : r' ≡ record r { account_id = r'.account_id }
  pub only : r.account_id ≡ "" → p.accounts ≡ r'.account_id ∷ []
  pub same : r.account_id ≢ "" → r'.account_id ≡ r.account_id

only_account-one :
    (xs : List String) (r r' : Request)
    → only_account xs r ≡ ok r'
    → (a : String) × (xs ≡ a ∷ []) × (record r { account_id = a } ≡ r')
only_account-one [] r r' e = absurd (ground (arith, e))
only_account-one (a ∷ []) r r' e = (a, refl, ok_eq e)
only_account-one (a ∷ b ∷ xs) r r' e = absurd (ground (arith, e))

eligible_one : (a : String) → eligible_string (a ∷ []) a ≡ true
unfolding eligible_string
eligible_one a = ground (arith, text_eq_iff a a)

pub with_account-Accounted :
    (p : Principal) (r r' : Request) → with_account p r ≡ ok r' → Accounted p r r'
unfolding with_account
with_account-Accounted p r r' e = elim (Bool-cases (r.account_id == "")) [
  | inl t ↦
      let (a, one, is) = only_account-one p.accounts r r' (rw (with_account, t) at e) in
      subst (Accounted p r) is (record {
        eligible = rw one (eligible_one a);
        kept = refl;
        only = λ _. one;
        same = λ n. absurd (n ((text_eq_iff r.account_id "").0 t));
      })
  | inr t ↦ elim (Bool-cases (eligible_string p.accounts r.account_id)) [
    | inr n ↦ absurd (ground (arith, e, t, n))
    | inl g ↦
        let same : r ≡ r' = ground (arith, e, t, g) in
        subst (Accounted p r) same (record {
          eligible = g;
          kept = refl;
          only = λ z. absurd (ground (arith, t, (text_eq_iff r.account_id "").1 z));
          same = λ _. refl;
        })
  ]
]

with_family-kept :
    (r : Request) → with_family r ≡ record r { address_family = (with_family r).address_family }
with_family-kept r = elim (Bool-cases (r.address_family == "")) [
  | inl t ↦ rw t refl
  | inr t ↦ rw t refl
]

with_family-default :
    (r : Request) → r.address_family ≡ "" → (with_family r).address_family ≡ "ipv4"
with_family-default r z = ground (arith, (text_eq_iff r.address_family "").1 z)

with_family-same :
    (r : Request) → r.address_family ≢ "" → (with_family r).address_family ≡ r.address_family
with_family-same r n = ground (arith, text_eq_iff r.address_family "", n)

with_family-account : (r : Request) → (with_family r).account_id ≡ r.account_id
with_family-account r = ground arith

pub Accounted-Completed :
    (p : Principal) (request wanted : Request)
    → Accounted p (with_family request) wanted
    → Completed p request wanted
Accounted-Completed p request wanted c =
    let family : wanted.address_family ≡ (with_family request).address_family =
      ap (λ (x : Request). x.address_family) c.kept in
    let account = with_family-account request in
    record {
      kept =
          c.kept
          ∙ ap (λ (x : Request). record x { account_id = wanted.account_id })
              (with_family-kept request)
          ∙ ap
              (λ (f : String). record request {
                address_family = f;
                account_id = wanted.account_id;
              })
              (sym family);
      default_family = λ z. family ∙ with_family-default request z;
      same_family = λ n. family ∙ with_family-same request n;
      only_account = λ z. c.only (account ∙ z);
      same_account = λ n. c.same (λ z. n (sym account ∙ z)) ∙ account;
    }
