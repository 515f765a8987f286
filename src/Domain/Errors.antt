-- ===== src/Domain/Errors.antt =====
-- `domain.APIError` and `domain.Err`: a failed call as a value. Messages and details are left out.
use platform_ipam.Prelude.{
  ℕ, String, Bool, true, false, ◌||◌, ◌==◌, nat_eq, ◌≡◌, refl, ◌⊎◌, inl, inr,
}

pub record ApiError : Type 0 where
  pub status : ℕ
  pub code : String
  pub retryable : Bool

-- `domain.Err`: 503 and 429 are the retryable statuses.
abbrev pub api_error : ℕ → String → ApiError
api_error status code = record {
  status = status;
  code = code;
  retryable = status == 503 || status == 429;
}

-- What a call returns in place of a value: an answer of the service, or an error without a code
-- (a cancelled context, a lost connection).
pub data Failure : Type 0 where
  api : ApiError → Failure
  fault : Failure

pub data Result {ℓ} (A : Type ℓ) : Type ℓ where
  err : Failure → Result A
  ok : A → Result A

-- `if err != nil { return err }` between two calls.
infixl 5 ◌>>=◌ ◌>>◌
abbrev pub ◌>>=◌ {ℓ κ} : {A : Type ℓ} {B : Type κ} → Result A → (A → Result B) → Result B
err failure >>= next = err failure
ok a >>= next = next a

abbrev pub ◌>>◌ {ℓ} : {B : Type ℓ} → Result (Unit {0}) → Result B → Result B
check >> next = check >>= λ _. next

-- `return …, apiErr(status, code, …)`
abbrev pub fail {ℓ} : {A : Type ℓ} → ℕ → String → Result A
fail status code = err (api (api_error status code))

-- `if test { return …, apiErr(status, code, …) }`
abbrev pub refuse_if : Bool → ℕ → String → Result (Unit {0})
refuse_if true status code = fail status code
refuse_if false status code = ok tt

pub Result-cases {ℓ} :
    {A : Type ℓ} (m : Result A) → ((a : A) × (m ≡ ok a)) ⊎ ((e : Failure) × (m ≡ err e))
Result-cases (ok a) = inl (a, refl)
Result-cases (err e) = inr (e, refl)

pub ok_eq {ℓ} : {A : Type ℓ} {a b : A} → ok a ≡ ok b → a ≡ b
ok_eq h = cc
