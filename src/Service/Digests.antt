-- ===== src/Service/Digests.antt =====
-- The digests of internal/service/service.go. Each is the hex of a SHA-256 of a JSON text, or of
-- texts joined by NUL bytes; the hash is a parameter, with what goes into it written out.
use platform_ipam.Prelude.{ℕ, String, List, [], ◌∷◌, Option, none}
use platform_ipam.Domain.Policy.{Request, Labels}
use platform_ipam.Domain.Rows.{Binding}

pub record Digests : Type 0 where
  pub of_request : Request → String
  pub of_patch : String → Option String → Option Labels → ℕ → String
  pub of_binding : String → Binding → String
  pub of_joined : List String → String

module _ (h : Digests) where
  -- `requestHash`: without the description and the labels.
  unfoldable pub request_hash : Request → String
  request_hash r = h.of_request (record r { description = ""; labels = none })

  -- `requestBodyHash`, `patchHash` and `bindingHash`
  unfoldable pub request_body_hash : Request → String
  request_body_hash r = h.of_request r

  unfoldable pub patch_hash : String → Option String → Option Labels → ℕ → String
  patch_hash id description labels etag = h.of_patch id description labels etag

  unfoldable pub binding_hash : String → Binding → String
  binding_hash id b = h.of_binding id b

  -- `idempotencyID`
  unfoldable pub idempotency_id : String → String → String → String → String
  idempotency_id tenant method path key = h.of_joined (tenant ∷ method ∷ path ∷ key ∷ [])

  -- `findingID`, whose fixed prefix is part of the text that the digest returns here.
  unfoldable pub finding_id : String → String → String
  finding_id code allocation_id = h.of_joined ("finding_" ∷ code ∷ allocation_id ∷ [])
