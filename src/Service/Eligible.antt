-- ===== src/Service/Eligible.antt =====
-- The small tests of internal/service/service.go: eligibility, quotas, lookups over the state.
use Prim.Native.Char.{code}
use Prim.Native.String.{len}
use text.Mathlib.Text.{starts_with}
use platform_ipam.Prelude.{
  ℕ, String, List, [], ◌∷◌, Bool, true, false, not, ◌&&◌, ◌||◌, Option, none, some, any, count_if,
  find_first, values, ◌==◌, string_eq, nat_eq, leb, ltb, length, lookup, if◌then◌else◌,
}
use platform_ipam.Domain.Policy.{Domain, Config, Labels}
use platform_ipam.Domain.Rows.{Operation, Binding, is_released, is_pending}
use platform_ipam.Domain.State.{State, or_zero}

-- `eligibleString` and `containsInt`: an empty list admits everything.
unfoldable pub eligible_string : List String → String → Bool
eligible_string [] v = true
eligible_string (x ∷ xs) v = any (λ y. y == v) (x ∷ xs)

unfoldable pub contains_int : List ℕ → ℕ → Bool
contains_int [] v = true
contains_int (x ∷ xs) v = any (λ y. y == v) (x ∷ xs)

-- `parentResourceMatches`
unfoldable pub parent_resource_matches : State → String → String → Bool
parent_resource_matches st parent_id resource_id =
    if parent_id == "" then false else elim (lookup parent_id st.allocations) [
      | none ↦ false
      | some parent ↦ elim parent.binding [ none ↦ false | some b ↦ b.resource_id == resource_id ]
    ]

-- `pendingForAllocation` and `pendingDomain`: the first hit of the iteration.
unfoldable pub pending_for_allocation : State → String → Option Operation
pending_for_allocation st id =
    find_first (λ o. o.allocation_id == id && is_pending o.status) (values st.operations)

unfoldable pub pending_domain : State → String → Option Operation
pending_domain st id =
    find_first (λ o. o.domain_id == id && is_pending o.status) (values st.operations)

-- `countTenant` and `countChildren`
unfoldable pub count_tenant : State → String → String → ℕ
count_tenant st tenant pool =
    count_if (λ a. a.tenant_id == tenant && a.pool_id == pool && not (is_released a.state))
      (values st.allocations)

unfoldable pub count_children : State → String → ℕ
count_children st id =
    count_if (λ a. a.parent_allocation_id == id && not (is_released a.state))
      (values st.allocations)

-- `domainFor`: a domain that is not configured has no coverage.
unfoldable pub domain_for : Config → String → Domain
domain_for cfg id =
    or_zero
      (record {
        id = id;
        description = "";
        coverage_generation = "";
        backend = record {
          kind = "";
          vrf_id = 0;
          require_unique_prefixes = false;
          parent_prefix_id = 0;
        };
        cloud_coverage = [];
      })
      (find_first (λ d. d.id == id) cfg.domains)

-- `sameBinding`: the verification time is not compared.
unfoldable pub same_binding : Binding → Binding → Bool
same_binding a b =
    a.provider == b.provider
    && a.resource_type == b.resource_type
    && a.resource_id == b.resource_id
    && a.account_id == b.account_id
    && a.region == b.region

is_alphanumeric : ℕ → Bool
is_alphanumeric c =
    (leb b'a' c && leb c b'z') || (leb b'A' c && leb c b'Z') || (leb b'0' c && leb c b'9')

is_key_char : ℕ → Bool
unfolding is_alphanumeric
is_key_char c = is_alphanumeric c || c == b'.' || c == b'_' || c == b'-' || c == b'/'

all_key_chars : String → Bool
unfolding is_key_char
all_key_chars String.[] = true
all_key_chars (String.◌∷◌ c s) = is_key_char (code c) && all_key_chars s

key_chars : String → Bool
unfolding is_alphanumeric all_key_chars
key_chars String.[] = true
key_chars (String.◌∷◌ c s) = is_alphanumeric (code c) && all_key_chars s

-- `validKey`: 1 to 128 bytes, the first one a letter or a digit.
unfoldable pub valid_key : String → Bool
unfolding key_chars
valid_key s = if ltb (len s) 1 || ltb 128 (len s) then false else key_chars s

bad_label : String × String → Bool
bad_label (k, v) = len k == 0 || ltb 64 (len k) || ltb 256 (len v) || starts_with k "platform-ipam/"

-- `validateLabels`, as a test.
unfoldable pub valid_labels : Labels → Bool
unfolding bad_label
valid_labels none = true
valid_labels (some labels) = if ltb 20 (length labels) then false else not (any bad_label labels)
