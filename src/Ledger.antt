-- ===== src/Ledger.antt =====
-- The allocations of the ledger under the service's transactions (internal/service/service.go): how
-- a transaction may change the rows, and what every reachable ledger keeps.
pub mod Changes
pub mod Transactions
pub mod Upkeep
pub mod Recovery
pub mod Settling
pub mod Withdrawals
pub mod Rounds
pub mod Passes
pub mod Steps
pub mod Persists
pub mod Reclaimed
use platform_ipam.Prelude.{
  remove, ℕ, ◌≤◌, ◌≡◌, ◌≢◌, String, List, ◌∷◌, Bool, true, false, Option, none, some, values,
  lookup, insert, All, AllPairs,
}
use platform_ipam.Netip.{Prefix, overlaps, contains}
use platform_ipam.Netip.Text.{parse_prefix}
use platform_ipam.Domain.Rows.{
  Allocation, AllocationState, unset, reserved, active, quarantined, released, is_released,
}

-- The life of an allocation, forward only.
pub data Moves : AllocationState → AllocationState → Type 0 where
  stays : {s : AllocationState} → Moves s s
  binds : Moves reserved active
  gives_up : Moves reserved quarantined
  retires : Moves active quarantined
  ends : Moves quarantined released

-- What no transaction changes of a row, and how the rest may change.
pub record Continues (a b : Allocation) : Type 0 where
  pub id : b.id ≡ a.id
  pub tenant : b.tenant_id ≡ a.tenant_id
  pub key : b.allocation_key ≡ a.allocation_key
  pub domain : b.domain_id ≡ a.domain_id
  pub scope : b.scope ≡ a.scope
  pub parent : b.parent_allocation_id ≡ a.parent_allocation_id
  pub space : b.cidr ≡ a.cidr
  pub moves : Moves a.state b.state
  pub revision : a.revision ≤ b.revision
  pub owned : a.committed ≡ true → b.committed ≡ true

-- The subnet `a` lies in its parent `b`.
pub record Inside (a b : Allocation) (p q : Prefix) : Type 0 where
  pub scope : a.scope ≡ "subnet"
  pub parent : b.id ≡ a.parent_allocation_id
  pub contained : contains q p.addr ≡ true

abbrev pub Live : Allocation → Type 0
Live a = is_released a.state ≡ false

-- Two live allocations of a domain whose prefixes overlap are a subnet and its parent.
abbrev pub Apart : Allocation → Allocation → Type 0
Apart a b =
    (p q : Prefix)
    → parse_prefix a.cidr ≡ some p
    → parse_prefix b.cidr ≡ some q
    → overlaps q p ≡ true
    → Live a
    → Live b
    → a.domain_id ≡ b.domain_id
    → Inside b a q p

-- Two allocations of a tenant have different keys.
abbrev pub Distinct : Allocation → Allocation → Type 0
Distinct a b = a.tenant_id ≡ b.tenant_id → a.allocation_key ≡ b.allocation_key → ⊥

abbrev pub Keyed : List (String × Allocation) → Type 0
Keyed m = All (λ (e : String × Allocation). e.1.id ≡ e.0) m

-- What a ledger keeps: rows under their own ids, keys that differ, and space that is disjoint. A
-- row that is inserted comes behind the older ones, so the later of two is the subnet.
pub record IsSound (m : List (String × Allocation)) : Type 0 where
  pub keyed : Keyed m
  pub begun : All (λ (a : Allocation). a.state ≢ unset) (values m)
  pub keys : AllPairs Distinct (values m)
  pub space : AllPairs Apart (values m)

-- A transaction leaves the rows, replaces one, adds one under a new id, or withdraws one that is
-- not committed.
pub data Change : List (String × Allocation) → List (String × Allocation) → Type 0 where
  same : {m : List (String × Allocation)} → Change m m
  replace :
      {m : List (String × Allocation)} (k : String) (a b : Allocation)
      → lookup k m ≡ some a
      → Continues a b
      → Change m (insert k b m)
  add :
      {m : List (String × Allocation)} (k : String) (b : Allocation)
      → lookup k m ≡ none
      → b.id ≡ k
      → b.state ≢ unset
      → All (λ a. Distinct a b) (values m)
      → All (λ a. Apart a b) (values m)
      → Change m (insert k b m)
  withdraw :
      {m : List (String × Allocation)} (k : String) (a : Allocation)
      → lookup k m ≡ some a
      → a.committed ≡ false
      → Change m (remove k m)

-- One change after another.
pub data Course : List (String × Allocation) → List (String × Allocation) → Type 0 where
  unmoved : {m : List (String × Allocation)} → Course m m
  onward : {m n o : List (String × Allocation)} → Change m n → Course n o → Course m o
