-- ===== src/Service/Lifecycle/Quarantine.antt =====
-- What `Release` makes of the row, and of the pending verifications of its bindings.
use platform_ipam.Prelude.{
  ℕ, ◌+◌, ◌*◌, ◌≡◌, ◌≢◌, none, ◌&&◌, nat_eq, refl, String, List, [], ◌∷◌, true, false, inl, inr,
  some, lookup, Bool-cases, ◌==◌, string_eq, arith,
}
use platform_ipam.Domain.Policy.{Config}
use platform_ipam.Domain.Errors.{api_error}
use platform_ipam.Domain.Rows.{Allocation, Operation, is_pending, is_bind, failed, quarantined}
use platform_ipam.Service.Lifecycle.{ends_binding, fail_binding, map_values, released_by}

-- A row that a release has quarantined, compared with the one before.
pub record Quarantined (cfg : Config) (row : Allocation) (now : ℕ) (b : Allocation) : Type 0 where
  pub state : b.state ≡ quarantined
  pub requested : b.release_requested_at ≡ some now
  pub default_until :
      cfg.lifecycle.quarantine_hours ≡ 0 → b.quarantine_until ≡ some (now + 168 * 3_600_000_000_000)
  pub until :
      cfg.lifecycle.quarantine_hours ≢ 0
      → b.quarantine_until ≡ some (now + cfg.lifecycle.quarantine_hours * 3_600_000_000_000)
  pub pending_sync : b.inventory_sync ≡ "PENDING"
  pub revised : b.revision ≡ row.revision + 1
  pub kept : b ≡ record row {
    state = b.state;
    inventory_sync = b.inventory_sync;
    release_requested_at = b.release_requested_at;
    quarantine_until = b.quarantine_until;
    updated_at = b.updated_at;
    revision = b.revision;
    release_blockers = b.release_blockers;
  }

pub lookup-map_values-some :
    (f : Operation → Operation) (k : String) (o : Operation) (m : List (String × Operation))
    → lookup k m ≡ some o
    → lookup k (map_values f m) ≡ some (f o)
unfolding lookup
lookup-map_values-some f k o [] e = absurd cc
lookup-map_values-some f k o ((j, x) ∷ m) e = elim (Bool-cases (j == k)) [
  | inl t ↦ let same : x ≡ o = ground (arith, e, t) in rw (t, same) refl
  | inr t ↦ rw t (lookup-map_values-some f k o m (ground (arith, e, t)))
]

pub lookup-map_values-none :
    (f : Operation → Operation) (k : String) (m : List (String × Operation))
    → lookup k m ≡ none
    → lookup k (map_values f m) ≡ none
unfolding lookup
lookup-map_values-none f k [] e = refl
lookup-map_values-none f k ((j, x) ∷ m) e = elim (Bool-cases (j == k)) [
  | inl t ↦ absurd (ground (arith, e, t))
  | inr t ↦ rw t (lookup-map_values-none f k m (ground (arith, e, t)))
]

module _ (cfg : Config) (a : Allocation) (now : ℕ) where
  released_by-until :
      cfg.lifecycle.quarantine_hours ≢ 0
      → (released_by cfg a now).quarantine_until
        ≡ some (now + cfg.lifecycle.quarantine_hours * 3_600_000_000_000)
  unfolding released_by
  released_by-until n =
      let t : (cfg.lifecycle.quarantine_hours == 0) ≡ false = ground (arith, n) in rw t refl

  released_by-default_until :
      cfg.lifecycle.quarantine_hours ≡ 0
      → (released_by cfg a now).quarantine_until ≡ some (now + 168 * 3_600_000_000_000)
  unfolding released_by
  released_by-default_until z = rw z refl

  pub released_by-Quarantined : Quarantined cfg a now (released_by cfg a now)
  unfolding released_by
  released_by-Quarantined = record {
    state = refl;
    requested = refl;
    default_until = released_by-default_until;
    until = released_by-until;
    pending_sync = refl;
    revised = refl;
    kept = refl;
  }

module _ (id : String) (now : ℕ) (o : Operation) where
  pub fail_binding-fails :
      (o.allocation_id == id && is_pending o.status && is_bind o.type) ≡ true
      → fail_binding id now o ≡ record o {
        status = failed;
        error = some (api_error 409 "allocation_key_retired");
        updated_at = now;
      }
  unfolding fail_binding ends_binding
  fail_binding-fails t = rw t refl

  pub fail_binding-spares :
      (o.allocation_id == id && is_pending o.status && is_bind o.type) ≡ false
      → fail_binding id now o ≡ o
  unfolding fail_binding ends_binding
  fail_binding-spares t = rw t refl
