-- ===== src/Service/Lifecycle/Changes.antt =====
-- What `Patch`, `finishBinding` and `Release` have done when they answer.
use platform_ipam.Prelude.{
  ℕ, ◌+◌, ◌≡◌, ◌∙◌, ap, String, true, false, inl, inr, Option, none, some, lookup, insert,
  lookup-insert, Option-cases, text_eq_iff, ◌==◌, string_eq, nat_eq, arith,
}
use platform_ipam.Domain.Policy.{Principal, Labels}
use platform_ipam.Domain.Errors.{Result-cases, ok, fail}
use platform_ipam.Domain.Rows.{Allocation}
use platform_ipam.Domain.State.{State}
use platform_ipam.Service.Digests.{Digests}
use platform_ipam.Service.Reserve.Replay.{is_retired}
use platform_ipam.Service.Lifecycle.{
  Stamp, cloned, owned, patch_request_id, patched, new_patch, patch_tx, patch,
}

-- A patch writes the description and the labels only, and counts the revision up.
abbrev pub relabelled : Allocation → String → Labels → ℕ → Allocation
relabelled a d l now = record a {
  request = record a.request { description = d; labels = l };
  revision = a.revision + 1;
  updated_at = now;
}

pub record Relabelled (a b : Allocation) (now : ℕ) : Type 0 where
  pub description : String
  pub labels : Labels
  pub same : relabelled a description labels now ≡ b

module _ (h : Digests) (p : Principal) (id key : String) (etag : ℕ) (stamp : Stamp) where
  pub patched-Relabelled :
      (description : Option String) (labels : Option Labels) (a b : Allocation)
      → patched h p id key description labels etag stamp a ≡ ok b
      → Relabelled a b stamp.now
  unfolding patched
  patched-Relabelled none none a b e = absurd (ground (arith, e))
  patched-Relabelled (some d) none a b e = record {
    description = d;
    labels = a.labels;
    same = ground (arith, e);
  }
  patched-Relabelled none (some l) a b e = record {
    description = a.description;
    labels = cloned l;
    same = ground (arith, e);
  }
  patched-Relabelled (some d) (some l) a b e = record {
    description = d;
    labels = cloned l;
    same = ground (arith, e);
  }

  -- A patch that was carried out.
  pub record Patched (st : State) (b : Allocation) (st' : State) : Type 0 where
    pub row : Allocation
    pub found : lookup id st.allocations ≡ some row
    pub own : (row.tenant_id == p.tenant_id) ≡ true
    pub committed : row.committed ≡ true
    pub kept : is_retired row.state ≡ false
    pub current : row.revision ≡ etag
    pub change : Relabelled row b stamp.now
    pub stored : st'.allocations ≡ insert id b st.allocations

  patch-Patched :
      (description : Option String) (labels : Option Labels) (st : State) (b : Allocation)
      (st' : State)
      → lookup (patch_request_id h p id key description labels etag stamp) st.requests ≡ none
      → patch h p id key description labels etag stamp st ≡ ok (b, st')
      → Patched st b st'
  unfolding patch patch_tx new_patch owned
  patch-Patched description labels st b st' r e = elim (Option-cases (lookup id st.allocations)) [
    | inl m ↦ absurd (ground (arith, e, r, m))
    | inr (a, m) ↦ elim (Result-cases (patched h p id key description labels etag stamp a)) [
      | inr (f, w) ↦ absurd (ground (arith, e, r, m, w))
      | inl (c, w) ↦
          let same : c ≡ b = ground (arith, e, r, m, w) in
          record {
            row = a;
            found = m;
            own = ground (arith, e, r, m, w);
            committed = ground (arith, e, r, m, w);
            kept = ground (arith, e, r, m, w);
            current = ground (arith, e, r, m, w);
            change = patched-Relabelled description labels a b (w ∙ ap ok same);
            stored = ground (arith, e, r, m, w);
          }
    ]
  ]

  module _ (key' : String) (stamp' : Stamp) where
    -- After a patch under a new key, a second patch under another new key with the same revision is
    -- refused: the row has moved on, whatever the second one asks for.
    pub patch-stale :
        (description description' : Option String) (labels labels' : Option Labels) (st : State)
        (b : Allocation) (st' : State)
        → lookup (patch_request_id h p id key description labels etag stamp) st.requests ≡ none
        → patch h p id key description labels etag stamp st ≡ ok (b, st')
        → (key' == "") ≡ false
        → lookup (patch_request_id h p id key' description' labels' etag stamp') st'.requests ≡ none
        → patch h p id key' description' labels' etag stamp' st' ≡ fail 412 "revision_conflict"
    unfolding patch patch_tx new_patch owned
    patch-stale description description' labels labels' st b st' r e k r' =
        let q = patch-Patched description labels st b st' r e in
        let at : lookup id st'.allocations ≡ some b =
          rw q.stored (ground (arith, lookup-insert id id b st.allocations, text_eq_iff id id)) in
        ground (arith, r', k, at, q.own, q.committed, q.kept, q.current, q.change.same)
