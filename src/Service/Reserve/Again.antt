-- ===== src/Service/Reserve/Again.antt =====
-- A request that is sent again after its plan was recorded.
use platform_ipam.Prelude.{
  ◌≡◌, refl, String, List, [], ◌∷◌, true, false, ◌⊎◌, inl, inr, none, some, values, lookup, insert,
  lookup-insert, All, All-map, All-insert, Option-cases, text_eq_iff, ◌==◌, string_eq, arith,
}
use platform_ipam.Domain.Errors.{Result-cases, ok}
use platform_ipam.Domain.Rows.{Operation, Observation}
use platform_ipam.Domain.State.{State}
use platform_ipam.Service.Observe.{record_observation}
use platform_ipam.Service.Withdrawal.{
  first_refusal, fenced_with, withdrawal_refusal, abandon_in_progress, abandoning_replay,
}
use platform_ipam.Service.Reserve.Replay.{
  Reply, copy_allocation, holder, replay_request, result_status,
}
use platform_ipam.Service.Reserve.Plan.{
  Planning, Planned, Selected, Selection, held_allocation, held_operation, hold, idempotency, join,
  plan_new, plan_tx, latest_observation,
}

module _ (st : State) (o : Observation) where
  recorded-allocations : (record_observation st o).allocations ≡ st.allocations
  unfolding record_observation
  recorded-allocations = ground arith

  recorded-operations : (record_observation st o).operations ≡ st.operations
  unfolding record_observation
  recorded-operations = ground arith

  recorded-requests : (record_observation st o).requests ≡ st.requests
  unfolding record_observation
  recorded-requests = ground arith

module _ (pl : Planning) (s : Selected) (st : State) where
  hold-rows :
      (hold pl s st).allocations
      ≡ insert pl.allocation_id (held_allocation pl s.cidr) st.allocations
  unfolding hold
  hold-rows = elim (Option-cases pl.observed) [
    | inl e ↦ rw e refl
    | inr (o, e) ↦ rw (e, recorded-allocations _ o) refl
  ]

  hold-operations :
      (hold pl s st).operations
      ≡ insert pl.operation_id (held_operation pl s.adoption) st.operations
  unfolding hold
  hold-operations = elim (Option-cases pl.observed) [
    | inl e ↦ rw e refl
    | inr (o, e) ↦ rw (e, recorded-operations _ o) refl
  ]

  hold-requests :
      (hold pl s st).requests
      ≡ insert pl.request_id (idempotency pl pl.allocation_id pl.operation_id) st.requests
  unfolding hold
  hold-requests = elim (Option-cases pl.observed) [
    | inl e ↦ rw e refl
    | inr (o, e) ↦ rw (e, recorded-requests _ o) refl
  ]

-- The operation withdraws no hold of the allocation.
abbrev Harmless : String → Operation → Type 0
Harmless id o = ((o.allocation_id == id) ≡ false) ⊎ (withdrawal_refusal o ≡ none)

first_refusal-none :
    (id : String) (os : List Operation) → All (Harmless id) os → first_refusal id os ≡ none
first_refusal-none id [] h = refl
first_refusal-none id (o ∷ os) h = elim h.0 [
  | inl e ↦ rw (e, first_refusal-none id os h.1) refl
  | inr e ↦ rw (e, first_refusal-none id os h.1) (ground arith)
]

found-insert {ℓ} :
    {V : Type ℓ} (k : String) (v : V) (m : List (String × V)) → lookup k (insert k v m) ≡ some v
found-insert k v m = ground (arith, lookup-insert k k v m, text_eq_iff k k)

module _ (pl : Planning) (s : Selected) (st : State)
    (unnamed : All
      (λ (o : Operation). (o.allocation_id == pl.allocation_id) ≡ false)
      (values st.operations)) where
  held_harmless : withdrawal_refusal (held_operation pl s.adoption) ≡ none
  unfolding withdrawal_refusal fenced_with held_operation
  held_harmless = ground arith

  hold-not_withdrawn : abandon_in_progress (hold pl s st) pl.allocation_id ≡ none
  unfolding abandon_in_progress
  hold-not_withdrawn = rw (hold-operations pl s st) (
      first_refusal-none pl.allocation_id
        (values (insert pl.operation_id (held_operation pl s.adoption) st.operations))
        (All-insert (Harmless pl.allocation_id) pl.operation_id (held_operation pl s.adoption)
          st.operations
          (All-map (λ (o : Operation). (o.allocation_id == pl.allocation_id) ≡ false)
            (Harmless pl.allocation_id) (λ o e. inl e) (values st.operations) unnamed)
          (inr held_harmless)))

  -- The answer of the plan.
  abbrev held_reply : Reply
  held_reply = record {
    allocation = some (copy_allocation (held_allocation pl s.cidr));
    operation = some (held_operation pl s.adoption);
    status = 202;
  }

  replay-hold :
      replay_request (hold pl s st) pl.body_hash (idempotency pl pl.allocation_id pl.operation_id)
      ≡ ok held_reply
  unfolding replay_request result_status abandoning_replay idempotency copy_allocation
      held_allocation held_operation
  replay-hold =
      let row : lookup pl.allocation_id (hold pl s st).allocations
          ≡ some (held_allocation pl s.cidr) =
        rw (hold-rows pl s st) (found-insert pl.allocation_id _ st.allocations) in
      let op : lookup pl.operation_id (hold pl s st).operations
          ≡ some (held_operation pl s.adoption) =
        rw (hold-operations pl s st) (found-insert pl.operation_id _ st.operations) in
      rw (row, op, hold-not_withdrawn) (ground (arith, text_eq_iff pl.body_hash pl.body_hash))

-- A plan that tells its caller to create the network has recorded a hold.
record Recorded (pl : Planning) (st : State) (planned : Planned) (st' : State) : Type 0 where
  selected : Selected
  after : hold pl selected st ≡ st'
  reply : planned.reply ≡ record {
    allocation = some (copy_allocation (held_allocation pl selected.cidr));
    operation = some (held_operation pl selected.adoption);
    status = 202;
  }

module _ (pl : Planning) (select : Selection) where
  plan_new-Recorded :
      (st : State) (planned : Planned) (st' : State)
      → plan_new pl select st ≡ ok (planned, st')
      → Recorded pl st planned st'
  unfolding plan_new
  plan_new-Recorded st planned st' h =
      elim (Result-cases (select st (latest_observation st pl.domain.id pl.planning_observation))) [
        | inr (f, e) ↦ absurd (ground (arith, h, e))
        | inl (s, e) ↦ record {
          selected = s;
          after = ground (arith, h, e);
          reply = ground (arith, h, e);
        }
      ]

  plan_tx-Recorded :
      (st : State) (planned : Planned) (st' : State)
      → plan_tx pl select st ≡ ok (planned, st')
      → planned.attempt ≡ true
      → Recorded pl st planned st'
  unfolding plan_tx join
  plan_tx-Recorded st planned st' h t = elim (Option-cases (lookup pl.request_id st.requests)) [
    | inr (old, e) ↦ elim (Result-cases (replay_request st pl.body_hash old)) [
      | inl (r, w) ↦ absurd (ground (arith, h, e, w, t))
      | inr (f, w) ↦ absurd (ground (arith, h, e, w))
    ]
    | inl e ↦ elim (Option-cases (holder st pl.principal.tenant_id pl.wanted.allocation_key)) [
      | inr (old, k) ↦ absurd (ground (arith, h, e, k, t))
      | inl k ↦ plan_new-Recorded st planned st' (ground (arith, h, e, k))
    ]
  ]

  -- Where a plan has told its caller to create the network, and no older operation names the new
  -- allocation, the same request sent again (the same idempotency key and body) gets the same
  -- reply, is not told to create anything, and leaves the ledger as it is, whatever else it finds.
  pub plan_tx-again :
      (st : State) (planned : Planned) (st' : State) (pl' : Planning) (select' : Selection)
      → plan_tx pl select st ≡ ok (planned, st')
      → planned.attempt ≡ true
      → All
          (λ (o : Operation). (o.allocation_id == pl.allocation_id) ≡ false)
          (values st.operations)
      → pl'.request_id ≡ pl.request_id
      → pl'.body_hash ≡ pl.body_hash
      → plan_tx pl' select' st' ≡ ok (record { reply = planned.reply; attempt = false }, st')
  unfolding plan_tx
  plan_tx-again st planned st' pl' select' h t unnamed i b =
      let r = plan_tx-Recorded st planned st' h t in
      let known : lookup pl'.request_id st'.requests
          ≡ some (idempotency pl pl.allocation_id pl.operation_id) =
        rw (i, ← r.after, hold-requests pl r.selected st)
          (found-insert pl.request_id _ st.requests) in
      let again : replay_request st' pl'.body_hash (idempotency pl pl.allocation_id pl.operation_id)
          ≡ ok planned.reply =
        rw (b, ← r.after, r.reply) (replay-hold pl r.selected st unnamed) in
      ground (arith, known, again)
