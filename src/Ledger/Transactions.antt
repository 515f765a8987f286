-- ===== src/Ledger/Transactions.antt =====
-- What each transaction of the service does to the rows of the ledger.
use platform_ipam.Prelude.{
  ℕ, ◌≡◌, any-mem, refl, sym, ◌∙◌, ap, List, false, ◌&&◌, inl, inr, none, some, values, lookup,
  insert, All, All-map, All-of_mem, find_first-none, Option-cases, text_eq_iff, ◌==◌, string_eq,
  arith, some_eq,
}
use platform_ipam.Domain.Errors.{Result-cases, ok}
use platform_ipam.Domain.Rows.{Allocation, Observation, InventorySnapshot}
use platform_ipam.Domain.State.{State}
use platform_ipam.Service.Observe.{record_observation}
use platform_ipam.Service.Choose.{choose_cidr, allocation_blocks}
use platform_ipam.Service.Choose.Sound.{choose_cidr-Choice}
use platform_ipam.Service.Choose.Free.{unblocked, allocation_free}
use platform_ipam.Service.Adopt.{Pin, pinned_cidr, adoption_selection}
use platform_ipam.Service.Adopt.Pinned.{pinned_cidr-Pinned}
use platform_ipam.Netip.{Prefix}
use platform_ipam.Netip.Text.{parse_prefix}
use platform_ipam.Service.Reserve.Replay.{holder}
use platform_ipam.Service.Reserve.Plan.{
  Planning, Planned, Selected, reservation_selection, held_allocation, hold, join, plan_new,
  plan_tx, latest_observation, Selection,
}
use platform_ipam.Ledger.{Apart, Distinct, Change, same, add}

pub record_observation-allocations :
    (st : State) (o : Observation) → (record_observation st o).allocations ≡ st.allocations
unfolding record_observation
record_observation-allocations st o = ground arith

module _ (pl : Planning) where
  hold-allocations :
      (s : Selected) (st : State)
      → (hold pl s st).allocations
        ≡ insert pl.allocation_id (held_allocation pl s.cidr) st.allocations
  unfolding hold
  hold-allocations s st = elim (Option-cases pl.observed) [
    | inl e ↦ rw e refl
    | inr (o, e) ↦ rw e (record_observation-allocations _ o)
  ]

  -- A new key of the tenant.
  holder-Distinct :
      (cidr : List ℕ) (st : State)
      → holder st pl.principal.tenant_id pl.wanted.allocation_key ≡ none
      → All (λ a. Distinct a (held_allocation pl cidr)) (values st.allocations)
  unfolding holder held_allocation
  holder-Distinct cidr st h =
      All-map
        (λ (a : Allocation).
          (a.tenant_id == pl.principal.tenant_id && a.allocation_key == pl.wanted.allocation_key)
          ≡ false)
        (λ a. Distinct a (held_allocation pl cidr))
        (λ (a : Allocation) e t k. ground (
          arith,
          e,
          text_eq_iff a.tenant_id pl.principal.tenant_id,
          text_eq_iff a.allocation_key pl.wanted.allocation_key,
          t,
          k,
        ))
        (values st.allocations)
        (find_first-none
          (λ (a : Allocation).
            a.tenant_id == pl.principal.tenant_id && a.allocation_key == pl.wanted.allocation_key)
          (values st.allocations) h)

  -- A block that no row blocks is apart from every row.
  unblocked-Apart :
      (cidr : List ℕ) (block : Prefix) (a : Allocation)
      → parse_prefix cidr ≡ some block
      → pl.pool.domain_id ≡ pl.domain.id
      → allocation_blocks pl.pool block pl.wanted a ≡ false
      → Apart a (held_allocation pl cidr)
  unfolding held_allocation
  unblocked-Apart cidr block a e d b p q ep eq o live _ same_domain =
      let at : block ≡ q = some_eq (sym e ∙ eq) in
      let free = unblocked pl.pool block pl.wanted a p b ep (rw at o) in
      ground (arith, free, live, d, same_domain, at, text_eq_iff a.domain_id pl.pool.domain_id)

  -- The selection gives a block that no row blocks.
  pub Unblocking : Selection → Type 0
  Unblocking select =
      (st : State) (latest : Observation) (s : Selected)
      → select st latest ≡ ok s
      → (block : Prefix) × (parse_prefix s.cidr ≡ some block)
        × All (λ a. allocation_blocks pl.pool block pl.wanted a ≡ false) (values st.allocations)

  pub reservation-Unblocking :
      (snap : InventorySnapshot) → Unblocking (reservation_selection pl.pool pl.wanted snap)
  unfolding reservation_selection Unblocking
  reservation-Unblocking snap st latest s h =
      elim (Option-cases (choose_cidr pl.pool pl.wanted snap latest st)) [
        | inl e ↦ absurd (ground (arith, h, e))
        | inr (cidr, e) ↦
            let c = choose_cidr-Choice pl.pool pl.wanted snap latest st cidr e in
            let is : cidr ≡ s.cidr = ground (arith, h, e) in
            (
              c.block,
              ap parse_prefix (sym is) ∙ c.block_text,
              All-of_mem (λ a. allocation_blocks pl.pool c.block pl.wanted a ≡ false)
                  (values st.allocations)
                  (λ a m.
                    allocation_free pl.pool pl.wanted snap latest st c.block c.lowest.passes a m),
            )
      ]

  pub adoption-Unblocking :
      (pin : Pin) (snap : InventorySnapshot)
      → Unblocking (adoption_selection pin pl.pool pl.wanted snap)
  unfolding adoption_selection Unblocking
  adoption-Unblocking pin snap st latest s h =
      elim (Result-cases (pinned_cidr pl.pool pl.wanted snap latest st pin)) [
        | inr (f, e) ↦ absurd (ground (arith, h, e))
        | inl ((cidr, reviewed), e) ↦
            let (block, q, _) =
              pinned_cidr-Pinned pl.pool pl.wanted snap latest st pin cidr reviewed e in
            let is : cidr ≡ s.cidr = ground (arith, h, e) in
            (
              block,
              ap parse_prefix (sym is) ∙ q.block_text,
              All-of_mem (λ a. allocation_blocks pl.pool block pl.wanted a ≡ false)
                  (values st.allocations)
                  (λ a m.
                    any-mem (allocation_blocks pl.pool block pl.wanted) (values st.allocations) a
                      q.unheld m),
            )
      ]

  module _ (select : Selection) (unblocking : Unblocking select) where
    abbrev latest : State → Observation
    latest st = latest_observation st pl.domain.id pl.planning_observation

    -- What a new hold comes from.
    record Held (st : State) (st' : State) : Type 0 where
      selected : Selected
      chosen : select st (latest st) ≡ ok selected
      after : hold pl selected st ≡ st'

    plan_new-Held :
        (st : State) (planned : Planned) (st' : State)
        → plan_new pl select st ≡ ok (planned, st')
        → Held st st'
    unfolding plan_new
    plan_new-Held st planned st' h = elim (Result-cases (select st (latest st))) [
      | inr (f, e) ↦ absurd (ground (arith, h, e))
      | inl (s, e) ↦ record { selected = s; chosen = e; after = ground (arith, h, e) }
    ]

    plan_new-Change :
        (st : State) (planned : Planned) (st' : State)
        → lookup pl.allocation_id st.allocations ≡ none
        → pl.pool.domain_id ≡ pl.domain.id
        → holder st pl.principal.tenant_id pl.wanted.allocation_key ≡ none
        → plan_new pl select st ≡ ok (planned, st')
        → Change st.allocations st'.allocations
    unfolding Unblocking
    plan_new-Change st planned st' fresh d key h =
        let held = plan_new-Held st planned st' h in
        let cidr = held.selected.cidr in
        let (block, text, free) = unblocking st (latest st) held.selected held.chosen in
        let rows : st'.allocations
            ≡ insert pl.allocation_id (held_allocation pl cidr) st.allocations =
          ap (λ (s : State). s.allocations) (sym held.after) ∙ hold-allocations held.selected st in
        rw rows (
          add pl.allocation_id (held_allocation pl cidr) fresh (unfold held_allocation in refl)
            (unfold held_allocation in λ e. absurd cc) (holder-Distinct cidr st key)
            (All-map (λ (a : Allocation). allocation_blocks pl.pool block pl.wanted a ≡ false)
              (λ a. Apart a (held_allocation pl cidr))
              (λ a b. unblocked-Apart cidr block a text d b) (values st.allocations) free))

    join-allocations :
        (old : Allocation) (st : State) → (join pl old st).1.allocations ≡ st.allocations
    unfolding join
    join-allocations old st = refl

    -- The plan adds one row, or leaves the rows.
    pub plan_tx-Change :
        (st : State) (planned : Planned) (st' : State)
        → lookup pl.allocation_id st.allocations ≡ none
        → pl.pool.domain_id ≡ pl.domain.id
        → plan_tx pl select st ≡ ok (planned, st')
        → Change st.allocations st'.allocations
    unfolding plan_tx
    plan_tx-Change st planned st' fresh d h =
        elim (Option-cases (lookup pl.request_id st.requests)) [
          | inr (old, e) ↦ let unchanged : st ≡ st' = ground (arith, h, e) in rw (← unchanged) same
          | inl e ↦
              elim (Option-cases (holder st pl.principal.tenant_id pl.wanted.allocation_key)) [
                | inl k ↦ plan_new-Change st planned st' fresh d k (ground (arith, h, e, k))
                | inr (old, k) ↦
                    let after : (join pl old st).1 ≡ st' = ground (arith, h, e, k) in
                    rw (← after, join-allocations old st) same
              ]
        ]
