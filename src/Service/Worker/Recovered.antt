-- ===== src/Service/Worker/Recovered.antt =====
-- What a recovery of a reservation stands on (internal/service/worker.go).
use platform_ipam.Prelude.{
  List, ◌∷◌, Memᴰ, any, any-mem, ◌⊎◌, ℕ, ◌≡◌, sym, String, true, false, ◌&&◌, inl, inr, none, some,
  lookup, Option-cases, Bool-cases, ltb, ◌==◌, string_eq, arith, subst,
}
use platform_ipam.Netip.{Prefix}
use platform_ipam.Netip.Text.{parse_prefix}
use platform_ipam.Domain.Policy.{Config}
use platform_ipam.Domain.Errors.{Result-cases}
use platform_ipam.Domain.Rows.{Allocation, Resource, Observation}
use platform_ipam.Domain.State.{State}
use platform_ipam.Domain.Time.{sub, seconds}
use platform_ipam.Service.Digests.{Digests}
use platform_ipam.Service.Eligible.{domain_for}
use platform_ipam.Service.Observe.{trusted_observation}
use platform_ipam.Service.Raise.{worker_event}
use platform_ipam.Service.Reserve.Commit.{commit_recovered}
use platform_ipam.Service.Choose.{overlapping}
use platform_ipam.Service.Worker.{
  is_parent_vpc, is_own_resource, range_forbids, resource_forbids, answers, Answer-cases,
  uncertain_inventory_error, RecoveryJob, RecoveryOutside, observe, recovery_evidence,
  pending_reservation_observation_safe, flag_stuck_hold, flag_aged_reservation,
  reservation_recovered, recover_reservation,
}
use platform_ipam.Service.Worker.Held.{
  Uncommitted, Held, not_both, commit_recovered-Held, flag_stuck_hold-rows, resolve_finding-rows,
}

reservation_recovered-rows :
    (h : Digests) (out : RecoveryOutside) (a : Allocation) (st : State)
    → (reservation_recovered h out a st).allocations ≡ st.allocations
unfolding reservation_recovered worker_event
reservation_recovered-rows h out a st = resolve_finding-rows h a "reservation_stuck" _

-- Every range of the observation that overlaps the prefix is of the parent's VPC or of the
-- allocation's own resource.
abbrev pub Clear : Allocation → Observation → String → Prefix → Type 0
Clear a o parent want =
    (x : Resource) (raw : List ℕ) (got : Prefix)
    → Memᴰ x o.resources
    → Memᴰ raw (x.cidr ∷ x.cidrs)
    → overlapping want raw ≡ some got
    → (is_parent_vpc a parent want x got ≡ true) ⊎ (is_own_resource a x ≡ true)

forbids_none :
    (a : Allocation) (parent : String) (want : Prefix) (x : Resource)
    → resource_forbids a parent want x ≡ false
    → any (range_forbids a parent want x) (x.cidr ∷ x.cidrs) ≡ false
unfolding resource_forbids
forbids_none a parent want x h = h

clear_range :
    (a : Allocation) (parent : String) (want : Prefix) (x : Resource) (raw : List ℕ) (got : Prefix)
    → range_forbids a parent want x raw ≡ false
    → overlapping want raw ≡ some got
    → (is_parent_vpc a parent want x got ≡ true) ⊎ (is_own_resource a x ≡ true)
unfolding range_forbids
clear_range a parent want x raw got h hit = elim (Bool-cases (is_parent_vpc a parent want x got)) [
  | inl t ↦ inl t
  | inr t ↦ inr (ground (arith, h, hit, t))
]

safe-Clear :
    (a : Allocation) (o : Observation) (parent : String)
    → pending_reservation_observation_safe a o parent ≡ true
    → (want : Prefix) × (parse_prefix a.cidr ≡ some want) × Clear a o parent want
unfolding pending_reservation_observation_safe
safe-Clear a o parent t = elim (Option-cases (parse_prefix a.cidr)) [
  | inl n ↦ absurd (ground (arith, t, n))
  | inr (want, e) ↦ (
    want,
    e,
    λ x raw got m n hit.
        let none_in : any (resource_forbids a parent want) o.resources ≡ false =
          ground (arith, t, e) in
        clear_range a parent want x raw got
          (any-mem (range_forbids a parent want x) (x.cidr ∷ x.cidrs) raw
            (forbids_none a parent want x
              (any-mem (resource_forbids a parent want) o.resources x none_in m))
            n)
          hit,
  )
]

module _ (h : Digests) (cfg : Config) (j : RecoveryJob) (out : RecoveryOutside) (st : State)
    (k : String) (b : Allocation) where
  -- What the worker saw of a hold that it commits: a trusted observation, and the answer of the
  -- inventory, whose id the row takes.
  pub record Seen (o : Observation) (parent : String) : Type 0 where
    pub evidence : recovery_evidence cfg out j.allocation st ≡ some (o, parent)
    pub trusted :
        trusted_observation o
          (domain_for cfg j.allocation.domain_id)
          out.trust_clock
          cfg.lifecycle.max_observation_age
        ≡ true
    pub answered : out.converted ≡ answers b.inventory_id
    pub held : Held j.allocation.id k j.operation b.inventory_id b (out.before_update st)

  pub record Ensured : Type 0 where
    pub prefix : Prefix
    pub observation : Observation
    pub parent : String
    pub seen : Seen observation parent
    pub parsed : parse_prefix j.allocation.cidr ≡ some prefix
    pub clear : Clear j.allocation observation parent prefix
    pub usable : (b.inventory_id == "") ≡ false

  evidence-trusted :
      (o : Observation) (parent : String)
      → recovery_evidence cfg out j.allocation st ≡ some (o, parent)
      → trusted_observation o
          (domain_for cfg j.allocation.domain_id)
          out.trust_clock
          cfg.lifecycle.max_observation_age
        ≡ true
  unfolding recovery_evidence
  evidence-trusted o parent e =
      let d = domain_for cfg j.allocation.domain_id in
      elim (Result-cases (observe out.observed d)) [
        | inr (f, r) ↦ absurd (ground (arith, e, r))
        | inl (none, r) ↦ absurd (ground (arith, e, r))
        | inl (some x, r) ↦
            elim (Bool-cases
              (trusted_observation x d out.trust_clock cfg.lifecycle.max_observation_age)) [
                | inl t ↦ let same : x ≡ o = ground (arith, e, r, t) in rw (← same) t
                | inr t ↦ absurd (ground (arith, e, r, t))
              ]
      ]

  module _ (owned : b.committed ≡ true) (free : Uncommitted k st)
      (free' : Uncommitted k (out.before_update st)) where
    pub not_flagged :
        (code : String) (at : ℕ)
        → lookup k (flag_stuck_hold h j.allocation code at (out.before_update st)).allocations
          ≡ some b
        → ⊥
    not_flagged code at e =
        not_both b owned
          (free' b (rw (flag_stuck_hold-rows h j.allocation code at (out.before_update st)) at e))

    not_aged : lookup k (flag_aged_reservation h cfg j out st).allocations ≡ some b → ⊥
    unfolding flag_aged_reservation
    not_aged e =
        let d = seconds cfg.lifecycle.max_observation_age in
        elim (Bool-cases (ltb 0 d && ltb (sub out.age_clock j.operation.updated_at) d)) [
          | inl t ↦ not_both b owned (free b (rw (flag_aged_reservation, t) at e))
          | inr t ↦ not_flagged "reservation_stuck" out.clock (rw (flag_aged_reservation, t) at e)
        ]

    pub recovers :
        (inventory_id : String) (event : Allocation → State → State)
        → ((x : Allocation) (s : State) → (event x s).allocations ≡ s.allocations)
        → lookup k
            (commit_recovered j.allocation.id j.operation inventory_id out.clock event
              (out.before_update st)).allocations
          ≡ some b
        → Held j.allocation.id k j.operation inventory_id b (out.before_update st)
    recovers inventory_id event quiet e =
        commit_recovered-Held j.allocation.id j.operation inventory_id out.clock event
          (out.before_update st) quiet k b e owned free'

    pub seen :
        (o : Observation) (parent i : String)
        → recovery_evidence cfg out j.allocation st ≡ some (o, parent)
        → out.converted ≡ answers i
        → Held j.allocation.id k j.operation i b (out.before_update st)
        → Seen o parent
    seen o parent i s c held = record {
      evidence = s;
      trusted = evidence-trusted o parent s;
      answered = rw (held.named) c;
      held =
          subst (λ x. Held j.allocation.id k j.operation x b (out.before_update st))
            (sym held.named) held;
    }

    ensured :
        (o : Observation) (parent : String)
        → recovery_evidence cfg out j.allocation st ≡ some (o, parent)
        → pending_reservation_observation_safe j.allocation o parent ≡ true
        → (i : String) → out.converted ≡ answers i
        → (i == "") ≡ false
        → Held j.allocation.id k j.operation i b (out.before_update st)
        → Ensured
    ensured o parent s t i c u held =
        let (want, parsed, clear) = safe-Clear j.allocation o parent t in
        record {
          prefix = want;
          parsed = parsed;
          clear = clear;
          observation = o;
          parent = parent;
          seen = seen o parent i s c held;
          usable = rw (held.named) u;
        }

    -- When one round of `recoverReservations` leaves a committed row where neither the ledger
    -- before it nor the one its transaction found has one, the worker had a trusted observation
    -- in which every range that overlaps the held CIDR is of the parent's VPC or of a resource
    -- that carries the allocation's own tags, the inventory answered with the id that the row now
    -- has, and the row was a reserved hold whose pending operation is the job's.
    pub recover_reservation-Ensured :
        lookup k (recover_reservation h cfg j out st).allocations ≡ some b → Ensured
    unfolding recover_reservation
    recover_reservation-Ensured e =
        elim (Option-cases (recovery_evidence cfg out j.allocation st)) [
          | inl n ↦ absurd (not_both b owned (free b (rw (recover_reservation, n) at e)))
          | inr ((o, parent), s) ↦
              elim (Bool-cases (pending_reservation_observation_safe j.allocation o parent)) [
                | inr t ↦ absurd (not_aged (rw (recover_reservation, s, t) at e))
                | inl t ↦ elim (Answer-cases out.converted) [
                  | inr (x, c) ↦ elim (Bool-cases (uncertain_inventory_error x)) [
                    | inl u ↦
                        absurd
                          (not_both b owned (free b (rw (recover_reservation, s, t, c, u) at e)))
                    | inr u ↦ absurd (not_aged (rw (recover_reservation, s, t, c, u) at e))
                  ]
                  | inl (i, c) ↦ elim (Bool-cases (i == "")) [
                    | inl u ↦ absurd (not_aged (rw (recover_reservation, s, t, c, u) at e))
                    | inr u ↦ ensured o parent s t i c u (
                        recovers i (reservation_recovered h out) (reservation_recovered-rows h out)
                          (rw (recover_reservation, s, t, c, u) at e))
                  ]
                ]
              ]
        ]
