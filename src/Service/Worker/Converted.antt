-- ===== src/Service/Worker/Converted.antt =====
-- What a recovery of an adoption stands on (internal/service/worker.go).
use platform_ipam.Prelude.{
  ◌≡◌, ◌∙◌, String, true, inl, inr, some, lookup, Option-cases, Bool-cases, ◌==◌, string_eq,
  text_eq_iff, arith,
}
use platform_ipam.Netip.{Prefix}
use platform_ipam.Netip.Text.{parse_prefix}
use platform_ipam.Domain.Policy.{Config}
use platform_ipam.Domain.Errors.{Result-cases, ok}
use platform_ipam.Domain.Rows.{
  Allocation, Operation, Observation, Network, InventorySnapshot, AdoptionRecord,
}
use platform_ipam.Domain.State.{State}
use platform_ipam.Service.Digests.{Digests}
use platform_ipam.Service.Adopt.{
  reviewed_children, reviewed_network, reviewed_occupancy, adopted_the_reviewed,
}
use platform_ipam.Service.Worker.{
  answers, Answer-cases, uncertain_inventory_error, RecoveryJob, RecoveryOutside, recovery_evidence,
  adoption_recovered, flag_stuck_adoption, convert_adoption, review_adoption, observe_adoption,
  recover_adoption,
}
use platform_ipam.Service.Worker.Held.{Uncommitted, Held, not_both, resolve_finding-rows}
use platform_ipam.Service.Worker.Recovered.{Seen, seen, not_flagged, recovers}

adoption_recovered-rows :
    (h : Digests) (rec : AdoptionRecord) (out : RecoveryOutside) (a : Allocation) (st : State)
    → (adoption_recovered h rec out a st).allocations ≡ st.allocations
unfolding adoption_recovered
adoption_recovered-rows h rec out a st = resolve_finding-rows h a "adoption_stuck" _

reviewed_id :
    (o : Operation) (i : String) (rec : AdoptionRecord)
    → o.adoption ≡ some rec
    → adopted_the_reviewed o i ≡ true
    → i ≡ rec.network_id
unfolding adopted_the_reviewed
reviewed_id o i rec e t =
    let q : (i == rec.network_id) ≡ true = ground (arith, e, t) in
    (text_eq_iff i rec.network_id).0 q

module _ (h : Digests) (cfg : Config) (j : RecoveryJob) (out : RecoveryOutside) (st : State)
    (k : String) (b : Allocation) where
  -- The durable record of the adoption, and the review of the cloud and of the inventory that it
  -- still passes.
  pub record Converted : Type 0 where
    pub record_of : AdoptionRecord
    pub prefix : Prefix
    pub observation : Observation
    pub parent : String
    pub snapshot : InventorySnapshot
    pub network : Network
    pub recorded : j.operation.adoption ≡ some record_of
    pub parsed : parse_prefix j.allocation.cidr ≡ some prefix
    pub seen : Seen h cfg j out st k b observation parent
    pub alone :
        reviewed_occupancy observation prefix j.allocation.request record_of.resource_id parent
        ≡ ok tt
    pub read : out.snapshot ≡ answers snapshot
    pub complete : snapshot.complete ≡ true
    pub reviewed :
        reviewed_network snapshot prefix j.allocation.request record_of.network_id j.allocation.id (
          reviewed_children observation.resources j.allocation.request prefix record_of.resource_id)
        ≡ ok network
    pub same_object : b.inventory_id ≡ record_of.network_id

  module _ (owned : b.committed ≡ true) (free : Uncommitted k st)
      (free' : Uncommitted k (out.before_update st)) where
    not_stuck : lookup k (flag_stuck_adoption h j out st).allocations ≡ some b → ⊥
    unfolding flag_stuck_adoption
    not_stuck e = not_flagged h cfg j out st k b owned free free' "adoption_stuck" out.clock e

    module _ (rec : AdoptionRecord) where
      converts :
          lookup k (convert_adoption h j rec out st).allocations ≡ some b
          → (i : String) × (out.converted ≡ answers i)
            × (adopted_the_reviewed j.operation i ≡ true)
            × Held j.allocation.id k j.operation i b (out.before_update st)
      unfolding convert_adoption
      converts e = elim (Answer-cases out.converted) [
        | inr (x, c) ↦ elim (Bool-cases (uncertain_inventory_error x)) [
          | inl u ↦ absurd (not_both b owned (free b (rw (convert_adoption, c, u) at e)))
          | inr u ↦ absurd (not_stuck (rw (convert_adoption, c, u) at e))
        ]
        | inl (i, c) ↦ elim (Bool-cases (adopted_the_reviewed j.operation i)) [
          | inr u ↦ absurd (not_stuck (rw (convert_adoption, c, u) at e))
          | inl u ↦ (
            i,
            c,
            u,
            recovers h cfg j out st k b owned free free' i (adoption_recovered h rec out)
                (adoption_recovered-rows h rec out) (rw (convert_adoption, c, u) at e),
          )
        ]
      ]

      reviews :
          (p : Prefix) (o : Observation)
          → lookup k (review_adoption h j rec p o out st).allocations ≡ some b
          → (snap : InventorySnapshot) × (network : Network) × (out.snapshot ≡ answers snap)
            × (snap.complete ≡ true)
            × (reviewed_network snap p j.allocation.request rec.network_id j.allocation.id
                  (reviewed_children o.resources j.allocation.request p rec.resource_id)
                ≡ ok network)
            × (lookup k (convert_adoption h j rec out st).allocations ≡ some b)
      unfolding review_adoption lookup reviewed_network
      reviews p o e = elim (Answer-cases out.snapshot) [
        | inr (x, c) ↦ absurd (not_both b owned (free b (rw (review_adoption, c) at e)))
        | inl (snap, c) ↦ elim (Bool-cases snap.complete) [
          | inr u ↦ absurd (not_both b owned (free b (rw (review_adoption, c, u) at e)))
          | inl u ↦
              elim (Result-cases (
                reviewed_network snap p j.allocation.request rec.network_id j.allocation.id
                  (reviewed_children o.resources j.allocation.request p rec.resource_id))) [
                    | inr (f, v) ↦ absurd (not_stuck (rw (review_adoption, c, u, v) at e))
                    | inl (network, v) ↦
                        (snap, network, c, u, v, rw (review_adoption, c, u, v) at e)
                  ]
        ]
      ]

      observes :
          (p : Prefix)
          → lookup k (observe_adoption h cfg j rec p out st).allocations ≡ some b
          → (o : Observation) × (parent : String) × (recovery_evidence cfg out j.allocation st
              ≡ some (o, parent))
            × (reviewed_occupancy o p j.allocation.request rec.resource_id parent ≡ ok tt)
            × (lookup k (review_adoption h j rec p o out st).allocations ≡ some b)
      unfolding observe_adoption
      observes p e = elim (Option-cases (recovery_evidence cfg out j.allocation st)) [
        | inl n ↦ absurd (not_both b owned (free b (rw (observe_adoption, n) at e)))
        | inr ((o, parent), s) ↦
            elim (Result-cases
              (reviewed_occupancy o p j.allocation.request rec.resource_id parent)) [
                | inr (f, v) ↦ absurd (not_stuck (rw (observe_adoption, s, v) at e))
                | inl (u, v) ↦ (o, parent, s, v, rw (observe_adoption, s, v) at e)
              ]
      ]

    -- When one round of `recoverAdoptions` leaves a committed row where neither the ledger before
    -- it nor the one its transaction found has one, the operation has an adoption record, a
    -- trusted observation and a complete snapshot still pass the review of that record, the
    -- inventory answered with the reviewed network's id, which the row now has, and the row was a
    -- reserved hold whose pending operation is the job's.
    pub recover_adoption-Converted :
        lookup k (recover_adoption h cfg j out st).allocations ≡ some b → Converted
    unfolding recover_adoption
    recover_adoption-Converted e = elim (Option-cases j.operation.adoption) [
      | inl n ↦ absurd (not_stuck (rw (recover_adoption, n) at e))
      | inr (rec, r) ↦ elim (Option-cases (parse_prefix j.allocation.cidr)) [
        | inl n ↦ absurd (not_stuck (rw (recover_adoption, r, n) at e))
        | inr (p, q) ↦
            let (o, parent, s, alone, e') = observes rec p (rw (recover_adoption, r, q) at e) in
            let (snap, network, read, full, rev, e'') = reviews rec p o e' in
            let (i, c, same, held) = converts rec e'' in
            record {
              record_of = rec;
              prefix = p;
              observation = o;
              parent = parent;
              snapshot = snap;
              network = network;
              recorded = r;
              parsed = q;
              seen = seen h cfg j out st k b owned free free' o parent i s c held;
              alone = alone;
              read = read;
              complete = full;
              reviewed = rev;
              same_object = held.named ∙ reviewed_id j.operation i rec r same;
            }
      ]
    ]
