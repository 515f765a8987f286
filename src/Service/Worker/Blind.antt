-- ===== src/Service/Worker/Blind.antt =====
-- An observation that falls short is not passed over: `Tick` of internal/service/service.go.
use platform_ipam.Prelude.{
  ℕ, ◌≡◌, refl, ap, ◌∙◌, String, List, [], ◌∷◌, Bool, true, ◌&&◌, inl, inr, Option, some, ◌==◌,
  string_eq, text_eq_iff, lookup, lookup-insert_self, Bool-cases, arith, subst,
}
use platform_ipam.Domain.Policy.{Domain}
use platform_ipam.Domain.Errors.{Result}
use platform_ipam.Domain.Rows.{Allocation, Observation}
use platform_ipam.Domain.State.{State}
use platform_ipam.Service.Digests.{Digests, finding_id}
use platform_ipam.Service.Observe.{record_observation}
use platform_ipam.Service.Worker.Reconcile.{is_reconciled}
use platform_ipam.Service.Worker.Open.{Open, insert-Open}
use platform_ipam.Service.Worker.Tick.{
  observed_or_failed, falls_short, flag_blind, flag_all_blind, record_tick,
}
use platform_ipam.Ledger.Transactions.{record_observation-allocations}

module _ (h : Digests) (d : Domain) (o : Observation) where
  abbrev is_blind : Allocation → Bool
  is_blind a = a.domain_id == d.id && is_reconciled a && falls_short d o

  flag_blind-Open :
      (key id : String) (a : Allocation) (st : State)
      → Open key st.findings
      → Open key (flag_blind h d o id a st).findings
  unfolding flag_blind
  flag_blind-Open key id a st k = elim (Bool-cases (is_blind a)) [
    | inl t ↦
        rw (flag_blind, t)
          (insert-Open key (finding_id h "coverage_incomplete" id) _ st.findings refl k)
    | inr t ↦ rw (flag_blind, t) k
  ]

  flag_blind-opens :
      (id : String) (a : Allocation) (st : State)
      → is_blind a ≡ true
      → Open (finding_id h "coverage_incomplete" id) (flag_blind h d o id a st).findings
  unfolding flag_blind
  flag_blind-opens id a st t =
      rw (flag_blind, t)
        (_, lookup-insert_self (finding_id h "coverage_incomplete" id) _ st.findings, refl)

  flag_all-Open :
      (key : String) (rows : List (String × Allocation)) (st : State)
      → Open key st.findings
      → Open key (flag_all_blind h d o rows st).findings
  unfolding flag_all_blind
  flag_all-Open key [] st k = k
  flag_all-Open key ((id, a) ∷ rest) st k =
      flag_all-Open key rest (flag_blind h d o id a st) (flag_blind-Open key id a st k)

  flag_all-opens :
      (id : String) (a : Allocation) (rows : List (String × Allocation)) (st : State)
      → lookup id rows ≡ some a
      → is_blind a ≡ true
      → Open (finding_id h "coverage_incomplete" id) (flag_all_blind h d o rows st).findings
  unfolding flag_all_blind lookup
  flag_all-opens id a [] st e t = absurd cc
  flag_all-opens id a ((j, b) ∷ rest) st e t = elim (Bool-cases (j == id)) [
    | inl q ↦
        let same : b ≡ a = ground (arith, q, e) in
        let here : is_blind b ≡ true = ap is_blind same ∙ t in
        flag_all-Open (finding_id h "coverage_incomplete" id) rest (flag_blind h d o j b st) (
          subst
            (λ i. Open (finding_id h "coverage_incomplete" i) (flag_blind h d o j b st).findings)
            ((text_eq_iff j id).0 q) (flag_blind-opens j b st here))
    | inr q ↦ flag_all-opens id a rest (flag_blind h d o j b st) (rw q at e) t
  ]

-- When what `Tick` records of a domain, the failure of its observation included, is incomplete or
-- of another coverage generation, every committed allocation of the domain that is not released
-- has an open finding afterwards.
pub record_tick-Open :
    (h : Digests) (d : Domain) (now : ℕ) (text : String) (answer : Result (Option Observation))
    (st : State) (id : String) (a : Allocation)
    → lookup id st.allocations ≡ some a
    → (a.domain_id == d.id && is_reconciled a) ≡ true
    → falls_short d (observed_or_failed d now text answer) ≡ true
    → Open (finding_id h "coverage_incomplete" id) (record_tick h d now text answer st).findings
unfolding record_tick
record_tick-Open h d now text answer st id a e mine short =
    let o = observed_or_failed d now text answer in
    let st' = record_observation st o in
    let found : lookup id st'.allocations ≡ some a =
      ap (lookup id) (record_observation-allocations st o) ∙ e in
    flag_all-opens h d o id a st'.allocations st' found (ground (arith, mine, short))
