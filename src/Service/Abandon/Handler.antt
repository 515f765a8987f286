-- ===== src/Service/Abandon/Handler.antt =====
-- `AbandonAdoption` and its dry run as a whole. The inventory's answers are arguments, and between
-- the transactions other processes may change the ledger.
use platform_ipam.Prelude.{
  ℕ, String, List, [], ◌∷◌, Bool, true, false, not, ◌&&◌, ◌||◌, any, keep_if, leb, codes, Option,
  none, some, ◌==◌, string_eq, nat_eq, if◌then◌else◌,
}
use platform_ipam.Domain.Errors.{Failure, api, api_error, Result, ok, err, refuse_if, ◌>>=◌, ◌>>◌}
use platform_ipam.Domain.Rows.{Allocation, Network, InventorySnapshot}
use platform_ipam.Domain.State.{State}
use platform_ipam.Service.Digests.{Digests}
use platform_ipam.Service.Cancel.Handler.{Removal, removed, uncertain, refused}
use platform_ipam.Service.Abandon.{AbandonTarget, abandon_check, abandon_fence, abandon_delete}

-- `unicode.IsSpace`, and `strings.TrimSpace(s) == ""`.
abbrev is_space : ℕ → Bool
is_space c =
    leb 0x9 c && leb c 0xd
    || c == 0x20
    || c == 0x85
    || c == 0xa0
    || c == 0x1680
    || leb 0x2000 c && leb c 0x200a
    || c == 0x2028
    || c == 0x2029
    || c == 0x202f
    || c == 0x205f
    || c == 0x3000

abbrev pub is_blank : String → Bool
is_blank s = not (any (λ c. not (is_space c)) (codes s))

-- `abandonInputs`
unfoldable pub abandon_inputs : String → String → String → Result (Unit {0})
abandon_inputs allocation_id operator reason =
    refuse_if (is_blank operator) 422 "abandon_operator_required"
    >> refuse_if (is_blank reason) 422 "abandon_reason_required"
    >> refuse_if (is_blank allocation_id) 422 "abandon_allocation_required"

pub data Claim : Type 0 where
  unclaimed this_operation another_operation ambiguous unknown : Claim

pub record AbandonClaim : Type 0 where
  pub claim : Claim
  pub networks : List Network

-- `abandonClaim`, on the snapshot that the inventory gives; `none` is an error or no inventory.
-- The report quotes the network where there is one.
unfoldable pub abandon_claim : Option InventorySnapshot → Allocation → String → AbandonClaim
abandon_claim none a operation_id = record { claim = unknown; networks = [] }
abandon_claim (some snap) a operation_id =
    let claimed = keep_if (λ (n : Network). n.allocation_id == a.id) snap.networks in
    record {
      networks = claimed;
      claim = if not snap.complete then unknown else elim claimed [
        | [] ↦ unclaimed
        | n ∷ ns ↦ elim ns [
          | [] ↦ if n.operation_id == operation_id then this_operation else another_operation
          | other ∷ more ↦ ambiguous
        ]
      ];
    }

pub record AbandonReport : Type 0 where
  pub dry_run : Bool
  pub target : AbandonTarget
  pub inventory : AbandonClaim
  pub fenced : Bool
  pub already_fenced : Bool
  pub cleared : Bool
  pub deleted : Bool
  pub finding_resolved : Bool

-- `abandonReport`
unfoldable pub abandon_report : Bool → AbandonTarget → AbandonClaim → AbandonReport
abandon_report dry_run t claim = record {
  dry_run = dry_run;
  target = t;
  inventory = claim;
  fenced = not dry_run && not t.already_fenced;
  already_fenced = t.already_fenced;
  cleared = false;
  deleted = false;
  finding_resolved = false;
}

-- The two values that the call returns, and the ledger it leaves.
pub record Abandoned : Type 0 where
  pub report : Option AbandonReport
  pub failure : Option Failure
  pub ledger : State

pub record AbandonOutside : Type 0 where
  pub ledger_ready : Bool
  pub inventory_configured : Bool
  pub now : ℕ
  pub event_id : String
  pub snapshot : Option InventorySnapshot
  pub first_clear : Removal
  pub second_clear : Removal
  pub before_fence : State → State
  pub before_delete : State → State

-- `abandonClearError`, and nothing for a clear that went through.
unfoldable pub abandon_clear_error : Removal → Option Failure
abandon_clear_error removed = none
abandon_clear_error uncertain = some (api (api_error 503 "abandon_uncertain"))
abandon_clear_error refused = some (api (api_error 409 "abandon_inventory_refused"))

unfoldable pub delete_abandoned : Digests → AbandonTarget → AbandonReport → State → Abandoned
delete_abandoned h t r st = elim (abandon_delete h t st) [
  | err e ↦ record { report = some r; failure = some e; ledger = st }
  | ok (resolved, st') ↦ record {
    report = some (record r { deleted = true; finding_resolved = resolved });
    failure = none;
    ledger = st';
  }
]

unfoldable pub clear_abandoned :
    Digests → AbandonOutside → AbandonTarget → AbandonReport → State → Abandoned
unfolding abandon_clear_error
clear_abandoned h out t r st = elim (abandon_clear_error out.first_clear) [
  | some e ↦ record { report = some r; failure = some e; ledger = st }
  | none ↦
      let r' : AbandonReport = record r { cleared = true } in
      elim (abandon_clear_error out.second_clear) [
        | some e ↦ record { report = some r'; failure = some e; ledger = st }
        | none ↦ delete_abandoned h t r' (out.before_delete st)
      ]
]

abbrev refused_abandon : Failure → State → Abandoned
refused_abandon e st = record { report = none; failure = some e; ledger = st }

-- `AbandonAdoption`
unfoldable pub abandon_adoption :
    Digests → String → String → String → String → AbandonOutside → State → Abandoned
unfolding abandon_inputs abandon_report
abandon_adoption h allocation_id operation_id operator reason out st =
    elim (abandon_inputs allocation_id operator reason) [
      | err e ↦ refused_abandon e st
      | ok u ↦
          if not out.ledger_ready || not out.inventory_configured
          then refused_abandon (api (api_error 503 "dependency_unavailable")) st
          else let st0 = out.before_fence st in
            elim (abandon_fence allocation_id operation_id operator out.now out.event_id st0) [
              | err e ↦ refused_abandon e st0
              | ok (t, st') ↦
                  clear_abandoned h out t
                    (abandon_report false t
                      (abandon_claim out.snapshot t.allocation t.operation.id))
                    st'
            ]
    ]

-- `PlanAbandonAdoption`: the judgement of a real run on the same ledger, and no write.
unfoldable pub plan_abandon :
    String
    → String
    → String
    → String
    → Bool
    → Option InventorySnapshot
    → State
    → Result AbandonReport
unfolding abandon_inputs abandon_report
plan_abandon allocation_id operation_id operator reason ready snapshot st =
    abandon_inputs allocation_id operator reason
    >> refuse_if (not ready) 503 "dependency_unavailable"
    >> (abandon_check allocation_id operation_id st >>= λ t.
        ok (abandon_report true t (abandon_claim snapshot t.allocation t.operation.id)))
