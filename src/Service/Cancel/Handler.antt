-- ===== src/Service/Cancel/Handler.antt =====
-- `CancelReservation` as a whole. The inventory's two removals are arguments, and between the
-- transactions other processes may change the ledger.
use platform_ipam.Prelude.{ℕ, String, Bool, true, false, not, Option, none, some, if◌then◌else◌}
use platform_ipam.Domain.Policy.{Principal}
use platform_ipam.Domain.Errors.{Failure, api, api_error, ok, err}
use platform_ipam.Domain.State.{State}
use platform_ipam.Service.Digests.{Digests}
use platform_ipam.Service.Cancel.{CancelTarget, cancel_fence, cancel_delete}

-- The inventory's answer to a removal, as `uncertainInventoryError` sorts its errors.
pub data Removal : Type 0 where
  removed uncertain refused : Removal

pub record CancelOutside : Type 0 where
  pub ledger_ready : Bool
  pub inventory_configured : Bool
  pub now : ℕ
  pub event_id : String
  pub first_removal : Removal
  pub second_removal : Removal
  pub before_fence : State → State
  pub before_delete : State → State

-- What the report says was done; its target is what it quotes.
pub record CancelReport : Type 0 where
  pub target : CancelTarget
  pub fenced : Bool
  pub already_fenced : Bool
  pub removal : Bool
  pub deleted : Bool
  pub finding_resolved : Bool

-- The two values that the call returns, and the ledger it leaves.
pub record Cancelled : Type 0 where
  pub report : Option CancelReport
  pub failure : Option Failure
  pub ledger : State

unfoldable pub cancel_report : CancelTarget → CancelReport
cancel_report t = record {
  target = t;
  fenced = not t.already_fenced;
  already_fenced = t.already_fenced;
  removal = false;
  deleted = t.done;
  finding_resolved = false;
}

-- `cancelRemoveError`, and nothing for a removal that went through.
unfoldable pub cancel_remove_error : Removal → Option Failure
cancel_remove_error removed = none
cancel_remove_error uncertain = some (api (api_error 503 "cancel_uncertain"))
cancel_remove_error refused = some (api (api_error 409 "cancel_inventory_refused"))

-- After both removals.
unfoldable pub delete_cancelled : Digests → CancelTarget → CancelReport → State → Cancelled
delete_cancelled h t r st = elim (cancel_delete h t st) [
  | err e ↦ record { report = some r; failure = some e; ledger = st }
  | ok (resolved, st') ↦ record {
    report = some (record r { deleted = true; finding_resolved = resolved });
    failure = none;
    ledger = st';
  }
]

unfoldable pub remove_cancelled : Digests → CancelOutside → CancelTarget → State → Cancelled
unfolding cancel_report cancel_remove_error
remove_cancelled h out t st = elim (cancel_remove_error out.first_removal) [
  | some e ↦ record { report = some (cancel_report t); failure = some e; ledger = st }
  | none ↦
      let r : CancelReport = record (cancel_report t) { removal = true } in
      elim (cancel_remove_error out.second_removal) [
        | some e ↦ record { report = some r; failure = some e; ledger = st }
        | none ↦ delete_cancelled h t r (out.before_delete st)
      ]
]

unfoldable pub cancel_reservation : Digests → Principal → String → CancelOutside → State → Cancelled
cancel_reservation h p id out st =
    let unavailable : Cancelled = record {
      report = none;
      failure = some (api (api_error 503 "dependency_unavailable"));
      ledger = st;
    } in
    if not out.ledger_ready
    then unavailable
    else if not out.inventory_configured
    then unavailable
    else elim (cancel_fence h p id out.now out.event_id (out.before_fence st)) [
      | err e ↦ record { report = none; failure = some e; ledger = out.before_fence st }
      | ok (t, st') ↦
          if t.done
          then record { report = some (cancel_report t); failure = none; ledger = st' }
          else remove_cancelled h out t st'
    ]
