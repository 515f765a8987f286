-- ===== src/Service/Withdrawal.antt =====
-- The fences of internal/service/cancel.go and abandon.go: a hold whose operation a withdrawal has
-- ended, and that is about to be deleted.
use platform_ipam.Prelude.{
  String, List, [], ◌∷◌, Bool, true, false, ◌&&◌, Option, none, some, ◌==◌, string_eq, values,
  if◌then◌else◌,
}
use platform_ipam.Domain.Errors.{ApiError, Result, ok, err, api, api_error, fail}
use platform_ipam.Domain.Rows.{Allocation, Operation, is_failed, is_adopt, is_reserve}
use platform_ipam.Domain.State.{State}

abbrev pub reservation_cancelled_code : String
reservation_cancelled_code = "reservation_cancelled"

abbrev pub adoption_abandoned_code : String
adoption_abandoned_code = "adoption_abandoned"

-- `fencedWith`
unfoldable pub fenced_with : Operation → String → Bool
fenced_with o code = is_failed o.status && elim o.error [ none ↦ false | some e ↦ e.code == code ]

-- `withdrawalRefusal`: retryable, though its status is 409.
unfoldable pub withdrawal_refusal : Operation → Option ApiError
unfolding fenced_with
withdrawal_refusal o =
    if is_adopt o.type && fenced_with o adoption_abandoned_code
    then some (record (api_error 409 "adoption_abandoning") { retryable = true })
    else if is_reserve o.type && fenced_with o reservation_cancelled_code
    then some (record (api_error 409 "reservation_cancelling") { retryable = true })
    else none

abbrev pub first_refusal : String → List Operation → Option ApiError
first_refusal id [] = none
first_refusal id (o ∷ os) =
    let rest = first_refusal id os in
    if o.allocation_id == id
    then elim (withdrawal_refusal o) [ none ↦ rest | some e ↦ some e ]
    else rest

-- `abandonInProgress`
unfoldable pub abandon_in_progress : State → String → Option ApiError
abandon_in_progress st id = first_refusal id (values st.operations)

-- `abandoningReplay`
unfoldable pub abandoning_replay : State → Option Allocation → Result (Unit {0})
abandoning_replay st none = ok tt
abandoning_replay st (some a) =
    if a.committed
    then ok tt
    else elim (abandon_in_progress st a.id) [ none ↦ ok tt | some e ↦ err (api e) ]

-- `committedHoldRefusal`
unfoldable pub committed_hold_refusal : Allocation → String → Result (Unit {0})
committed_hold_refusal a code = if a.committed then fail 409 code else ok tt
