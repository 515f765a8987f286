-- ===== src/Service/Reserve/Handler.antt =====
-- `Service.reserve` as a whole. What it asks of the inventory, the observer and the clock is an
-- argument; between its transactions the other processes may change the ledger.
use platform_ipam.Prelude.{
  ℕ, String, [], Bool, false, not, ◌&&◌, ◌||◌, Option, none, some, ◌==◌, string_eq, last?,
  if◌then◌else◌,
}
use platform_ipam.Domain.Policy.{Request, Pool, Domain, Config, Principal}
use platform_ipam.Domain.Errors.{Result, ok, err, api, fail, refuse_if, ◌>>=◌, ◌>>◌}
use platform_ipam.Domain.Rows.{Allocation, Operation, Observation, InventorySnapshot}
use platform_ipam.Domain.State.{State, observations_at}
use platform_ipam.Service.Digests.{Digests, request_hash, request_body_hash, idempotency_id}
use platform_ipam.Service.Observe.{now_fresh, trusted_observation}
use platform_ipam.Service.Validate.{Validated, validate_request}
use platform_ipam.Service.Withdrawal.{withdrawal_refusal}
use platform_ipam.Service.Reserve.Replay.{Kind, Reply, is_retired, find_replay}
use platform_ipam.Service.Reserve.Plan.{Planning, Planned, Selection, plan_tx}
use platform_ipam.Service.Reserve.Commit.{Settled, Commit, commit_tx, type_eq}

zero_observation : Observation
zero_observation = record {
  domain_id = "";
  generation = "";
  complete = false;
  started_at = 0;
  finished_at = 0;
  resources = [];
  error = "";
}

-- The answers of the calls that `reserve` makes, in their order.
pub record Outside : Type 0 where
  pub ledger_ready : Bool
  pub inventory_configured : Bool
  pub snapshot : Result InventorySnapshot
  pub observed : Result (Option Observation)
  pub now : ℕ
  pub plan_clock : ℕ
  pub commit_clock : ℕ
  pub allocation_id : String
  pub operation_id : String
  pub planned_event_id : String
  pub committed_event_id : String
  pub ensured : Allocation → Operation → Result String
  pub before_plan : State → State
  pub before_commit : State → State

-- What separates a reservation from an adoption in `reserve`.
pub record Mode : Type 0 where
  pub kind : Kind
  pub actor : String
  pub commit_actor : String
  pub selection : Pool → Request → InventorySnapshot → Selection
  pub reviewed : Operation → String → Bool

usable_snapshot : Outside → Result InventorySnapshot
usable_snapshot out =
    if not out.inventory_configured then fail 503 "dependency_unavailable" else elim out.snapshot [
      | err e ↦ fail 503 "dependency_unavailable"
      | ok snap ↦ if snap.complete then ok snap else fail 503 "dependency_unavailable"
    ]

-- With no observer the ledger's last observation has to be trusted.
stored_observation : Config → Outside → Domain → State → Result Observation
stored_observation cfg out dom st = elim (last? (observations_at st dom.id)) [
  | none ↦ fail 503 "dependency_unavailable"
  | some o ↦
      if trusted_observation o dom out.now cfg.lifecycle.max_observation_age
      then ok o
      else fail 503 "dependency_unavailable"
]

fresh_observation : Config → Outside → Domain → Observation → Result Observation
fresh_observation cfg out dom o =
    if not o.complete
      || not (o.generation == dom.coverage_generation)
      || not (now_fresh out.now o.finished_at cfg.lifecycle.max_observation_age)
    then fail 503 "dependency_unavailable"
    else ok o

planning_observation : Config → Outside → Domain → State → Option Observation → Result Observation
unfolding stored_observation fresh_observation
planning_observation cfg out dom st none = stored_observation cfg out dom st
planning_observation cfg out dom st (some o) = fresh_observation cfg out dom o

observed_or_503 : Outside → Result (Option Observation)
observed_or_503 out = elim out.observed [ err e ↦ fail 503 "dependency_unavailable" | ok o ↦ ok o ]

abbrev pub reply_of : Allocation → Operation → ℕ → Reply
reply_of a o status = record { allocation = some a; operation = some o; status = status }

-- The answer after the commit transaction.
unfoldable pub after_commit : Settled → Result Reply
after_commit s =
    if s.found && s.allocation.committed && not (is_retired s.allocation.state)
    then ok (reply_of s.allocation s.operation 201)
    else elim (withdrawal_refusal s.operation) [
      | some e ↦ err (api e)
      | none ↦ ok (reply_of s.allocation s.operation 202)
    ]

-- The arguments of the commit transaction.
abbrev pub commit_of : Mode → Outside → String → Commit
commit_of mode out inventory_id = record {
  kind = mode.kind;
  actor = mode.commit_actor;
  inventory_id = inventory_id;
  clock = out.commit_clock;
  event_id = out.committed_event_id;
}

unfoldable pub confirm :
    Digests → Mode → Outside → Allocation → Operation → String → State → Result Reply × State
unfolding after_commit
confirm h mode out a o inventory_id st =
    let (settled, st') = commit_tx h (commit_of mode out inventory_id) a o (out.before_commit st) in
    (after_commit settled, st')

unfoldable pub finish :
    Digests → Mode → Outside → Allocation → Operation → State → Result Reply × State
unfolding confirm
finish h mode out a o st = elim (out.ensured a o) [
  | err e ↦ (ok (reply_of a o 202), st)
  | ok inventory_id ↦
      if inventory_id == ""
      then (ok (reply_of a o 202), st)
      else if not (mode.reviewed o inventory_id)
      then (fail 409 "adoption_conflict", st)
      else confirm h mode out a o inventory_id st
]

-- The reply of the plan, or the attempt to create the network that it holds.
continue : Digests → Mode → Outside → Planned → State → Result Reply × State
unfolding finish
continue h mode out planned st = elim planned.reply.allocation [
  | none ↦ (fail 503 "ledger_error", st)
  | some a ↦ if a.committed then (ok planned.reply, st) else elim planned.reply.operation [
    | none ↦ (ok (record planned.reply { status = 202 }), st)
    | some o ↦
        if planned.attempt && type_eq o.type mode.kind.operation
        then finish h mode out a o st
        else (ok (record planned.reply { status = 202 }), st)
  ]
]

module _ (h : Digests) (cfg : Config) (p : Principal) (mode : Mode) (out : Outside)
    (key : String) where
  unfoldable pub planning : Validated → Observation → Option Observation → Planning
  planning v latest observed = record {
    cfg = cfg;
    kind = mode.kind;
    actor = mode.actor;
    principal = p;
    wanted = v.wanted;
    pool = v.pool;
    domain = v.domain;
    key = key;
    request_id = idempotency_id h p.tenant_id mode.kind.method mode.kind.path key;
    hash = request_hash h v.wanted;
    body_hash = request_body_hash h v.wanted;
    planning_observation = latest;
    observed = observed;
    now = out.now;
    clock = out.plan_clock;
    allocation_id = out.allocation_id;
    operation_id = out.operation_id;
    event_id = out.planned_event_id;
  }

  -- The reads of the inventory and the observer, for a request that is no replay.
  prepare : Validated → State → Result (Planning × InventorySnapshot)
  unfolding usable_snapshot observed_or_503 planning_observation
  prepare v st = do
    snap ← usable_snapshot out
    observed ← observed_or_503 out
    latest ← planning_observation cfg out v.domain st observed
    ok (planning v latest observed, snap)

  plan_and_finish : Validated → State → Result Reply × State
  unfolding prepare continue
  plan_and_finish v st = elim (prepare v st) [
    | err e ↦ (err e, st)
    | ok (pl, snap) ↦ elim (plan_tx pl (mode.selection v.pool v.wanted snap) (out.before_plan st)) [
      | err e ↦ (err e, out.before_plan st)
      | ok (planned, st') ↦ continue h mode out planned st'
    ]
  ]

  answer_known : Validated → Option Reply → State → Result Reply × State
  unfolding plan_and_finish
  answer_known v none st = plan_and_finish v st
  answer_known v (some reply) st = elim reply.allocation [
    | none ↦ plan_and_finish v st
    | some a ↦ (ok reply, st)
  ]

  known_request : Request → State → Result (Validated × Option Reply)
  known_request request st = do
    refuse_if (key == "") 400 "idempotency_key_required"
    refuse_if (not out.ledger_ready) 503 "dependency_unavailable"
    v ← validate_request cfg st p request
    reply ←
        find_replay st (idempotency_id h p.tenant_id mode.kind.method mode.kind.path key)
          (request_body_hash h v.wanted) p.tenant_id v.wanted.allocation_key
          (request_hash h v.wanted)
    ok (v, reply)

  unfoldable pub reserve : Request → State → Result Reply × State
  unfolding known_request answer_known
  reserve request st = elim (known_request request st) [
    | err e ↦ (err e, st)
    | ok (v, reply) ↦ answer_known v reply st
  ]
