-- ===== src/Service/Bind/Bound.antt =====
-- What an answer of 200 to `Bind` means for the ledger.
use platform_ipam.Prelude.{
  ◌≡◌, ◌≢◌, refl, sym, ◌∙◌, ap, subst, String, true, inl, inr, ◌⊎◌, Option, none, some, lookup,
  Option-cases, Bool-cases, string_eq, arith,
}
use platform_ipam.Domain.Policy.{Config, Principal}
use platform_ipam.Domain.Errors.{Result-cases, ok}
use platform_ipam.Domain.Rows.{Allocation, Operation, Binding}
use platform_ipam.Domain.State.{State}
use platform_ipam.Service.Digests.{Digests}
use platform_ipam.Service.Eligible.{pending_for_allocation}
use platform_ipam.Service.Lifecycle.{Stamp, owned, finish_binding}
use platform_ipam.Service.Bind.{
  Expected, Known, already, expects, Sight, BindReply, is_candidate, parent_of, expected_of,
  read_binding, known_of, pending_binding, bind_tx, stored_for, sees_twice, finished,
  verify_binding, after_plan, bind,
}
use platform_ipam.Service.Bind.Seen.{
  FirstRead, ParentResource, Sights, parent_of-ParentResource, sees_twice-Sights,
  read_binding-FirstRead,
}
use platform_ipam.Service.Bind.Activated.{FinishedRow, finish_binding-FinishedRow}

-- The ledger has the row of the answer, bound as asked.
pub record Bound (id : String) (b : Binding) (reply : BindReply) (st : State) : Type 0 where
  pub row : Allocation
  pub found : lookup id st.allocations ≡ some row
  pub answered : reply.allocation ≡ some row
  pub holds : is_candidate row.binding b ≡ true

-- The row was bound now, to the binding that a verification of this ledger was for. `first` is the
-- row of the first read, `planned` the ledger after the plan.
pub record Verified (h : Digests) (cfg : Config) (p : Principal) (id key : String) (b : Binding)
    (stamp : Stamp) (sight : Sight) (before_plan : State → State) (st : State) (row : Allocation)
    : Type 0 where
  pub expected : Expected
  pub first : Allocation
  pub taken : Option Operation
  pub read : FirstRead st p id b expected first taken
  pub parent : String
  pub parent_resource : ParentResource st first parent
  pub operation : Operation
  pub planned : State
  pub plan : bind_tx h p id key b stamp taken (before_plan st) ≡ ok (some operation, planned)
  pub seen : Sights cfg id b st first parent operation.domain_id sight
  pub finished : FinishedRow id operation b stamp (sight.before_finish planned) row

-- The answer of 200 after the plan.
verify_binding-Bound :
    (cfg : Config) (id : String) (b : Binding) (stamp : Stamp) (e : Expected) (sight : Sight)
    (o : Operation) (st st' : State) (reply : BindReply)
    → verify_binding cfg id b stamp e sight o st ≡ (ok reply, st')
    → reply.status ≡ 200
    → (q : Bound id b reply st') × (sees_twice cfg id b o e (stored_for e o) sight ≡ true)
      × FinishedRow id o b stamp (sight.before_finish st) q.row
unfolding verify_binding finished
verify_binding-Bound cfg id b stamp e sight o st st' reply h s =
    elim (Bool-cases (sees_twice cfg id b o e (stored_for e o) sight)) [
      | inr n ↦ absurd (ground (arith, h, n, s))
      | inl y ↦ elim (Result-cases (finish_binding id o b stamp (sight.before_finish st))) [
        | inr (f, w) ↦ absurd (ground (arith, h, y, w))
        | inl (((x, d), after), w) ↦
            let (row, candidate, turned) =
              finish_binding-FinishedRow id o b stamp (sight.before_finish st) x d after w in
            let is : after ≡ st' = ground (arith, h, y, w) in
            let answer : reply.allocation ≡ some x = ground (arith, h, y, w) in
            (
              record {
                row = x;
                found = ap (λ (t : State). lookup id t.allocations) (sym is) ∙ row;
                answered = answer;
                holds = candidate;
              },
              y,
              turned,
            )
      ]
    ]

-- An allocation without a binding is not bound already.
expects_only :
    (st : State) (id : String) (x : Allocation) (b : Binding) (a : Allocation)
    → known_of st id x b none ≢ ok (already a)
unfolding known_of
expects_only st id x b a h =
    elim (Result-cases (pending_binding (pending_for_allocation st id) b)) [
      | inr (f, w) ↦ absurd (ground (arith, h, w))
      | inl (o, w) ↦ absurd (ground (arith, h, w))
    ]

known_of-already :
    (st : State) (id : String) (x : Allocation) (b : Binding) (c : Option Binding) (a : Allocation)
    → known_of st id x b c ≡ ok (already a)
    → (x ≡ a) × (is_candidate c b ≡ true)
unfolding known_of
known_of-already st id x b none a h = absurd (expects_only st id x b a h)
known_of-already st id x b (some c) a h = (ground (arith, h), ground (arith, h))

read_binding-known :
    (st : State) (p : Principal) (id : String) (b : Binding) (x : Allocation) (n : Known)
    → lookup id st.allocations ≡ some x
    → read_binding st p id b ≡ ok n
    → known_of st id x b x.binding ≡ ok n
unfolding read_binding owned
read_binding-known st p id b x n m h = ground (arith, h, m)

read_binding-row :
    (st : State) (p : Principal) (id : String) (b : Binding) (n : Known)
    → read_binding st p id b ≡ ok n
    → (x : Allocation) × (lookup id st.allocations ≡ some x)
unfolding read_binding owned
read_binding-row st p id b n h = elim (Option-cases (lookup id st.allocations)) [
  | inl m ↦ absurd (ground (arith, h, m))
  | inr q ↦ q
]

read_binding-already :
    (st : State) (p : Principal) (id : String) (b : Binding) (a : Allocation)
    → read_binding st p id b ≡ ok (already a)
    → (lookup id st.allocations ≡ some a) × (is_candidate a.binding b ≡ true)
read_binding-already st p id b a h =
    let (x, m) = read_binding-row st p id b (already a) h in
    let (is, candidate) =
      known_of-already st id x b x.binding a (read_binding-known st p id b x (already a) m h) in
    (m ∙ ap some is, ap (λ (y : Allocation). is_candidate y.binding b) (sym is) ∙ candidate)

after_plan-Bound :
    (cfg : Config) (id : String) (b : Binding) (stamp : Stamp) (e : Expected) (sight : Sight)
    (o : Option Operation) (st st' : State) (reply : BindReply)
    → after_plan cfg id b stamp e sight o st ≡ (ok reply, st')
    → reply.status ≡ 200
    → (q : Bound id b reply st') × (d : Operation) × (o ≡ some d)
      × (sees_twice cfg id b d e (stored_for e d) sight ≡ true)
      × FinishedRow id d b stamp (sight.before_finish st) q.row
unfolding after_plan
after_plan-Bound cfg id b stamp e sight none st st' reply h s = absurd (ground (arith, h))
after_plan-Bound cfg id b stamp e sight (some d) st st' reply h s =
    let (q, seen, turned) = verify_binding-Bound cfg id b stamp e sight d st st' reply h s in
    (q, d, refl, seen, turned)

module _ (h : Digests) (cfg : Config) (p : Principal) (id key : String) (b : Binding)
    (stamp : Stamp) (sight : Sight) (before_plan : State → State) (st st' : State)
    (reply : BindReply) where
  planned-Verified :
      (e : Expected) (o : Option Operation) (planned : State)
      → read_binding st p id b ≡ ok (expects e)
      → bind_tx h p id key b stamp e.operation (before_plan st) ≡ ok (o, planned)
      → after_plan cfg id b stamp e sight o planned ≡ (ok reply, st')
      → reply.status ≡ 200
      → (q : Bound id b reply st') × Verified h cfg p id key b stamp sight before_plan st q.row
  unfolding expected_of
  planned-Verified e o planned w v turn s =
      let (a, taken, read) = read_binding-FirstRead st p id b e w in
      let (q, d, is, seen, turned) =
        after_plan-Bound cfg id b stamp e sight o planned st' reply turn s in
      let same : e.operation ≡ taken = ap (λ (x : Expected). x.operation) (sym read.expected) in
      let twice : sees_twice cfg id b d (expected_of st a taken)
            (stored_for (expected_of st a taken) d) sight
          ≡ true =
        subst (λ x. sees_twice cfg id b d x (stored_for x d) sight ≡ true) (sym read.expected)
          seen in
      let plan : bind_tx h p id key b stamp taken (before_plan st) ≡ ok (some d, planned) =
        ap (λ t. bind_tx h p id key b stamp t (before_plan st)) (sym same)
        ∙ v
        ∙ ap (λ (x : Option Operation). ok (x, planned)) is in
      (
        q,
        record {
          expected = e;
          first = a;
          taken = taken;
          read = read;
          parent = parent_of st a;
          parent_resource = parent_of-ParentResource st a;
          operation = d;
          planned = planned;
          plan = plan;
          seen = sees_twice-Sights cfg id b st a taken d sight twice;
          finished = turned;
        },
      )

-- Where `Bind` answers 200, the ledger after the call has the allocation of the answer, bound as it
-- was asked. Either it was bound so already, and nothing has changed; or the row of the first read
-- is the tenant's own, committed and without a binding, and the call has planned or taken up an
-- operation for it. Two trusted observations then show the binding on that row's own id, key, CIDR,
-- zone and parent resource, with the ages of the configured domain: the ledger's last one of the
-- row's domain and a fresh one, or two fresh ones. When it became active the row was reserved
-- without a binding, and the operation pending for this one.
pub bind-Bound :
    (h : Digests) (cfg : Config) (p : Principal) (id key : String) (b : Binding) (stamp : Stamp)
    (sight : Sight) (before_plan : State → State) (st st' : State) (reply : BindReply)
    → bind h cfg p id key b stamp sight before_plan st ≡ (ok reply, st')
    → reply.status ≡ 200
    → (q : Bound id b reply st') × ((st ≡ st')
        ⊎ Verified h cfg p id key b stamp sight before_plan st q.row)
unfolding bind
bind-Bound h cfg p id key b stamp sight before_plan st st' reply e s =
    elim (Result-cases (read_binding st p id b)) [
      | inr (f, w) ↦ absurd (ground (arith, e, w))
      | inl (already a, w) ↦
          let (row, candidate) = read_binding-already st p id b a w in
          let same : st ≡ st' = ground (arith, e, w) in
          let answer : reply.allocation ≡ some a = ground (arith, e, w) in
          (
            record {
              row = a;
              found = ap (λ (t : State). lookup id t.allocations) (sym same) ∙ row;
              answered = answer;
              holds = candidate;
            },
            inl same,
          )
      | inl (expects x, w) ↦
          elim (Result-cases (bind_tx h p id key b stamp x.operation (before_plan st))) [
            | inr (f, v) ↦ absurd (ground (arith, e, w, v))
            | inl ((o, after), v) ↦
                let (q, verified) =
                  planned-Verified h cfg p id key b stamp sight before_plan st st' reply x o after w
                    v (ground (arith, e, w, v)) s in
                (q, inr verified)
          ]
    ]
