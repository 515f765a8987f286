-- ===== src/Service/Abandon/Target.antt =====
-- The allocation and the operation that the judgement of an abandon finds, and that its fence names.
use platform_ipam.Prelude.{
  ℕ, ◌≡◌, refl, sym, ◌∙◌, String, List, [], ◌∷◌, Bool, true, false, some, inl, inr, values, lookup,
  lookup-insert, lookup-insert_self, ◌≢◌, keep_if-passes, mem-keep_if, All, keep_if, All-keep_if,
  All-of_mem, Memᴰ, Option-cases, Bool-cases, text_eq_iff, ◌==◌, string_eq, ◌&&◌, ◌||◌, arith,
}
use platform_ipam.Domain.Errors.{Result-cases, ok}
use platform_ipam.Domain.Rows.{Allocation, Operation, is_pending, is_adopt}
use platform_ipam.Domain.State.{State}
use platform_ipam.Service.Withdrawal.{committed_hold_refusal}
use platform_ipam.Service.Abandon.{
  AbandonTarget, operations_of, judge_adoption, judge_found, abandon_check, abandoned_operation,
  write_abandon, abandon_fence,
}

-- The held row under the id, and the only operation that names it, or the only one with the given
-- id among them: an adoption.
pub record Target (allocation_id operation_id : String) (st : State) (a : Allocation)
    (o : Operation) : Type 0 where
  pub row : lookup allocation_id st.allocations ≡ some a
  pub same_id : a.id ≡ allocation_id
  pub free : a.committed ≡ false
  pub there : Memᴰ o (values st.operations)
  pub own : o.allocation_id ≡ allocation_id
  pub adopts : is_adopt o.type ≡ true
  pub named : (operation_id == "") ≡ false → o.id ≡ operation_id
  pub sole :
      (p : Operation)
      → Memᴰ p (values st.operations)
      → p.allocation_id ≡ allocation_id
      → (operation_id == "" || p.id == operation_id) ≡ true
      → p ≡ o

judge_adoption-found :
    (a : Allocation) (o : Operation) (t : AbandonTarget)
    → judge_adoption a o ≡ ok t
    → (t.allocation ≡ a)
      × (t.operation ≡ o)
      × (is_adopt o.type ≡ true)
      × (t.already_fenced ≡ true → is_pending o.status ≡ false)
unfolding judge_adoption
judge_adoption-found a o t e = elim (Bool-cases (is_pending o.status)) [
  | inl b ↦ (
    ground (arith, e, b),
    ground (arith, e, b),
    ground (arith, e, b),
    λ f. absurd (ground (arith, e, b, f)),
  )
  | inr b ↦ (ground (arith, e, b), ground (arith, e, b), ground (arith, e, b), λ _. b)
]

judge_found-one :
    (a : Allocation) (operation_id : String) (os : List Operation) (t : AbandonTarget)
    → judge_found a operation_id os ≡ ok t
    → (o : Operation) × (os ≡ o ∷ []) × (judge_adoption a o ≡ ok t)
unfolding judge_found
judge_found-one a operation_id [] t e = absurd (ground (arith, e))
judge_found-one a operation_id (o ∷ []) t e = (o, refl, e)
judge_found-one a operation_id (o ∷ p ∷ os) t e = absurd cc

sole_member : (o p : Operation) → Memᴰ p (o ∷ []) → p ≡ o
sole_member o p (Memᴰ.head e) = e
sole_member o p (Memᴰ.tail m) = elim m [ ]

-- What a selection of one operation says of it.
one_operation :
    (id operation_id : String) (os : List Operation) (o : Operation)
    → operations_of id operation_id os ≡ o ∷ []
    → Memᴰ o os
      × ((o.allocation_id == id && (operation_id == "" || o.id == operation_id)) ≡ true)
      × ((p : Operation)
          → Memᴰ p os
          → (p.allocation_id == id && (operation_id == "" || p.id == operation_id)) ≡ true
          → p ≡ o)
unfolding operations_of
one_operation id operation_id os o e =
    let passes : Operation → Bool =
      λ x. x.allocation_id == id && (operation_id == "" || x.id == operation_id) in
    let there : All (λ x. Memᴰ x os) (keep_if passes os) =
      All-keep_if (λ x. Memᴰ x os) passes os (All-of_mem (λ x. Memᴰ x os) os (λ x m. m)) in
    let good : All (λ x. passes x ≡ true) (keep_if passes os) = keep_if-passes passes os in
    (
      (rw e at there).0,
      (rw e at good).0,
      λ p m t.
          let found : Memᴰ p (keep_if passes os) = mem-keep_if passes os p m t in
          sole_member o p (rw e at found),
    )

pub check-Target :
    (allocation_id operation_id : String) (st : State) (t : AbandonTarget)
    → ((a : Allocation) → lookup allocation_id st.allocations ≡ some a → a.id ≡ allocation_id)
    → abandon_check allocation_id operation_id st ≡ ok t
    → Target allocation_id operation_id st t.allocation t.operation
      × (t.already_fenced ≡ true → is_pending t.operation.status ≡ false)
unfolding abandon_check committed_hold_refusal
check-Target allocation_id operation_id st t keyed e =
    elim (Option-cases (lookup allocation_id st.allocations)) [
      | inl n ↦ absurd (ground (arith, e, n))
      | inr (a, n) ↦
          let os = operations_of a.id operation_id (values st.operations) in
          let (o, one, judged) = judge_found-one a operation_id os t (ground (arith, e, n)) in
          let (row, operation, adopts, quiet) = judge_adoption-found a o t judged in
          let (there, passes, sole) =
            one_operation a.id operation_id (values st.operations) o one in
          let target : Target allocation_id operation_id st a o = record {
            row = n;
            same_id = keyed a n;
            free = ground (arith, e, n);
            there = there;
            own = (text_eq_iff o.allocation_id a.id).0 (ground (arith, passes)) ∙ keyed a n;
            adopts = adopts;
            named = λ k. (text_eq_iff o.id operation_id).0 (ground (arith, passes, k));
            sole = λ p m own k.
                sole p m
                  (ground (arith, k, (text_eq_iff p.allocation_id a.id).1 (own ∙ sym (keyed a n))));
          } in
          rw (row, operation) (target, quiet)
    ]

-- What the fence of an abandon has found, and what it leaves of the ledger: its operation is ended,
-- and every row and every other operation is as it was.
pub record Aimed (allocation_id operation_id : String) (st : State) (t : AbandonTarget)
    (st' : State) : Type 0 where
  pub operation : Operation
  pub target : Target allocation_id operation_id st t.allocation operation
  pub same_operation : t.operation.id ≡ operation.id
  pub ended : lookup operation.id st'.operations ≡ some t.operation
  pub quiet : is_pending t.operation.status ≡ false
  pub rows : st'.allocations ≡ st.allocations
  pub others : (k : String) → operation.id ≢ k → lookup k st'.operations ≡ lookup k st.operations

pub abandon_fence-Aimed :
    (allocation_id operation_id operator : String) (now : ℕ) (event_id : String) (st : State)
    (t : AbandonTarget) (st' : State)
    → ((a : Allocation) → lookup allocation_id st.allocations ≡ some a → a.id ≡ allocation_id)
    → ((o : Operation) → Memᴰ o (values st.operations) → lookup o.id st.operations ≡ some o)
    → abandon_fence allocation_id operation_id operator now event_id st ≡ ok (t, st')
    → Aimed allocation_id operation_id st t st'
unfolding abandon_fence write_abandon
abandon_fence-Aimed allocation_id operation_id operator now event_id st t st' keyed named e =
    elim (Result-cases (abandon_check allocation_id operation_id st)) [
      | inr (f, c) ↦ absurd (ground (arith, e, c))
      | inl (u, c) ↦
          let (target, quiet) = check-Target allocation_id operation_id st u keyed c in
          elim (Bool-cases u.already_fenced) [
            | inl b ↦
                let same : st ≡ st' = ground (arith, e, c, b) in
                let old : u ≡ t = ground (arith, e, c, b) in
                rw (← same, ← old)
                  (record {
                    operation = u.operation;
                    target = target;
                    same_operation = refl;
                    ended = named u.operation target.there;
                    quiet = quiet b;
                    rows = refl;
                    others = λ k d. refl;
                  })
            | inr b ↦
                let o = abandoned_operation u.operation now in
                let new : record u { operation = o } ≡ t = ground (arith, e, c, b) in
                let after : write_abandon operator now event_id u st ≡ st' =
                  ground (arith, e, c, b) in
                rw (← new, ← after)
                  (record {
                    operation = u.operation;
                    target = target;
                    same_operation = refl;
                    ended = lookup-insert_self u.operation.id o st.operations;
                    quiet = refl;
                    rows = refl;
                    others = λ k d. ground (
                      arith,
                      lookup-insert u.operation.id k o st.operations,
                      text_eq_iff u.operation.id k,
                      d,
                    );
                  })
          ]
    ]
