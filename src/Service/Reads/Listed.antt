-- ===== src/Service/Reads/Listed.antt =====
-- What `List` answers, told by what `Get` answers.
use platform_ipam.Prelude.{
  ◌≡◌, ◌↔◌, ◌≢◌, List, [], ◌∷◌, Bool, true, ◌&&◌, inl, inr, some, lookup, lookup-mem, values,
  keep_if, All, All-mem, All-of_mem, All-keep_if, keep_if-passes, mem-keep_if, Memᴰ, Bool-cases,
  arith,
}
use platform_ipam.Domain.Policy.{Principal}
use platform_ipam.Domain.Errors.{ok}
use platform_ipam.Domain.Rows.{Allocation}
use platform_ipam.Domain.State.{State}
use platform_ipam.Service.Reads.{visible_to, get, list, text_lt, insert_by, sort_by}
use platform_ipam.Service.Reads.Access.{get_iff}
use platform_ipam.Service.Reads.Order.{Increasing, Distinct, All-sort_by, sort_by-Increasing}

module _ {ℓ} {A : Type ℓ} (less : A → A → Bool) where
  mem-insert_by : (x y : A) (xs : List A) → Memᴰ y (x ∷ xs) → Memᴰ y (insert_by less x xs)
  unfolding insert_by
  mem-insert_by x y [] m = m
  mem-insert_by x y (z ∷ zs) m = elim (Bool-cases (less x z)) [
    | inl e ↦ rw e m
    | inr e ↦ elim m [
      | Memᴰ.head h ↦ rw e (Memᴰ.tail (mem-insert_by x y zs (Memᴰ.head h)))
      | Memᴰ.tail k ↦ elim k [
        | Memᴰ.head h ↦ rw e (Memᴰ.head h)
        | Memᴰ.tail l ↦ rw e (Memᴰ.tail (mem-insert_by x y zs (Memᴰ.tail l)))
      ]
    ]
  ]

  mem-sort_by : (y : A) (xs : List A) → Memᴰ y xs → Memᴰ y (sort_by less xs)
  unfolding sort_by
  mem-sort_by y [] m = m
  mem-sort_by y (x ∷ xs) (Memᴰ.head e) = mem-insert_by x y (sort_by less xs) (Memᴰ.head e)
  mem-sort_by y (x ∷ xs) (Memᴰ.tail m) =
      mem-insert_by x y (sort_by less xs) (Memᴰ.tail (mem-sort_by y xs m))

-- The rows that `Get` answers, in the strict order of their ids.
pub record Listed (p : Principal) (st : State) (rows : List Allocation) : Type 0 where
  pub increasing : Increasing (λ (a : Allocation). a.id) rows
  pub exact : (a : Allocation) → (Memᴰ a rows) ↔ (get p a.id st ≡ ok a)

module _ (p : Principal) (st : State) where
  shown : Allocation → Bool
  shown a = visible_to p a.tenant_id && a.committed

  list-forth :
      (a : Allocation) → Memᴰ a (list p st) → Memᴰ a (values st.allocations) × (shown a ≡ true)
  unfolding list shown
  list-forth a m =
      let rows = values st.allocations in
      let less : Allocation → Allocation → Bool = λ x y. text_lt x.id y.id in
      let there : All (λ x. Memᴰ x rows) (keep_if shown rows) =
        All-keep_if (λ x. Memᴰ x rows) shown rows (All-of_mem (λ x. Memᴰ x rows) rows (λ x k. k)) in
      let passes : All (λ x. shown x ≡ true) (keep_if shown rows) = keep_if-passes shown rows in
      (
        All-mem (λ x. Memᴰ x rows) (list p st) a
            (All-sort_by (λ x. Memᴰ x rows) less (keep_if shown rows) there) m,
        All-mem (λ x. shown x ≡ true) (list p st) a
            (All-sort_by (λ x. shown x ≡ true) less (keep_if shown rows) passes) m,
      )

  list-back :
      (a : Allocation) → Memᴰ a (values st.allocations) → shown a ≡ true → Memᴰ a (list p st)
  unfolding list shown
  list-back a m t =
      mem-sort_by (λ x y. text_lt x.id y.id) a (keep_if shown (values st.allocations))
        (mem-keep_if shown (values st.allocations) a m t)

  list-get :
      (a : Allocation)
      → lookup a.id st.allocations ≡ some a
      → Memᴰ a (list p st)
      → get p a.id st ≡ ok a
  unfolding shown
  list-get a at m =
      let (there, t) = list-forth a m in
      (get_iff p a.id st a).1 (at, ground (arith, t), ground (arith, t))

  get-list : (a : Allocation) → get p a.id st ≡ ok a → Memᴰ a (list p st)
  unfolding shown
  get-list a e =
      let (at, committed, visible) = (get_iff p a.id st a).0 e in
      list-back a (lookup-mem a.id a st.allocations at) (ground (arith, committed, visible))

  Distinct-keep_if :
      (f : Allocation → Bool) (xs : List Allocation)
      → Distinct (λ (a : Allocation). a.id) xs
      → Distinct (λ (a : Allocation). a.id) (keep_if f xs)
  Distinct-keep_if f [] h = tt
  Distinct-keep_if f (x ∷ xs) h = elim (Bool-cases (f x)) [
    | inl e ↦
        rw e (All-keep_if (λ (y : Allocation). x.id ≢ y.id) f xs h.0, Distinct-keep_if f xs h.1)
    | inr e ↦ rw e (Distinct-keep_if f xs h.1)
  ]

  -- In a ledger whose rows have different ids and stand under their own, `List` is the sequence,
  -- strictly increasing by id, of exactly the rows with which `Get` answers the principal.
  pub list-Listed :
      Distinct (λ (a : Allocation). a.id) (values st.allocations)
      → ((a : Allocation) → Memᴰ a (values st.allocations) → lookup a.id st.allocations ≡ some a)
      → Listed p st (list p st)
  unfolding list
  list-Listed distinct own = record {
    increasing =
        sort_by-Increasing (λ (a : Allocation). a.id)
          (keep_if (λ a. visible_to p a.tenant_id && a.committed) (values st.allocations))
          (Distinct-keep_if (λ a. visible_to p a.tenant_id && a.committed) (values st.allocations)
            distinct);
    exact = λ a. (λ m. list-get a (own a (list-forth a m).0) m, get-list a);
  }
