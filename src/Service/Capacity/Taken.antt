-- ===== src/Service/Capacity/Taken.antt =====
-- What a capacity report (internal/service/capacity.go) never counts as free.
use platform_ipam.Prelude.{
  Memᴰ, mem-any, ◌==◌, string_eq, ℕ, ◌≡◌, refl, String, List, [], ◌∷◌, ◌++◌, Bool, true, false, not,
  ◌||◌, inl, inr, Option, some, values, Option-cases, Bool-cases,
}
use platform_ipam.Netip.{Prefix, overlaps}
use platform_ipam.Netip.Text.{parse_prefix}
use platform_ipam.Domain.Policy.{Config, Domain, Pool, Principal}
use platform_ipam.Domain.Rows.{Allocation, InventorySnapshot, is_released}
use platform_ipam.Domain.State.{State}
use platform_ipam.Service.Capacity.Free.{block, touched}
use platform_ipam.Service.Capacity.Report.{
  Category, Holdings, add, add_allocations, collect, prefixes, category_of,
}

prefixes-left :
    (xs ys : List (Prefix × Category)) (q : Prefix)
    → Memᴰ q (prefixes xs)
    → Memᴰ q (prefixes (xs ++ ys))
prefixes-left [] ys q m = elim m [ ]
prefixes-left ((r, c) ∷ xs) ys q (Memᴰ.head e) = Memᴰ.head e
prefixes-left ((r, c) ∷ xs) ys q (Memᴰ.tail m) = Memᴰ.tail (prefixes-left xs ys q m)

prefixes-last :
    (xs : List (Prefix × Category)) (q : Prefix) (c : Category)
    → Memᴰ q (prefixes (xs ++ (q, c) ∷ []))
prefixes-last [] q c = Memᴰ.head refl
prefixes-last ((r, d) ∷ xs) q c = Memᴰ.tail (prefixes-last xs q c)

module _ (p : Principal) (d : String) (q : Prefix) where
  add-keeps :
      (raw : List ℕ) (c : Category) (x : Holdings)
      → Memᴰ q (prefixes x.occupied)
      → Memᴰ q (prefixes (add raw c x).occupied)
  unfolding add
  add-keeps raw c x m = elim (Option-cases (parse_prefix raw)) [
    | inl e ↦ rw (add, e) m
    | inr (r, e) ↦ rw (add, e) (prefixes-left x.occupied ((r, c) ∷ []) q m)
  ]

  add-has :
      (raw : List ℕ) (c : Category) (x : Holdings)
      → parse_prefix raw ≡ some q
      → Memᴰ q (prefixes (add raw c x).occupied)
  unfolding add
  add-has raw c x e = rw (add, e) (prefixes-last x.occupied q c)

  add_allocations-keeps :
      (rows : List Allocation) (x : Holdings)
      → Memᴰ q (prefixes x.occupied)
      → Memᴰ q (prefixes (add_allocations p d rows x).occupied)
  unfolding add_allocations
  add_allocations-keeps [] x m = m
  add_allocations-keeps (a ∷ rows) x m =
      elim (Bool-cases (not (a.domain_id == d) || is_released a.state)) [
        | inl t ↦ rw (add_allocations, t) (add_allocations-keeps rows x m)
        | inr t ↦
            rw (add_allocations, t)
              (add_allocations-keeps rows (add a.cidr (category_of p a) x)
                (add-keeps a.cidr (category_of p a) x m))
      ]

  add_allocations-has :
      (a : Allocation) (rows : List Allocation) (x : Holdings)
      → Memᴰ a rows
      → (not (a.domain_id == d) || is_released a.state) ≡ false
      → parse_prefix a.cidr ≡ some q
      → Memᴰ q (prefixes (add_allocations p d rows x).occupied)
  unfolding add_allocations
  add_allocations-has a [] x m t e = elim m [ ]
  add_allocations-has a (b ∷ rows) x (Memᴰ.head same) t e =
      let t' : (not (b.domain_id == d) || is_released b.state) ≡ false = rw (← same) t in
      let e' : parse_prefix b.cidr ≡ some q = rw (← same) e in
      rw (add_allocations, t')
        (add_allocations-keeps rows (add b.cidr (category_of p b) x)
          (add-has b.cidr (category_of p b) x e'))
  add_allocations-has a (b ∷ rows) x (Memᴰ.tail m) t e =
      elim (Bool-cases (not (b.domain_id == d) || is_released b.state)) [
        | inl u ↦ rw (add_allocations, u) (add_allocations-has a rows x m t e)
        | inr u ↦
            rw (add_allocations, u)
              (add_allocations-has a rows (add b.cidr (category_of p b) x) m t e)
      ]

-- A block that an allocation of the pool's domain overlaps, which is not released and whose CIDR
-- parses, is no free block of the report, committed or not and whichever tenant asks.
pub collect-touched :
    (cfg : Config) (p : Principal) (pool : Pool) (d : Domain) (now : ℕ)
    (snapshot : Option (InventorySnapshot × Bool)) (st : State) (a : Allocation) (q base : Prefix)
    (bits k : ℕ)
    → Memᴰ a (values st.allocations)
    → (not (a.domain_id == d.id) || is_released a.state) ≡ false
    → parse_prefix a.cidr ≡ some q
    → overlaps (block base bits k) q ≡ true
    → touched base bits (prefixes (collect cfg p pool d now snapshot st).occupied) k ≡ true
unfolding collect
collect-touched cfg p pool d now snapshot st a q base bits k m t e meets =
    mem-any (overlaps (block base bits k)) _ q
      (add_allocations-has p d.id q a (values st.allocations) _ m t e) meets
