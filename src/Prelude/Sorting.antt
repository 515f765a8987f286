-- ===== src/Prelude/Sorting.antt =====
-- `sort.SliceStable` by a `less` function, and what it keeps.
use mathlib.Core.Path.{◌≡◌}
use mathlib.Core.Logic.{inl, inr}
use mathlib.Core.Bool.{Bool, true, false}
use mathlib.Core.List.{List, [], ◌∷◌, Memᴰ}
use platform_ipam.Prelude.Tests.{if◌then◌else◌, Bool-cases}
use platform_ipam.Prelude.Lists.{All, AllPairs}
use platform_ipam.Prelude.Tables.{All-map}

module _ {ℓ} {A : Type ℓ} (less : A → A → Bool) where
  -- `x` comes before the elements that it was in front of, as far as none of them is less.
  unfoldable pub insert_by : A → List A → List A
  insert_by x [] = x ∷ []
  insert_by x (y ∷ ys) = let later = insert_by x ys in if less y x then y ∷ later else x ∷ y ∷ ys

  unfoldable pub sort_by : List A → List A
  unfolding insert_by
  sort_by [] = []
  sort_by (x ∷ xs) = insert_by x (sort_by xs)

  module _ {κ} (P : A → Type κ) where
    All-insert_by : (x : A) (xs : List A) → P x → All P xs → All P (insert_by x xs)
    unfolding insert_by
    All-insert_by x [] p h = (p, tt)
    All-insert_by x (y ∷ ys) p h = elim (Bool-cases (less y x)) [
      | inl e ↦ rw e (h.0, All-insert_by x ys p h.1)
      | inr e ↦ rw e (p, h)
    ]

    pub All-sort_by : (xs : List A) → All P xs → All P (sort_by xs)
    unfolding sort_by
    All-sort_by [] h = tt
    All-sort_by (x ∷ xs) h = All-insert_by x (sort_by xs) h.0 (All-sort_by xs h.1)

    All-of_insert_by : (x : A) (xs : List A) → All P (insert_by x xs) → P x × All P xs
    unfolding insert_by
    All-of_insert_by x [] h = h
    All-of_insert_by x (y ∷ ys) h = elim (Bool-cases (less y x)) [
      | inl e ↦ let k = rw e at h in let r = All-of_insert_by x ys k.1 in (r.0, (k.0, r.1))
      | inr e ↦ rw e at h
    ]

    pub All-of_sort_by : (xs : List A) → All P (sort_by xs) → All P xs
    unfolding sort_by
    All-of_sort_by [] h = tt
    All-of_sort_by (x ∷ xs) h =
        let k = All-of_insert_by x (sort_by xs) h in (k.0, All-of_sort_by xs k.1)

  mem-insert_by : (x y : A) (xs : List A) → Memᴰ y (x ∷ xs) → Memᴰ y (insert_by x xs)
  unfolding insert_by
  mem-insert_by x y [] m = m
  mem-insert_by x y (z ∷ zs) m = elim (Bool-cases (less z x)) [
    | inr e ↦ rw e m
    | inl e ↦ elim m [
      | Memᴰ.head h ↦ rw e (Memᴰ.tail (mem-insert_by x y zs (Memᴰ.head h)))
      | Memᴰ.tail k ↦ elim k [
        | Memᴰ.head h ↦ rw e (Memᴰ.head h)
        | Memᴰ.tail l ↦ rw e (Memᴰ.tail (mem-insert_by x y zs (Memᴰ.tail l)))
      ]
    ]
  ]

  pub mem-sort_by : (y : A) (xs : List A) → Memᴰ y xs → Memᴰ y (sort_by xs)
  unfolding sort_by
  mem-sort_by y [] m = m
  mem-sort_by y (x ∷ xs) (Memᴰ.head e) = mem-insert_by x y (sort_by xs) (Memᴰ.head e)
  mem-sort_by y (x ∷ xs) (Memᴰ.tail m) =
      mem-insert_by x y (sort_by xs) (Memᴰ.tail (mem-sort_by y xs m))

  module _ {κ} (R : A → A → Type κ) where
    -- An order that `less` decides holds between any two elements of the sorted list.
    module _ (ahead : (x y : A) → less y x ≡ true → R y x)
        (behind : (x y : A) → less y x ≡ false → R x y)
        (trans : (x y z : A) → R x y → R y z → R x z) where
      AllPairs-insert_by : (x : A) (xs : List A) → AllPairs R xs → AllPairs R (insert_by x xs)
      unfolding insert_by
      AllPairs-insert_by x [] h = (tt, tt)
      AllPairs-insert_by x (y ∷ ys) h = elim (Bool-cases (less y x)) [
        | inl e ↦ rw e (All-insert_by (R y) x ys (ahead x y e) h.0, AllPairs-insert_by x ys h.1)
        | inr e ↦
            let r = behind x y e in
            rw e ((r, All-map (R y) (R x) (λ z k. trans x y z r k) ys h.0), h)
      ]

      pub AllPairs-sort_by : (xs : List A) → AllPairs R (sort_by xs)
      unfolding sort_by
      AllPairs-sort_by [] = tt
      AllPairs-sort_by (x ∷ xs) = AllPairs-insert_by x (sort_by xs) (AllPairs-sort_by xs)

    -- A symmetric relation between any two elements of the sorted list holds in the list.
    module _ (swap : (x y : A) → R x y → R y x) where
      AllPairs-of_insert_by :
          (x : A) (xs : List A) → AllPairs R (insert_by x xs) → All (R x) xs × AllPairs R xs
      unfolding insert_by
      AllPairs-of_insert_by x [] h = (tt, tt)
      AllPairs-of_insert_by x (y ∷ ys) h = elim (Bool-cases (less y x)) [
        | inl e ↦
            let k = rw e at h in
            let front = All-of_insert_by (R y) x ys k.0 in
            let rest = AllPairs-of_insert_by x ys k.1 in
            ((swap y x front.0, rest.0), (front.1, rest.1))
        | inr e ↦ rw e at h
      ]

      pub AllPairs-of_sort_by : (xs : List A) → AllPairs R (sort_by xs) → AllPairs R xs
      unfolding sort_by
      AllPairs-of_sort_by [] h = tt
      AllPairs-of_sort_by (x ∷ xs) h =
          let k = AllPairs-of_insert_by x (sort_by xs) h in
          (All-of_sort_by (R x) xs k.0, AllPairs-of_sort_by xs k.1)
