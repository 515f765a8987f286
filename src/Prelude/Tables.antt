-- ===== src/Prelude/Tables.antt =====
-- Predicates on the rows of a map, and what an insertion does to them.
use Prim.Native.String.{String}
use mathlib.Core.Path.{◌≡◌, refl, sym, ap}
use mathlib.Core.Logic.{inl, inr}
use mathlib.Core.Bool.{Bool, true, false}
use mathlib.Core.Option.{none, some}
use mathlib.Core.List.{List, [], ◌∷◌, ◌++◌, map, Memᴰ}
use native.Mathlib.Omega.{arith}
use platform_ipam.Prelude.Tests.{◌==◌, string_eq, Bool-cases}
use platform_ipam.Prelude.Lists.{All, AllPairs, find_first, keep_if}
use platform_ipam.Prelude.Maps.{values, lookup, insert, remove}

module _ {ℓ} {A : Type ℓ} where
  module _ {κ} (P : A → Type κ) where
    pub All-append : (xs ys : List A) → All P xs → All P ys → All P (xs ++ ys)
    All-append [] ys h k = k
    All-append (x ∷ xs) ys h k = (h.0, All-append xs ys h.1 k)

    pub All-mem : (xs : List A) (x : A) → All P xs → Memᴰ x xs → P x
    All-mem [] x h m = elim m [ ]
    All-mem (y ∷ ys) x h (Memᴰ.head e) = rw e h.0
    All-mem (y ∷ ys) x h (Memᴰ.tail m) = All-mem ys x h.1 m

  pub All-of_mem {κ} : (P : A → Type κ) (xs : List A) → ((x : A) → Memᴰ x xs → P x) → All P xs
  All-of_mem P [] f = tt
  All-of_mem P (x ∷ xs) f = (f x (Memᴰ.head refl), All-of_mem P xs (λ y m. f y (Memᴰ.tail m)))

  pub All-map {κ μ} :
      (P : A → Type κ) (Q : A → Type μ)
      → ((x : A) → P x → Q x)
      → (xs : List A) → All P xs
      → All Q xs
  All-map P Q f [] h = tt
  All-map P Q f (x ∷ xs) h = (f x h.0, All-map P Q f xs h.1)

  pub AllPairs-map {κ μ} :
      (R : A → A → Type κ) (S : A → A → Type μ)
      → ((x y : A) → R x y → S x y)
      → (xs : List A) → AllPairs R xs
      → AllPairs S xs
  AllPairs-map R S f [] h = tt
  AllPairs-map R S f (x ∷ xs) h = (All-map (R x) (S x) (f x) xs h.0, AllPairs-map R S f xs h.1)

  pub All-keep_if {κ} :
      (P : A → Type κ) (f : A → Bool) (xs : List A) → All P xs → All P (keep_if f xs)
  All-keep_if P f [] h = tt
  All-keep_if P f (x ∷ xs) h = elim (Bool-cases (f x)) [
    | inl e ↦ rw e (h.0, All-keep_if P f xs h.1)
    | inr e ↦ rw e (All-keep_if P f xs h.1)
  ]

  pub keep_if-passes : (f : A → Bool) (xs : List A) → All (λ x. f x ≡ true) (keep_if f xs)
  keep_if-passes f [] = tt
  keep_if-passes f (x ∷ xs) = elim (Bool-cases (f x)) [
    | inl e ↦ rw e (e, keep_if-passes f xs)
    | inr e ↦ rw e (keep_if-passes f xs)
  ]

  pub mem-keep_if :
      (f : A → Bool) (xs : List A) (x : A) → Memᴰ x xs → f x ≡ true → Memᴰ x (keep_if f xs)
  mem-keep_if f [] x m t = elim m [ ]
  mem-keep_if f (y ∷ ys) x (Memᴰ.head e) t = let t' : f y ≡ true = rw (← e) t in rw t' (Memᴰ.head e)
  mem-keep_if f (y ∷ ys) x (Memᴰ.tail m) t = elim (Bool-cases (f y)) [
    | inl e ↦ rw e (Memᴰ.tail (mem-keep_if f ys x m t))
    | inr e ↦ rw e (mem-keep_if f ys x m t)
  ]

  pub mem-append_left : (xs ys : List A) (x : A) → Memᴰ x xs → Memᴰ x (xs ++ ys)
  mem-append_left [] ys x m = elim m [ ]
  mem-append_left (z ∷ xs) ys x (Memᴰ.head e) = Memᴰ.head e
  mem-append_left (z ∷ xs) ys x (Memᴰ.tail m) = Memᴰ.tail (mem-append_left xs ys x m)

  pub mem-append_right : (xs ys : List A) (x : A) → Memᴰ x ys → Memᴰ x (xs ++ ys)
  mem-append_right [] ys x m = m
  mem-append_right (z ∷ xs) ys x m = Memᴰ.tail (mem-append_right xs ys x m)

  -- Every element of a list whose search finds nothing fails the test.
  pub find_first-none :
      (f : A → Bool) (xs : List A) → find_first f xs ≡ none → All (λ x. f x ≡ false) xs
  find_first-none f [] h = tt
  find_first-none f (x ∷ xs) h = elim (Bool-cases (f x)) [
    | inl e ↦ absurd (ground (arith, e, h))
    | inr e ↦ (e, find_first-none f xs (rw e at h))
  ]

  pub find_first-mem :
      (f : A → Bool) (xs : List A) (a : A) → find_first f xs ≡ some a → Memᴰ a xs × (f a ≡ true)
  find_first-mem f [] a h = absurd cc
  find_first-mem f (x ∷ xs) a h = elim (Bool-cases (f x)) [
    | inl e ↦ let same : x ≡ a = ground (arith, e, h) in (Memᴰ.head (sym same), rw (← same) e)
    | inr e ↦ let (m, t) = find_first-mem f xs a (rw e at h) in (Memᴰ.tail m, t)
  ]

  pub AllPairs-snoc {κ} :
      (R : A → A → Type κ) (xs : List A) (y : A)
      → AllPairs R xs
      → All (λ x. R x y) xs
      → AllPairs R (xs ++ y ∷ [])
  AllPairs-snoc R [] y h k = (tt, tt)
  AllPairs-snoc R (x ∷ xs) y h k =
      (All-append (R x) xs (y ∷ []) h.0 (k.0, tt), AllPairs-snoc R xs y h.1 k.1)

module _ {ℓ μ} {A : Type ℓ} {B : Type μ} (f : A → B) where
  pub mem-map : (xs : List A) (x : A) → Memᴰ x xs → Memᴰ (f x) (map f xs)
  mem-map [] x m = elim m [ ]
  mem-map (y ∷ ys) x (Memᴰ.head e) = Memᴰ.head (ap f e)
  mem-map (y ∷ ys) x (Memᴰ.tail m) = Memᴰ.tail (mem-map ys x m)

  pub All-of_map {κ} : (P : B → Type κ) (xs : List A) → All (λ x. P (f x)) xs → All P (map f xs)
  All-of_map P [] h = tt
  All-of_map P (x ∷ xs) h = (h.0, All-of_map P xs h.1)

module _ {ℓ} {V : Type ℓ} where
  -- A new key adds its row behind the others.
  pub values-insert_new :
      (k : String) (v : V) (m : List (String × V))
      → lookup k m ≡ none
      → values (insert k v m) ≡ values m ++ v ∷ []
  unfolding lookup insert
  values-insert_new k v [] h = refl
  values-insert_new k v ((j, w) ∷ m) h = elim (Bool-cases (j == k)) [
    | inl e ↦ absurd (ground (arith, e, h))
    | inr e ↦ let rest = values-insert_new k v m (rw e at h) in rw e (rw rest refl)
  ]

  pub lookup-mem :
      (k : String) (v : V) (m : List (String × V)) → lookup k m ≡ some v → Memᴰ v (values m)
  unfolding lookup
  lookup-mem k v [] h = absurd cc
  lookup-mem k v ((j, w) ∷ m) h = elim (Bool-cases (j == k)) [
    | inl e ↦ Memᴰ.head (ground (arith, e, h))
    | inr e ↦ Memᴰ.tail (lookup-mem k v m (rw e at h))
  ]

  module _ {κ} (P : V → Type κ) where
    -- What holds of every row holds after one row is put in.
    pub All-insert :
        (k : String) (v : V) (m : List (String × V))
        → All P (values m)
        → P v
        → All P (values (insert k v m))
    unfolding insert
    All-insert k v [] h p = (p, tt)
    All-insert k v ((j, w) ∷ m) h p = elim (Bool-cases (j == k)) [
      | inl e ↦ rw e (p, h.1)
      | inr e ↦ rw e (h.0, All-insert k v m h.1 p)
    ]

  module _ {κ} (R : V → V → Type κ) where
    -- A pairwise relation survives the replacement of a row by one that is related like it.
    pub AllPairs-insert :
        (k : String) (v w : V) (m : List (String × V))
        → lookup k m ≡ some v
        → ((x : V) → R x v → R x w)
        → ((x : V) → R v x → R w x)
        → AllPairs R (values m)
        → AllPairs R (values (insert k w m))
    unfolding lookup insert
    AllPairs-insert k v w [] h f g r = absurd cc
    AllPairs-insert k v w ((j, u) ∷ m) h f g r = elim (Bool-cases (j == k)) [
      | inl e ↦
          let same : u ≡ v = ground (arith, e, h) in
          rw e (All-map (R u) (R w) (λ x q. g x (rw same at q)) (values m) r.0, r.1)
      | inr e ↦
          let rest = rw e at h in
          rw e (
            All-insert (R u) k w m r.0
                (f u (All-mem (R u) (values m) v r.0 (lookup-mem k v m rest))),
            AllPairs-insert k v w m rest f g r.1,
          )
    ]

module _ {ℓ} {V : Type ℓ} where
  pub All-remove {κ} :
      (P : V → Type κ) (k : String) (m : List (String × V))
      → All P (values m)
      → All P (values (remove k m))
  unfolding remove
  All-remove P k [] h = tt
  All-remove P k ((j, w) ∷ m) h = elim (Bool-cases (j == k)) [
    | inl e ↦ rw e (All-remove P k m h.1)
    | inr e ↦ rw e (h.0, All-remove P k m h.1)
  ]

  pub AllPairs-remove {κ} :
      (R : V → V → Type κ) (k : String) (m : List (String × V))
      → AllPairs R (values m)
      → AllPairs R (values (remove k m))
  unfolding remove
  AllPairs-remove R k [] h = tt
  AllPairs-remove R k ((j, w) ∷ m) h = elim (Bool-cases (j == k)) [
    | inl e ↦ rw e (AllPairs-remove R k m h.1)
    | inr e ↦ rw e (All-remove (R w) k m h.0, AllPairs-remove R k m h.1)
  ]
