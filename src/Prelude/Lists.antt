-- ===== src/Prelude/Lists.antt =====
-- Lists measured by native numbers, the loops `any` and `count_if` that Go writes as `for`, and
-- predicates on lists by recursion.
use Prim.Native.Nat.{ℕ, zero, suc}
use mathlib.Core.Path.{◌≡◌, refl}
use mathlib.Core.Logic.{inl, inr}
use mathlib.Core.Bool.{Bool, true, false, ◌||◌}
use mathlib.Core.Option.{Option, none, some}
use mathlib.Core.List.{List, [], ◌∷◌, Memᴰ}
use native.Mathlib.Omega.{arith}
use platform_ipam.Prelude.Tests.{if◌then◌else◌, Bool-cases}

module _ {ℓ} {A : Type ℓ} where
  abbrev pub length : List A → ℕ
  length [] = 0
  length (x ∷ xs) = suc (length xs)

  abbrev pub drop : ℕ → List A → List A
  drop zero xs = xs
  drop (suc n) [] = []
  drop (suc n) (x ∷ xs) = drop n xs

  abbrev pub last? : List A → Option A
  last? [] = none
  last? (x ∷ []) = some x
  last? (x ∷ y ∷ xs) = last? (y ∷ xs)

  -- `for … { if test { found = true; break } }`
  abbrev pub any : (A → Bool) → List A → Bool
  any f [] = false
  any f (x ∷ xs) = f x || any f xs

  abbrev pub count_if : (A → Bool) → List A → ℕ
  count_if f [] = 0
  count_if f (x ∷ xs) = let n = count_if f xs in if f x then suc n else n

  -- `for … { if test { out = append(out, x) } }`
  abbrev pub keep_if : (A → Bool) → List A → List A
  keep_if f [] = []
  keep_if f (x ∷ xs) = let r = keep_if f xs in if f x then x ∷ r else r

  abbrev pub find_first : (A → Bool) → List A → Option A
  find_first f [] = none
  find_first f (x ∷ xs) = let r = find_first f xs in if f x then some x else r

  -- A predicate of every element, and of every pair of different places.
  abbrev pub All {κ} : (A → Type κ) → List A → Type κ
  All P [] = Unit
  All P (x ∷ xs) = P x × All P xs

  abbrev pub AllPairs {κ} : (A → A → Type κ) → List A → Type κ
  AllPairs R [] = Unit
  AllPairs R (x ∷ xs) = All (R x) xs × AllPairs R xs

module _ {ℓ} {A : Type ℓ} where
  pub any-mem : (f : A → Bool) (xs : List A) (x : A) → any f xs ≡ false → Memᴰ x xs → f x ≡ false
  any-mem f [] x h m = elim m [ ]
  any-mem f (y ∷ ys) x h (Memᴰ.head e) = ground (arith, e)
  any-mem f (y ∷ ys) x h (Memᴰ.tail m) = any-mem f ys x (ground arith) m

  pub any-found :
      (f : A → Bool) (xs : List A) → any f xs ≡ true → (x : A) × Memᴰ x xs × (f x ≡ true)
  any-found f [] h = absurd cc
  any-found f (x ∷ xs) h = elim (Bool-cases (f x)) [
    | inl e ↦ (x, Memᴰ.head refl, e)
    | inr e ↦ let (y, m, t) = any-found f xs (ground (arith, e)) in (y, Memᴰ.tail m, t)
  ]

  pub mem-any : (f : A → Bool) (xs : List A) (x : A) → Memᴰ x xs → f x ≡ true → any f xs ≡ true
  mem-any f [] x m h = elim m [ ]
  mem-any f (y ∷ ys) x (Memᴰ.head e) h = let t : f y ≡ true = rw (← e) h in rw t refl
  mem-any f (y ∷ ys) x (Memᴰ.tail m) h = ground (arith, mem-any f ys x m h)
