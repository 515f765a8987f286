-- ===== src/Prelude/Tests.antt =====
-- Boolean tests, the conditional, and equality as an interface (Go's `==` on numbers, strings and
-- byte sequences).
use Prim.Native.Nat.{ℕ, ◌≤◌, ◌<◌, compare, Ordering}
use Prim.Native.Char.{code}
use Prim.Native.String.{String}
use mathlib.Core.Path.{◌≡◌, refl}
use mathlib.Core.Logic.{◌↔◌, ◌⊎◌, inl, inr}
use mathlib.Core.Bool.{Bool, true, false, ◌&&◌}
use mathlib.Core.Option.{Option, none, some}
use mathlib.Core.List.{List, [], ◌∷◌}
use native.Mathlib.Omega.{arith}
use text.Mathlib.Text.{◌==◌ as text_beq}
use text.Mathlib.TextEquality.{eq_iff}

-- These compute to `compare`, which `ground` reads with no lemma listed.
abbrev pub ltb : ℕ → ℕ → Bool
ltb a b = elim (compare a b) [ Ordering.lt ↦ true | _ ↦ false ]

abbrev pub leb : ℕ → ℕ → Bool
leb a b = elim (compare a b) [ Ordering.gt ↦ false | _ ↦ true ]

abbrev pub nat_beq : ℕ → ℕ → Bool
nat_beq a b = elim (compare a b) [ Ordering.eq ↦ true | _ ↦ false ]

infix 1 if◌then◌else◌
abbrev pub if◌then◌else◌ {ℓ} : {A : Type ℓ} → Bool → A → A → A
if true then x else y = x
if false then x else y = y

-- Strings that the program takes apart are lists of byte values.
abbrev pub bytes_beq : List ℕ → List ℕ → Bool
bytes_beq [] [] = true
bytes_beq (a ∷ xs) (b ∷ ys) = nat_beq a b && bytes_beq xs ys
bytes_beq _ _ = false

pub nat_beq_iff : (a b : ℕ) → (nat_beq a b ≡ true) ↔ (a ≡ b)
nat_beq_iff a b = ground arith

pub bytes_beq_sound : (xs ys : List ℕ) → bytes_beq xs ys ≡ true → xs ≡ ys
bytes_beq_sound [] [] h = refl
bytes_beq_sound [] (b ∷ ys) h = cc
bytes_beq_sound (a ∷ xs) [] h = cc
bytes_beq_sound (a ∷ xs) (b ∷ ys) h = ground (arith, bytes_beq_sound xs ys)

pub bytes_beq_refl : (xs : List ℕ) → bytes_beq xs xs ≡ true
bytes_beq_refl [] = refl
bytes_beq_refl (a ∷ xs) = ground (arith, bytes_beq_refl xs)

-- The comparison of a type's values, and that it decides their equality.
pub record Comparable {ℓ} (A : Type ℓ) : Type ℓ where
  pub equals : A → A → Bool
  pub equals_iff : (x y : A) → (equals x y ≡ true) ↔ (x ≡ y)

infix 50 ◌==◌
abbrev pub ◌==◌ {ℓ} : {A : Type ℓ} ⦃cmp : Comparable A⦄ → A → A → Bool
◌==◌ ⦃cmp⦄ = cmp.equals

bytes_beq_complete : (xs ys : List ℕ) → xs ≡ ys → bytes_beq xs ys ≡ true
bytes_beq_complete xs ys e = rw e (bytes_beq_refl ys)

pub bytes_beq_iff : (xs ys : List ℕ) → (bytes_beq xs ys ≡ true) ↔ (xs ≡ ys)
bytes_beq_iff xs ys = (bytes_beq_sound xs ys, bytes_beq_complete xs ys)

instance abbrev pub bytes_eq : Comparable (List ℕ)
bytes_eq = record { equals = bytes_beq; equals_iff = bytes_beq_iff }

instance abbrev pub nat_eq : Comparable ℕ
nat_eq = record { equals = nat_beq; equals_iff = nat_beq_iff }

instance abbrev pub string_eq : Comparable String
string_eq = record { equals = text_beq; equals_iff = eq_iff }

pub text_eq_iff : (s t : String) → ((s == t) ≡ true) ↔ (s ≡ t)
text_eq_iff = eq_iff

pub ltb→lt : (a b : ℕ) → ltb a b ≡ true → a < b
ltb→lt a b h = ground arith

pub leb→le : (a b : ℕ) → leb a b ≡ true → a ≤ b
leb→le a b h = ground arith

-- To split on a computed value and keep the equation.
pub Bool-cases : (b : Bool) → (b ≡ true) ⊎ (b ≡ false)
Bool-cases true = inl refl
Bool-cases false = inr refl

pub Option-cases {ℓ} : {A : Type ℓ} (o : Option A) → (o ≡ none) ⊎ ((a : A) × (o ≡ some a))
Option-cases none = inl refl
Option-cases (some a) = inr (a, refl)

pub some_eq {ℓ} : {A : Type ℓ} {a b : A} → some a ≡ some b → a ≡ b
some_eq h = cc

-- The code points of a text.
abbrev pub codes : String → List ℕ
codes String.[] = []
codes (String.◌∷◌ c s) = code c ∷ codes s

-- `a < b` on texts: Go compares bytes, and UTF-8 keeps the order of the code points.
unfoldable pub text_lt : List ℕ → List ℕ → Bool
text_lt [] [] = false
text_lt [] (b ∷ ys) = true
text_lt (a ∷ xs) [] = false
text_lt (a ∷ xs) (b ∷ ys) =
    let rest = text_lt xs ys in if ltb a b then true else if ltb b a then false else rest
