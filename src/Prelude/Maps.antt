-- ===== src/Prelude/Maps.antt =====
-- Go maps from strings: association lists in the order that an iteration visits. Every theorem
-- about an iteration holds for every such order.
use Prim.Native.String.{String}
use mathlib.Core.Path.{◌≡◌, refl, ap}
use mathlib.Core.Logic.{◌≢◌, inl, inr}
use mathlib.Core.Option.{Option, none, some}
use mathlib.Core.List.{List, [], ◌∷◌}
use native.Mathlib.Omega.{arith}
use platform_ipam.Prelude.Tests.{◌==◌, string_eq, text_eq_iff, Bool-cases, if◌then◌else◌}

module _ {ℓ} {V : Type ℓ} where
  -- `for _, v := range m`
  abbrev pub values : List (String × V) → List V
  values [] = []
  values ((k, v) ∷ m) = v ∷ values m

  -- The row under a key.
  unfoldable pub lookup : String → List (String × V) → Option V
  lookup key [] = none
  lookup key ((name, row) ∷ rest) =
      let later = lookup key rest in if name == key then some row else later

  -- `m[key] = row`
  unfoldable pub insert : String → V → List (String × V) → List (String × V)
  insert key row [] = (key, row) ∷ []
  insert key row ((name, old) ∷ rest) =
      let later = insert key row rest in
      if name == key then (key, row) ∷ rest else (name, old) ∷ later

  -- `delete(m, key)`
  unfoldable pub remove : String → List (String × V) → List (String × V)
  remove key [] = []
  remove key ((name, row) ∷ rest) =
      let later = remove key rest in if name == key then later else (name, row) ∷ later

  pub lookup-remove : (key : String) (m : List (String × V)) → lookup key (remove key m) ≡ none
  unfolding lookup remove
  lookup-remove key [] = refl
  lookup-remove key ((k, v) ∷ m) = ground (arith, lookup-remove key m)

  pub lookup-remove_other :
      (key other : String) (m : List (String × V))
      → key ≢ other
      → lookup other (remove key m) ≡ lookup other m
  unfolding lookup remove
  lookup-remove_other key other [] n = refl
  lookup-remove_other key other ((k, v) ∷ m) n =
      ground (arith, lookup-remove_other key other m n, n, text_eq_iff k key, text_eq_iff k other)

  pub lookup-insert :
      (key other : String) (row : V) (rows : List (String × V))
      → lookup other (insert key row rows) ≡ (if key == other then some row else lookup other rows)
  unfolding lookup insert
  lookup-insert key other row [] = refl
  lookup-insert key other row ((name, old) ∷ rest) = ground (
    arith,
    lookup-insert key other row rest,
    text_eq_iff name key,
    text_eq_iff name other,
    text_eq_iff key other,
  )

  -- A row that is put in again where it is changes nothing.
  pub insert-same :
      (key : String) (row : V) (m : List (String × V))
      → lookup key m ≡ some row
      → insert key row m ≡ m
  unfolding lookup insert
  insert-same key row [] e = absurd cc
  insert-same key row ((name, old) ∷ rest) e = elim (Bool-cases (name == key)) [
    | inl t ↦
        let name_is : name ≡ key = (text_eq_iff name key).0 t in
        let old_is : old ≡ row = ground (arith, t, e) in rw t (cc)
    | inr t ↦ rw t (ap (λ m. (name, old) ∷ m) (insert-same key row rest (rw t at e)))
  ]

  pub lookup-insert_self :
      (key : String) (row : V) (m : List (String × V)) → lookup key (insert key row m) ≡ some row
  lookup-insert_self key row m = ground (arith, lookup-insert key key row m, text_eq_iff key key)
