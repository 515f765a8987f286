-- ===== src/Service/Reads/Order.antt =====
-- The order of texts by which `List` sorts, and what an insertion keeps of a strict order.
use Prim.Native.String.compare
use Prim.Native.Nat as Nat
use Prim.Native.Nat.{Ordering}
use Prim.Native.Char.{code}
use text.Mathlib.TextEquality.{codes_equal}
use platform_ipam.Prelude.{
  ◌≡◌, ◌≢◌, refl, sym, ◌∙◌, ap, String, ℕ, List, [], ◌∷◌, Bool, true, false, inl, inr, All,
  AllPairs, All-map, Bool-cases, codes, text_lt as codes_lt, ltb, string_eq, arith,
}
use platform_ipam.Service.Reads.{text_lt, insert_by, sort_by}

text_lt-codes : (s t : String) → text_lt s t ≡ codes_lt (codes s) (codes t)
unfolding codes_lt
text_lt-codes String.[] String.[] = refl
text_lt-codes String.[] (String.◌∷◌ d t) = rw (text_lt, compare.nil-cons d t) refl
text_lt-codes (String.◌∷◌ c s) String.[] = rw (text_lt, compare.cons-nil c s) refl
text_lt-codes (String.◌∷◌ c s) (String.◌∷◌ d t) =
    rw (text_lt, compare.cons-cons c d s t) (ground (arith, text_lt-codes s t))

codes_lt_trans :
    (xs ys zs : List ℕ) → codes_lt xs ys ≡ true → codes_lt ys zs ≡ true → codes_lt xs zs ≡ true
unfolding codes_lt
codes_lt_trans [] [] zs h k = absurd cc
codes_lt_trans [] (y ∷ ys) [] h k = absurd cc
codes_lt_trans [] (y ∷ ys) (z ∷ zs) h k = refl
codes_lt_trans (x ∷ xs) [] zs h k = absurd cc
codes_lt_trans (x ∷ xs) (y ∷ ys) [] h k = absurd cc
codes_lt_trans (x ∷ xs) (y ∷ ys) (z ∷ zs) h k = ground (arith, h, k, codes_lt_trans xs ys zs)

codes_lt_total : (xs ys : List ℕ) → xs ≢ ys → codes_lt xs ys ≡ false → codes_lt ys xs ≡ true
unfolding codes_lt
codes_lt_total [] [] n h = absurd (n refl)
codes_lt_total [] (y ∷ ys) n h = absurd cc
codes_lt_total (x ∷ xs) [] n h = refl
codes_lt_total (x ∷ xs) (y ∷ ys) n h = elim (Bool-cases (ltb x y)) [
  | inl e ↦ absurd (ground (arith, h, e))
  | inr e ↦ elim (Bool-cases (ltb y x)) [
    | inl f ↦ rw f refl
    | inr f ↦
        let same : x ≡ y = ground (arith, e, f) in
        let rest : codes_lt xs ys ≡ false = ground (arith, h, e, f) in
        let apart : xs ≢ ys = λ q. n (rw (same, q) refl) in
        ground (arith, e, f, codes_lt_total xs ys apart rest)
  ]
]

codes-injective : (s t : String) → codes s ≡ codes t → s ≡ t
codes-injective String.[] String.[] e = refl
codes-injective String.[] (String.◌∷◌ d t) e = absurd (ground (arith, e))
codes-injective (String.◌∷◌ c s) String.[] e = absurd (ground (arith, e))
codes-injective (String.◌∷◌ c s) (String.◌∷◌ d t) e =
    let first : code c ≡ code d = ground (arith, e) in
    let rest : codes s ≡ codes t = ground (arith, e) in
    let equal : Nat.compare (code c) (code d) ≡ Ordering.eq = ground (arith, first) in
    let same : c ≡ d = codes_equal c d equal in
    ap (λ x. String.◌∷◌ x s) same ∙ ap (String.◌∷◌ d) (codes-injective s t rest)

pub text_lt_trans : (s t u : String) → text_lt s t ≡ true → text_lt t u ≡ true → text_lt s u ≡ true
text_lt_trans s t u h k =
    text_lt-codes s u
    ∙ codes_lt_trans (codes s) (codes t) (codes u) (sym (text_lt-codes s t) ∙ h)
        (sym (text_lt-codes t u) ∙ k)

pub text_lt_total : (s t : String) → s ≢ t → text_lt s t ≡ false → text_lt t s ≡ true
text_lt_total s t n h =
    text_lt-codes t s
    ∙ codes_lt_total (codes s) (codes t) (λ e. n (codes-injective s t e))
        (sym (text_lt-codes s t) ∙ h)

module _ {ℓ} {A : Type ℓ} where
  All-insert_by :
      (P : A → Type 0) (less : A → A → Bool) (x : A) (ys : List A)
      → P x
      → All P ys
      → All P (insert_by less x ys)
  unfolding insert_by
  All-insert_by P less x [] p h = (p, tt)
  All-insert_by P less x (y ∷ ys) p h = elim (Bool-cases (less x y)) [
    | inl e ↦ rw e (p, h)
    | inr e ↦ rw e (h.0, All-insert_by P less x ys p h.1)
  ]

  pub All-sort_by :
      (P : A → Type 0) (less : A → A → Bool) (xs : List A) → All P xs → All P (sort_by less xs)
  unfolding sort_by
  All-sort_by P less [] h = tt
  All-sort_by P less (x ∷ xs) h =
      All-insert_by P less x (sort_by less xs) h.0 (All-sort_by P less xs h.1)

-- A list in a strict order by the ids, after the insertion of an element with another id.
module _ {ℓ} {A : Type ℓ} (id : A → String) where
  abbrev pub Increasing : List A → Type 0
  Increasing = AllPairs (λ x y. text_lt (id x) (id y) ≡ true)

  abbrev pub Distinct : List A → Type 0
  Distinct = AllPairs (λ x y. id x ≢ id y)

  insert_by-Increasing :
      (x : A) (ys : List A)
      → All (λ y. id x ≢ id y) ys
      → Increasing ys
      → Increasing (insert_by (λ a b. text_lt (id a) (id b)) x ys)
  unfolding insert_by
  insert_by-Increasing x [] d h = (tt, tt)
  insert_by-Increasing x (y ∷ ys) d h = elim (Bool-cases (text_lt (id x) (id y))) [
    | inl e ↦ rw e (
      (
        e,
        All-map (λ z. text_lt (id y) (id z) ≡ true) (λ z. text_lt (id x) (id z) ≡ true)
            (λ z k. text_lt_trans (id x) (id y) (id z) e k) ys h.0,
      ),
      h,
    )
    | inr e ↦ rw e (
      All-insert_by (λ z. text_lt (id y) (id z) ≡ true) (λ a b. text_lt (id a) (id b)) x ys
          (text_lt_total (id x) (id y) d.0 e) h.0,
      insert_by-Increasing x ys d.1 h.1,
    )
  ]

  -- A sort by distinct ids is strictly increasing.
  pub sort_by-Increasing :
      (xs : List A) → Distinct xs → Increasing (sort_by (λ a b. text_lt (id a) (id b)) xs)
  unfolding sort_by
  sort_by-Increasing [] h = tt
  sort_by-Increasing (x ∷ xs) h =
      insert_by-Increasing x (sort_by (λ a b. text_lt (id a) (id b)) xs)
        (All-sort_by (λ y. id x ≢ id y) (λ a b. text_lt (id a) (id b)) xs h.0)
        (sort_by-Increasing xs h.1)
