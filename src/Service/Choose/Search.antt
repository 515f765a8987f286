-- ===== src/Service/Choose/Search.antt =====
-- The candidate loop finds the first candidate that passes, and none only if all fail.
use platform_ipam.Prelude.{
  ℕ, zero, suc, ◌+◌, ◌≤◌, ◌<◌, ◌≡◌, sym, ◌∙◌, Bool, true, false, Option, none, some, inl, inr, ◌⊎◌,
  Bool-cases, Option-cases, arith,
}
use platform_ipam.Netip.{Prefix}
use platform_ipam.Service.Choose.{search_from}

eq_or_lt : (i j : ℕ) → i ≤ j → (i ≡ j) ⊎ (i + 1 ≤ j)
eq_or_lt i j h = grind arith

module _ (free : Prefix → Bool) (at : ℕ → Option Prefix) where
  pub record Found (n i : ℕ) (p : Prefix) : Type 0 where
    pub index : ℕ
    pub from : i ≤ index
    pub below : index < i + n
    pub candidate : at index ≡ some p
    pub passes : free p ≡ true
    pub first : (j : ℕ) (q : Prefix) → i ≤ j → j < index → at j ≡ some q → free q ≡ false

  later :
      (n i : ℕ) (p : Prefix)
      → ((q : Prefix) → at i ≡ some q → free q ≡ false)
      → Found n (i + 1) p
      → Found (suc n) i p
  later n i p skipped f = record {
    index = f.index;
    from = omega (arith, f.from);
    below = omega (arith, f.below);
    candidate = f.candidate;
    passes = f.passes;
    first = λ j q ge lt e. elim (eq_or_lt i j ge) [
      | inl s ↦ skipped q (rw s e)
      | inr g ↦ f.first j q g lt e
    ];
  }

  module _ (n i : ℕ) where
    step_none : at i ≡ none → search_from free at (suc n) i ≡ search_from free at n (i + 1)
    unfolding search_from
    step_none e = rw (e, search_from)

    step_skip :
        (q : Prefix)
        → at i ≡ some q
        → free q ≡ false
        → search_from free at (suc n) i ≡ search_from free at n (i + 1)
    unfolding search_from
    step_skip q e f = rw (e, search_from) (rw f)

    step_hit : (q : Prefix) → at i ≡ some q → free q ≡ true → search_from free at (suc n) i ≡ some q
    unfolding search_from
    step_hit q e f = rw (e, search_from) (rw f)

  here : (n i : ℕ) (q p : Prefix) → at i ≡ some q → free q ≡ true → q ≡ p → Found (suc n) i p
  here n i q p e f same = record {
    index = i;
    from = omega arith;
    below = omega arith;
    candidate = rw (← same) e;
    passes = rw (← same) f;
    first = λ j q' ge lt e'. absurd (omega arith);
  }

  -- A hit is the first candidate that passes.
  pub search_from-Found : (n i : ℕ) (p : Prefix) → search_from free at n i ≡ some p → Found n i p
  search_from-Found zero i p h = unfold search_from in cc h
  search_from-Found (suc n) i p h = elim (Option-cases (at i)) [
    | inl e ↦
        later n i p (λ q e'. cc (e, e')) (search_from-Found n (i + 1) p (sym (step_none n i e) ∙ h))
    | inr (q, e) ↦ elim (Bool-cases (free q)) [
      | inl f ↦ here n i q p e f (cc (step_hit n i q e f, h))
      | inr f ↦
          later n i p (λ q' e'. cc (e, e', f))
            (search_from-Found n (i + 1) p (sym (step_skip n i q e f) ∙ h))
    ]
  ]

  -- No hit means that every candidate fails.
  pub search_from-none :
      (n i : ℕ)
      → search_from free at n i ≡ none
      → (j : ℕ) (q : Prefix) → i ≤ j
      → j < i + n
      → at j ≡ some q
      → free q ≡ false
  search_from-none zero i h j q ge lt e = absurd (omega arith)
  search_from-none (suc n) i h j q ge lt e = elim (Option-cases (at i)) [
    | inl e' ↦ elim (eq_or_lt i j ge) [
      | inl s ↦ cc (e, e', s)
      | inr g ↦ search_from-none n (i + 1) (sym (step_none n i e') ∙ h) j q g (omega arith) e
    ]
    | inr (q', e') ↦ elim (Bool-cases (free q')) [
      | inl f ↦ cc (step_hit n i q' e' f, h)
      | inr f ↦ elim (eq_or_lt i j ge) [
        | inl s ↦ cc (e, e', s, f)
        | inr g ↦ search_from-none n (i + 1) (sym (step_skip n i q' e' f) ∙ h) j q g (omega arith) e
      ]
    ]
  ]
