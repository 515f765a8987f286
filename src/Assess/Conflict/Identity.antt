-- ===== src/Assess/Conflict/Identity.antt =====
-- The id of a conflict does not depend on which of its two resources was read first.
use platform_ipam.Prelude.{◌≡◌, refl, [], ◌∷◌, true, false, inl, inr, text_lt, Bool-cases, arith}
use platform_ipam.Assess.{Text}
use platform_ipam.Assess.Sweep.{Kind}
use platform_ipam.Assess.Conflict.{conflict_id}

-- The order of texts is asymmetric, and two texts without an order are equal.
text_lt_asymm : (a b : Text) → text_lt a b ≡ true → text_lt b a ≡ false
unfolding text_lt
text_lt_asymm [] [] h = refl
text_lt_asymm [] (b ∷ ys) h = refl
text_lt_asymm (a ∷ xs) [] h = absurd cc
text_lt_asymm (a ∷ xs) (b ∷ ys) h = ground (arith, h, text_lt_asymm xs ys)

text_lt_total : (a b : Text) → text_lt a b ≡ false → text_lt b a ≡ false → a ≡ b
unfolding text_lt
text_lt_total [] [] h k = refl
text_lt_total [] (b ∷ ys) h k = absurd cc
text_lt_total (a ∷ xs) [] h k = absurd cc
text_lt_total (a ∷ xs) (b ∷ ys) h k = ground (arith, h, k, text_lt_total xs ys)

-- Two resources in either order have one conflict id.
pub conflict_id_comm :
    (digest : Text → Text) (kind : Kind) (a b : Text)
    → conflict_id digest kind a b ≡ conflict_id digest kind b a
unfolding conflict_id
conflict_id_comm digest kind a b = elim (Bool-cases (text_lt b a)) [
  | inl e ↦ rw (e, text_lt_asymm b a e) refl
  | inr e ↦ elim (Bool-cases (text_lt a b)) [
    | inl f ↦ rw (e, f) refl
    | inr f ↦ rw (text_lt_total a b f e) refl
  ]
]
