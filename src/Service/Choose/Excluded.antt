-- ===== src/Service/Choose/Excluded.antt =====
-- What `overlapsExcluded` decides.
use mathlib.Core.Bool.{Bool-set}
use mathlib.Core.Logic.{∥∥₁_elim, ∥∥₁_prop}
use platform_ipam.Prelude.{
  ℕ, ◌≡◌, refl, ◌↔◌, List, [], ◌∷◌, true, Memᴰ, some, Option-cases, Bool-cases, inl, inr, arith,
}
use platform_ipam.Netip.{Prefix, IsValid, contains}
use platform_ipam.Netip.Blocks.{overlaps_iff}
use platform_ipam.Netip.Text.{parse_prefix}
use platform_ipam.Netip.Printing.{parse_prefix-IsValid}
use platform_ipam.Service.Choose.{overlapping, overlaps_excluded, is_hit}

-- An address of the prefix in one of the ranges.
pub record Shared (p : Prefix) (ranges : List (List ℕ)) : Type 0 where
  pub text : List ℕ
  pub listed : Memᴰ text ranges
  pub range : Prefix
  pub parsed : parse_prefix text ≡ some range
  pub address : ℕ
  pub inside : contains p address ≡ true
  pub excluded : contains range address ≡ true

module _ (p : Prefix) (v : IsValid p) where
  later : (text : List ℕ) (ranges : List (List ℕ)) → Shared p ranges → Shared p (text ∷ ranges)
  later text ranges s = record {
    text = s.text;
    listed = Memᴰ.tail s.listed;
    range = s.range;
    parsed = s.parsed;
    address = s.address;
    inside = s.inside;
    excluded = s.excluded;
  }

  hit-shared :
      (text : List ℕ) (ranges : List (List ℕ))
      → is_hit (overlapping p text) ≡ true
      → ∥ Shared p (text ∷ ranges) ∥₁
  unfolding overlapping
  hit-shared text ranges h = elim (Option-cases (parse_prefix text)) [
    | inl e ↦ absurd (ground (arith, h, e))
    | inr (q, e) ↦
        ∥∥₁_elim ((overlaps_iff p q v (parse_prefix-IsValid text q e)).0 (ground (arith, h, e)))
          ∥∥₁_prop
          λ c. ∣ record {
            text = text;
            listed = Memᴰ.head refl;
            range = q;
            parsed = e;
            address = c.0;
            inside = c.1;
            excluded = c.2;
          } ∣₁
  ]

  forth : (ranges : List (List ℕ)) → overlaps_excluded p ranges ≡ true → ∥ Shared p ranges ∥₁
  unfolding overlaps_excluded
  forth [] h = absurd cc
  forth (text ∷ ranges) h = elim (Bool-cases (is_hit (overlapping p text))) [
    | inl e ↦ hit-shared text ranges e
    | inr e ↦ ∥∥₁_elim (forth ranges (ground (arith, h, e))) ∥∥₁_prop λ s. ∣ later text ranges s ∣₁
  ]

  shared-hit :
      (text : List ℕ) (q : Prefix) (x : ℕ)
      → parse_prefix text ≡ some q
      → contains p x ≡ true
      → contains q x ≡ true
      → is_hit (overlapping p text) ≡ true
  unfolding overlapping
  shared-hit text q x e a b =
      let o = (overlaps_iff p q v (parse_prefix-IsValid text q e)).1 ∣ (x, a, b) ∣₁ in
      ground (arith, o, e)

  listed-hit :
      (text : List ℕ) (ranges : List (List ℕ))
      → Memᴰ text ranges
      → is_hit (overlapping p text) ≡ true
      → overlaps_excluded p ranges ≡ true
  unfolding overlaps_excluded
  listed-hit text [] m h = elim m [ ]
  listed-hit text (t ∷ ranges) (Memᴰ.head e) h = ground (arith, h, e)
  listed-hit text (t ∷ ranges) (Memᴰ.tail m) h = ground (arith, listed-hit text ranges m h)

-- A valid prefix counts as excluded exactly when it has an address in common with one of the
-- excluded ranges that parse.
pub overlaps_excluded_iff :
    (p : Prefix) (ranges : List (List ℕ))
    → IsValid p
    → (overlaps_excluded p ranges ≡ true) ↔ ∥ Shared p ranges ∥₁
overlaps_excluded_iff p ranges v = (
  forth p v ranges,
  λ t. ∥∥₁_elim t (Bool-set _ _) λ s.
      listed-hit p v s.text ranges s.listed
        (shared-hit p v s.text s.range s.address s.parsed s.inside s.excluded),
)
