-- ===== src/Service/Capacity/Counting.antt =====
-- How many numbers below a bound pass a test.
use native.Mathlib.Decide.{dec_lt}
use platform_ipam.Prelude.{
  ℕ, zero, suc, ◌+◌, ◌-◌, ◌≤◌, ◌<◌, ◌≡◌, refl, Bool, true, false, not, ◌&&◌, ◌||◌, leb, arith,
  if◌then◌else◌,
}

unfoldable pub count_below : ℕ → (ℕ → Bool) → ℕ
count_below zero f = 0
count_below (suc n) f = let rest = count_below n f in if f n then suc rest else rest

module _ (f g : ℕ → Bool) where
  pub count_below-ext : (n : ℕ) → ((k : ℕ) → k < n → f k ≡ g k) → count_below n f ≡ count_below n g
  unfolding count_below
  count_below-ext zero h = refl
  count_below-ext (suc n) h = ground (arith, h n, count_below-ext n (λ k lt. h k (omega arith)))

  -- Tests that exclude one another add up.
  pub count_below-or :
      (n : ℕ)
      → ((k : ℕ) → k < n → f k ≡ true → g k ≡ false)
      → count_below n (λ k. f k || g k) ≡ count_below n f + count_below n g
  unfolding count_below
  count_below-or zero h = refl
  count_below-or (suc n) h = ground (arith, h n, count_below-or n (λ k lt. h k (omega arith)))

pub count_below-le : (n : ℕ) (f : ℕ → Bool) → count_below n f ≤ n
unfolding count_below
count_below-le zero f = omega arith
count_below-le (suc n) f = ground (arith, count_below-le n f)

pub count_below-not : (n : ℕ) (f : ℕ → Bool) → count_below n f + count_below n (λ k. not (f k)) ≡ n
unfolding count_below
count_below-not zero f = refl
count_below-not (suc n) f = ground (arith, count_below-not n f)

abbrev pub between : ℕ → ℕ → ℕ → Bool
between a b k = leb a k && leb k b

count_below-from : (n a b : ℕ) → n ≤ b + 1 → count_below n (between a b) ≡ n - a
unfolding count_below
count_below-from zero a b h = omega arith
count_below-from (suc n) a b h = ground (arith, count_below-from n a b (omega arith))

-- The numbers from `a` to `b`, where `b` is below the bound.
pub count_below-between : (n a b : ℕ) → a ≤ b → b < n → count_below n (between a b) ≡ b - a + 1
unfolding count_below
count_below-between zero a b h lt = absurd (omega arith)
count_below-between (suc n) a b h lt = elim (dec_lt b n) [
  | yes g ↦ ground (arith, count_below-between n a b h g)
  | no g ↦ let e = count_below-from (suc n) a b (omega arith) in omega (arith, e)
]

pub count_below-false : (n : ℕ) → count_below n (λ k. false) ≡ 0
unfolding count_below
count_below-false zero = refl
count_below-false (suc n) = count_below-false n
