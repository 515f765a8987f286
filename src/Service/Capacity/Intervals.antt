-- ===== src/Service/Capacity/Intervals.antt =====
-- The interval of a prefix holds exactly the blocks of the range that the prefix overlaps.
use native.Mathlib.Nat.{div-mul-le_self, div-lt_iff_lt-mul, le-div_iff_mul-le}
use platform_ipam.Prelude.{
  ℕ, ◌+◌, ◌-◌, ◌*◌, ◌/◌, ◌^◌, ◌≤◌, ◌<◌, ◌≡◌, true, ltb, arith, if◌then◌else◌,
}
use platform_ipam.Service.Capacity.{sub64}
use platform_ipam.Service.Capacity.Counting.{between}

-- A block number between two quotients.
between_div :
    (x y s k : ℕ) → 0 < s → between (x / s) (y / s) k ≡ true → (x < k * s + s) × (k * s ≤ y)
between_div x y s k h e = (
  omega (arith, (div-lt_iff_lt-mul {k = s} {x = x} {y = k + 1} h).0 (ground arith)),
  (le-div_iff_mul-le {k = s} {x = k} {y = y} h).0 (ground arith),
)

div_between : (x y s k : ℕ) → 0 < s → x < k * s + s → k * s ≤ y → between (x / s) (y / s) k ≡ true
div_between x y s k h a b =
    let l = (div-lt_iff_lt-mul {k = s} {x = x} {y = k + 1} h).1 (omega arith) in
    let u = (le-div_iff_mul-le {k = s} {x = k} {y = y} h).1 b in ground arith

-- Where the cut range starts and ends, in addresses from the start of the pool.
abbrev pub lower : ℕ → ℕ → ℕ
lower lo start = if ltb lo start then start else lo

abbrev pub upper : ℕ → ℕ → ℕ
upper hi end = if ltb end hi then end else hi

abbrev pub first_block : ℕ → ℕ → ℕ → ℕ
first_block start lo s = sub64 (lower lo start) start / s

abbrev pub last_block : ℕ → ℕ → ℕ → ℕ → ℕ → ℕ
last_block start whole lo p s = sub64 (upper (lo + p - 1) (start + whole - 1)) start / s

quotient_mono : (x y s : ℕ) → 0 < s → x ≤ y → x / s ≤ y / s
quotient_mono x y s h le =
    (le-div_iff_mul-le {k = s} {x = x / s} {y = y} h).1 (omega (arith, div-mul-le_self x s))

-- A last address below the bound is in a block below the bound.
module _ (start whole lo p s t : ℕ) (s_pos : 0 < s) (p_pos : 0 < p) (whole_pos : 0 < whole)
    (p_end : lo + p ≤ 2 ^ 32) (base_end : start + whole ≤ 2 ^ 32) (even : whole ≡ t * s)
    (meets : start < lo + p) (met : lo < start + whole) where
  first_sub : sub64 (lower lo start) start ≡ lower lo start - start
  first_sub = ground arith

  last_sub :
      sub64 (upper (lo + p - 1) (start + whole - 1)) start
      ≡ upper (lo + p - 1) (start + whole - 1) - start
  last_sub = ground arith

  pub first_le : first_block start lo s ≤ last_block start whole lo p s
  first_le = rw (first_sub, last_sub) (quotient_mono _ _ s s_pos (ground arith))

  pub last_lt : last_block start whole lo p s < t
  last_lt = rw last_sub (
      (div-lt_iff_lt-mul {k = s} {x = upper (lo + p - 1) (start + whole - 1) - start} {y = t}
          s_pos).1
        (ground arith))

module _ (start whole lo p s k : ℕ) (s_pos : 0 < s) (p_pos : 0 < p) (p_end : lo + p ≤ 2 ^ 32)
    (base_end : start + whole ≤ 2 ^ 32) (inside : k * s + s ≤ whole) (meets : start < lo + p)
    (met : lo < start + whole) where
  lower_sub : sub64 (lower lo start) start ≡ lower lo start - start
  lower_sub = ground arith

  upper_sub :
      sub64 (upper (lo + p - 1) (start + whole - 1)) start
      ≡ upper (lo + p - 1) (start + whole - 1) - start
  upper_sub = ground arith

  pub holds_forth :
      between (first_block start lo s) (last_block start whole lo p s) k ≡ true
      → (start + k * s < lo + p) × (lo < start + k * s + s)
  holds_forth h =
      let d = between_div _ _ s k s_pos h in let d' = rw (lower_sub, upper_sub) at d in ground arith

  pub holds_back :
      start + k * s < lo + p
      → lo < start + k * s + s
      → between (first_block start lo s) (last_block start whole lo p s) k ≡ true
  holds_back a b =
      rw (lower_sub, upper_sub) (div_between _ _ s k s_pos (ground arith) (ground arith))
