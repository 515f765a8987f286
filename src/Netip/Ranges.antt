-- ===== src/Netip/Ranges.antt =====
-- The addresses of a prefix as a range of numbers.
use native.Mathlib.Nat.{div-add-mod', mod-lt, div-eq_of_lt-le}
use native.Mathlib.Bridge.{le_prop}
use mathlib.Core.Logic.{∥∥₁_elim}
use native.Mathlib.Decide.{dec_le}
use platform_ipam.Prelude.{ℕ, ◌+◌, ◌-◌, ◌*◌, ◌/◌, ◌^◌, ◌≤◌, ◌<◌, ◌≡◌, sym, ap, ◌∙◌, true, arith}
use platform_ipam.Netip.{Prefix, IsValid, contains, overlaps, size}
use platform_ipam.Netip.Blocks.{
  size-pos, two-pow-add, contains_iff, overlaps_iff, overlaps_of_common,
}

abbrev pub first_addr : Prefix → ℕ
first_addr p = p.addr / size p.bits * size p.bits

-- A quotient is the number of the block that a number is in.
in_block : (s a x : ℕ) → 0 < s → a ≡ x / s → (a * s ≤ x) × (x < a * s + s)
in_block s a x h e =
    rw e (omega (arith, div-add-mod' x s, mod-lt x h), omega (arith, div-add-mod' x s, mod-lt x h))

block_of : (s a x : ℕ) → a * s ≤ x → x < a * s + s → a ≡ x / s
block_of s a x ge lt = sym (div-eq_of_lt-le s ge (omega arith))

pub contains-range :
    (p : Prefix) (x : ℕ)
    → contains p x ≡ true
    → (first_addr p ≤ x) × (x < first_addr p + size p.bits)
contains-range p x c = in_block (size p.bits) _ x (size-pos p.bits) ((contains_iff p x).0 c)

pub contains_of_range :
    (p : Prefix) (x : ℕ) → first_addr p ≤ x → x < first_addr p + size p.bits → contains p x ≡ true
contains_of_range p x ge lt = (contains_iff p x).1 (block_of (size p.bits) _ x ge lt)

-- Two prefixes overlap when each starts before the other one ends.
pub overlaps-range :
    (p q : Prefix)
    → IsValid p
    → IsValid q
    → overlaps p q ≡ true
    → (first_addr p < first_addr q + size q.bits) × (first_addr q < first_addr p + size p.bits)
overlaps-range p q v w o = ∥∥₁_elim ((overlaps_iff p q v w).0 o) (hlevel le_prop) λ c.
    let (ge, lt) = contains-range p c.0 c.1 in
    let (ge', lt') = contains-range q c.0 c.2 in (omega arith, omega arith)

pub overlaps_of_range :
    (p q : Prefix)
    → IsValid p
    → IsValid q
    → first_addr p < first_addr q + size q.bits
    → first_addr q < first_addr p + size p.bits
    → overlaps p q ≡ true
overlaps_of_range p q v w a b = elim (dec_le (first_addr p) (first_addr q)) [
  | yes h ↦
      overlaps_of_common p q (first_addr q) v w (contains_of_range p _ h b)
        (contains_of_range q _ (omega arith) (omega (arith, size-pos q.bits)))
  | no h ↦
      overlaps_of_common p q (first_addr p) v w
        (contains_of_range p _ (omega arith) (omega (arith, size-pos p.bits)))
        (contains_of_range q _ (omega arith) a)
]

pub below_split : (s k i : ℕ) → i < k → i * s + s ≤ k * s
below_split s k i h = grind arith

block_below : (s B P : ℕ) → B * s < P * s → B * s + s ≤ P * s
block_below s B P h = elim (dec_le P B) [
  | yes g ↦ absurd (not_lt s B P h g)
  | no g ↦ below_split s P B (omega arith)
]
  where
    not_lt : (s B P : ℕ) → B * s < P * s → P ≤ B → ⊥
    not_lt s B P h g = grind arith

whole : (b : ℕ) → b ≤ 32 → 2 ^ b * size b ≡ 2 ^ 32
unfolding size
whole b h =
    let e : b + (32 - b) ≡ 32 = omega arith in sym (two-pow-add b (32 - b)) ∙ ap (λ k. 2 ^ k) e

-- A block of an aligned range ends where the next one begins, at the latest at 2 ^ 32.
pub block_end : (b B : ℕ) → b ≤ 32 → B * size b < 2 ^ 32 → B * size b + size b ≤ 2 ^ 32
block_end b B h lt = rw (← whole b h) (block_below (size b) B (2 ^ b) (rw (whole b h) lt))
