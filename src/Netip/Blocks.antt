-- ===== src/Netip/Blocks.antt =====
-- The arithmetic of prefixes: the addresses of a prefix are one block of a division, and two
-- prefixes overlap when they have an address in common.
use native.Mathlib.Nat.{
  add-zero, add-suc, div-add-mod', mul-div_cancel, pow-zero, mul-one, min-eq_left, min_comm,
  div-div-eq-div-mul, pow-suc, mul_assoc,
}
use platform_ipam.Prelude.{
  ℕ, zero, suc, ◌+◌, ◌-◌, ◌*◌, ◌/◌, ◌^◌, ◌≤◌, ◌<◌, ◌≡◌, refl, sym, ap, ◌∙◌, true, inl, inr, ◌==◌,
  nat_eq, arith, Bool-cases, nat_beq_iff, ◌↔◌,
}
use native.Mathlib.Decide.{dec_le}
use mathlib.Core.Bool.{Bool-set}
use mathlib.Core.Logic.{∥∥₁_elim}
use platform_ipam.Netip.{Prefix, IsValid, size, masked, contains, overlaps, addr_int}

pub two-pow-pos : (k : ℕ) → 0 < 2 ^ k
two-pow-pos zero = omega arith
two-pow-pos (suc k) = rw pow-suc (omega (arith, two-pow-pos k))

pub two-pow-add : (m k : ℕ) → 2 ^ (m + k) ≡ 2 ^ m * 2 ^ k
two-pow-add m zero = rw (add-zero, pow-zero, mul-one)
two-pow-add m (suc k) =
    rw (add-suc, pow-suc, pow-suc, two-pow-add m k) (mul_assoc (2 ^ m) (2 ^ k) 2)

pub size-pos : (b : ℕ) → 0 < size b
unfolding size
size-pos b = two-pow-pos (32 - b)

-- A longer prefix is a whole part of a shorter one.
pub size-split : (b c : ℕ) → b ≤ c → c ≤ 32 → size b ≡ size c * 2 ^ (c - b)
unfolding size
size-split b c h k =
    let e : 32 - b ≡ 32 - c + (c - b) = omega arith in rw e (two-pow-add (32 - c) (c - b))

-- Addresses in one block of the longer size are in one block of the shorter.
pub same_block : (b c x y : ℕ) → b ≤ c → c ≤ 32 → x / size c ≡ y / size c → x / size b ≡ y / size b
same_block b c x y h k e =
    rw (size-split b c h k, ← div-div-eq-div-mul x (size c), ← div-div-eq-div-mul y (size c), e)

-- What `contains` decides.
pub contains_iff :
    (p : Prefix) (x : ℕ) → (contains p x ≡ true) ↔ (p.addr / size p.bits ≡ x / size p.bits)
unfolding contains
contains_iff p x = nat_beq_iff (p.addr / size p.bits) (x / size p.bits)

-- With a shorter or equal first prefix, an overlap puts the second one's address in the first.
pub overlap_le :
    (p q : Prefix)
    → IsValid p
    → IsValid q
    → p.bits ≤ q.bits
    → overlaps p q ≡ true
    → contains p q.addr ≡ true
unfolding overlaps
overlap_le p q v w h o = elim (Bool-cases (p.bits == 0)) [
  | inl z ↦ (contains_iff p q.addr).1 (one_block p q v w ((nat_beq_iff p.bits 0).0 z))
  | inr z ↦ (contains_iff p q.addr).1 ((nat_beq_iff _ _).0 (rw (min-eq_left h, z) at o))
]
  where
    one_block :
        (p q : Prefix)
        → IsValid p
        → IsValid q
        → p.bits ≡ 0
        → p.addr / size p.bits ≡ q.addr / size p.bits
    one_block p q v w e = rw e (unfold size in omega arith)

pub overlaps_comm : (p q : Prefix) → overlaps p q ≡ overlaps q p
unfolding overlaps
overlaps_comm p q = rw (min_comm p.bits q.bits) (ground arith)

-- A prefix holds its own address.
pub contains_self : (p : Prefix) → contains p p.addr ≡ true
contains_self p = (contains_iff p p.addr).1 refl

-- Whatever the longer prefix holds, an overlapping shorter one holds.
pub contains_of_overlap :
    (p q : Prefix) (x : ℕ)
    → IsValid p
    → IsValid q
    → p.bits ≤ q.bits
    → overlaps p q ≡ true
    → contains q x ≡ true
    → contains p x ≡ true
contains_of_overlap p q x v w h o c = (contains_iff p x).1 (
    (contains_iff p q.addr).0 (overlap_le p q v w h o)
    ∙ same_block p.bits q.bits q.addr x h w.bits_le ((contains_iff q x).0 c))

overlaps_of_common_le :
    (p q : Prefix) (x : ℕ)
    → IsValid q
    → p.bits ≤ q.bits
    → contains p x ≡ true
    → contains q x ≡ true
    → overlaps p q ≡ true
unfolding overlaps
overlaps_of_common_le p q x w h cp cq = rw (min-eq_left h) (elim (Bool-cases (p.bits == 0)) [
  | inl z ↦ rw z
  | inr z ↦ rw z (
      (nat_beq_iff _ _).1 (
        (contains_iff p x).0 cp
        ∙ sym (same_block p.bits q.bits q.addr x h w.bits_le ((contains_iff q x).0 cq))))
])

-- An address in both prefixes makes them overlap.
pub overlaps_of_common :
    (p q : Prefix) (x : ℕ)
    → IsValid p
    → IsValid q
    → contains p x ≡ true
    → contains q x ≡ true
    → overlaps p q ≡ true
overlaps_of_common p q x v w cp cq = elim (dec_le p.bits q.bits) [
  | yes h ↦ overlaps_of_common_le p q x w h cp cq
  | no h ↦ overlaps_comm p q ∙ overlaps_of_common_le q p x v (omega arith) cq cp
]

-- Two prefixes overlap exactly when they have an address in common.
pub overlaps_iff :
    (p q : Prefix)
    → IsValid p
    → IsValid q
    → (overlaps p q ≡ true) ↔ ∥ ((x : ℕ) × (contains p x ≡ true) × (contains q x ≡ true)) ∥₁
overlaps_iff p q v w = (forth, back)
  where
    forth : overlaps p q ≡ true → ∥ ((x : ℕ) × (contains p x ≡ true) × (contains q x ≡ true)) ∥₁
    forth o = elim (dec_le p.bits q.bits) [
      | yes h ↦ ∣ (q.addr, overlap_le p q v w h o, contains_self q) ∣₁
      | no h ↦
          ∣ (p.addr, contains_self p, overlap_le q p w v (omega arith) (overlaps_comm q p ∙ o)) ∣₁
    ]

    back : ∥ ((x : ℕ) × (contains p x ≡ true) × (contains q x ≡ true)) ∥₁ → overlaps p q ≡ true
    back t = ∥∥₁_elim t (Bool-set _ _) (λ c. overlaps_of_common p q c.0 v w c.1 c.2)

-- `Masked` keeps the addresses, and a masked prefix starts at a multiple of its size.
pub masked-addr : (p : Prefix) → (masked p).addr ≡ p.addr / size p.bits * size p.bits
unfolding masked
masked-addr p = omega (arith, div-add-mod' p.addr (size p.bits))

pub masked-bits : (p : Prefix) → (masked p).bits ≡ p.bits
unfolding masked
masked-bits p = refl

pub masked-IsValid : (p : Prefix) → IsValid p → IsValid (masked p)
unfolding masked
masked-IsValid p v = record { addr_lt = omega arith; bits_le = v.bits_le }

pub contains-masked : (p : Prefix) (x : ℕ) → contains (masked p) x ≡ contains p x
unfolding contains
contains-masked p x =
    rw (masked-addr p, masked-bits p, mul-div_cancel (p.addr / size p.bits) (size-pos p.bits))

-- A masked prefix starts at a multiple of its size, and such a prefix is its own mask.
pub masked_aligned :
    (p : Prefix) → (masked p).addr ≡ (masked p).addr / size (masked p).bits * size (masked p).bits
masked_aligned p =
    rw (masked-bits p, masked-addr p, mul-div_cancel (p.addr / size p.bits) (size-pos p.bits))

pub canonical-aligned : (p : Prefix) → masked p ≡ p → p.addr ≡ p.addr / size p.bits * size p.bits
canonical-aligned p c = ap (λ (q : Prefix). q.addr) (sym c) ∙ masked-addr p

pub aligned-canonical : (p : Prefix) → p.addr ≡ p.addr / size p.bits * size p.bits → masked p ≡ p
unfolding masked
aligned-canonical p e = ground (arith, div-add-mod' p.addr (size p.bits))

-- `addrInt` puts the four bytes of an address together again.
pub addr_int_lem : (a : ℕ) → a < 2 ^ 32 → addr_int a ≡ a
unfolding addr_int
addr_int_lem a h = omega arith
