-- ===== src/Assess/Sweep/Blocks.antt =====
-- The ranges of the sweep are blocks of addresses: two that share an address are one in the other.
use native.Mathlib.Decide.{dec_le}
use native.Mathlib.Nat.{mod-eq_of_lt}
use platform_ipam.Prelude.{
  ℕ, ◌+◌, ◌-◌, ◌/◌, ◌%◌, ◌^◌, ◌≤◌, ◌≡◌, ◌∙◌, true, inl, inr, some, Bool-cases, Option-cases, arith,
  nat_eq,
}
use platform_ipam.Netip.{Prefix, IsValid, masked, size, contains, prefix_eq}
use platform_ipam.Netip.Text.{parse_prefix}
use platform_ipam.Netip.Printing.{parse_prefix-IsValid}
use platform_ipam.Netip.Blocks.{masked-addr, size-pos, overlaps_of_common, contains_of_overlap}
use platform_ipam.Netip.Ranges.{first_addr, block_end, contains-range, contains_of_range}
use platform_ipam.Assess.{Association, Text, prefix_interval, cidr_interval}

-- The addresses from `a` to `b` are those of a prefix.
pub record IsRange (a b : ℕ) : Type 0 where
  pub prefix : Prefix
  pub valid : IsValid prefix
  pub first : a ≡ first_addr prefix
  pub last : b + 1 ≡ first_addr prefix + size prefix.bits

abbrev pub IsBlock : Association → Type 0
IsBlock x = IsRange x.start x.end

pub IsRange-le : (a b : ℕ) → IsRange a b → a ≤ b
IsRange-le a b r = omega (arith, r.first, r.last, size-pos r.prefix.bits)

module _ (a b c d : ℕ) (r : IsRange a b) (s : IsRange c d) (begins : a ≤ c) (meets : c ≤ b) where
  common_left : contains r.prefix c ≡ true
  common_left = contains_of_range r.prefix c (omega (arith, r.first)) (omega (arith, r.last))

  common_right : contains s.prefix c ≡ true
  common_right =
      contains_of_range s.prefix c (omega (arith, s.first))
        (omega (arith, s.first, size-pos s.prefix.bits))

  -- The one that begins first holds the other, if of two that begin together the first is longer.
  pub nested : (a ≡ c → d ≤ b) → d ≤ b
  nested tie = elim (dec_le r.prefix.bits s.prefix.bits) [
    | yes h ↦
        let inside : contains s.prefix d ≡ true =
          contains_of_range s.prefix d (omega (arith, s.first, IsRange-le c d s))
            (omega (arith, s.last)) in
        let o = overlaps_of_common r.prefix s.prefix c r.valid s.valid common_left common_right in
        let (ge, lt) =
          contains-range r.prefix d
            (contains_of_overlap r.prefix s.prefix d r.valid s.valid h o inside) in
        omega (arith, r.last)
    | no h ↦
        let inside : contains r.prefix a ≡ true =
          contains_of_range r.prefix a (omega (arith, r.first))
            (omega (arith, r.first, size-pos r.prefix.bits)) in
        let o = overlaps_of_common s.prefix r.prefix c s.valid r.valid common_right common_left in
        let (ge, lt) =
          contains-range s.prefix a
            (contains_of_overlap s.prefix r.prefix a s.valid r.valid (omega arith) o inside) in
        tie (omega (arith, s.first))
  ]

-- What `cidrInterval` answers is a range.
pub cidr_interval-IsRange : (cidr : Text) (a b : ℕ) → cidr_interval cidr ≡ some (a, b) → IsRange a b
unfolding cidr_interval prefix_interval
cidr_interval-IsRange cidr a b h = elim (Option-cases (parse_prefix cidr)) [
  | inl e ↦ absurd (ground (arith, e, h))
  | inr (p, e) ↦ elim (Bool-cases (prefix_eq p (masked p))) [
    | inr t ↦ absurd (ground (arith, e, h, t))
    | inl t ↦
        let v = parse_prefix-IsValid cidr p e in
        let first : a ≡ p.addr = ground (arith, e, h, t) in
        let last : b ≡ (p.addr + size p.bits - 1) % 2 ^ 32 = ground (arith, e, h, t) in
        let aligned : p.addr ≡ first_addr p =
          unfold prefix_eq in ground (arith, t, masked-addr p) in
        let fits : first_addr p + size p.bits ≤ 2 ^ 32 =
          block_end p.bits (p.addr / size p.bits) v.bits_le (rw (← aligned) v.addr_lt) in
        record {
          prefix = p;
          valid = v;
          first = first ∙ aligned;
          last =
              rw
                (
                  last,
                  mod-eq_of_lt {n = p.addr + size p.bits - 1} {m = 2 ^ 32}
                      (omega (arith, size-pos p.bits)),
                )
                (omega (arith, size-pos p.bits));
        }
  ]
]
