-- ===== src/Service/Choose/Candidates.antt =====
-- The candidates of a pool are its aligned blocks of the wanted size, each of them once.
use native.Mathlib.Nat.{
  add-zero, mul-add-div_right, mul-div_cancel, div-eq_of_lt, div-div-eq-div-mul, mul_comm,
  mod-eq_of_lt, div-add-mod', mod-lt,
}
use platform_ipam.Prelude.{
  refl, subst, some_eq, ℕ, ◌+◌, ◌-◌, ◌*◌, ◌/◌, ◌%◌, ◌^◌, ◌≤◌, ◌<◌, ◌≡◌, sym, ap, ◌∙◌, true, some,
  arith,
}
use platform_ipam.Netip.{masked, Prefix, IsValid, contains, size, prefix_from_int}
use platform_ipam.Netip.Blocks.{
  canonical-aligned, aligned-canonical, size-pos, size-split, contains_iff, addr_int_lem,
  two-pow-pos,
}
use platform_ipam.Netip.Ranges.{below_split, block_end}
use platform_ipam.Service.Choose.{candidate}

-- An aligned block of `bits` bits inside the range `base`.
pub record IsBlock (base : Prefix) (bits : ℕ) (q : Prefix) : Type 0 where
  pub valid : IsValid q
  pub length : q.bits ≡ bits
  pub canonical : masked q ≡ q
  pub longer : base.bits ≤ bits
  pub inside : contains base q.addr ≡ true

pub regroup : (B s k i : ℕ) → B * (s * k) + i * s ≡ (B * k + i) * s
regroup B s k i = omega arith

module _ (base : Prefix) (bits i : ℕ) (v : IsValid base)
    (aligned : base.addr ≡ base.addr / size base.bits * size base.bits) (longer : base.bits ≤ bits)
    (bits_le : bits ≤ 32) (i_lt : i < 2 ^ (bits - base.bits)) where
  abbrev pub start : ℕ
  start = base.addr + i * size bits

  offset_lt : i * size bits + size bits ≤ size base.bits
  offset_lt =
      rw (size-split base.bits bits longer bits_le, mul_comm (size bits))
        (below_split (size bits) (2 ^ (bits - base.bits)) i i_lt)

  pub start_lt : start < 2 ^ 32
  start_lt =
      let e =
        block_end base.bits (base.addr / size base.bits) v.bits_le (rw (← aligned) v.addr_lt) in
      omega (arith, e, offset_lt, size-pos bits, aligned)

  start_eq : start ≡ (base.addr / size base.bits * 2 ^ (bits - base.bits) + i) * size bits
  start_eq =
      ap (λ a. a + i * size bits)
        (aligned
          ∙ ap (λ s. base.addr / size base.bits * s) (size-split base.bits bits longer bits_le))
      ∙ regroup (base.addr / size base.bits) (size bits) (2 ^ (bits - base.bits)) i

  pub start_aligned : start / size bits * size bits ≡ start
  start_aligned =
      ap (λ x. x / size bits * size bits) start_eq
      ∙ ap (λ m. m * size bits) (mul-div_cancel _ (size-pos bits))
      ∙ sym start_eq

  pub start_inside : contains base start ≡ true
  start_inside = (contains_iff base start).1 (
      sym (
        ap (λ a. (a + i * size bits) / size base.bits) aligned
        ∙ mul-add-div_right (size-pos base.bits) (base.addr / size base.bits) (i * size bits)
        ∙ ap (λ d. base.addr / size base.bits + d)
            (div-eq_of_lt (omega (arith, offset_lt, size-pos bits)))
        ∙ add-zero (base.addr / size base.bits)))

  host_bits : start % size bits ≡ 0
  host_bits = omega (arith, start_aligned, div-add-mod' start (size bits))

  -- The `i`th candidate is the `i`th aligned block from the first address of the pool.
  pub candidate_lem : candidate base bits i ≡ some (record { addr = start; bits = bits })
  unfolding candidate prefix_from_int
  candidate_lem =
      rw (addr_int_lem base.addr v.addr_lt, mod-eq_of_lt start_lt, host_bits) (ground arith)

  start_block : IsBlock base bits (record { addr = start; bits = bits })
  start_block = record {
    valid = record { addr_lt = start_lt; bits_le = bits_le };
    length = refl;
    canonical = aligned-canonical _ (sym start_aligned);
    longer = longer;
    inside = start_inside;
  }

  pub candidate-IsBlock : (q : Prefix) → candidate base bits i ≡ some q → IsBlock base bits q
  candidate-IsBlock q e = subst (IsBlock base bits) (some_eq (sym candidate_lem ∙ e)) start_block

  pub candidate-addr : (q : Prefix) → candidate base bits i ≡ some q → q.addr ≡ start
  candidate-addr q e = ap (λ (b : Prefix). b.addr) (sym (some_eq (sym candidate_lem ∙ e)))

-- Every aligned block inside the range is a candidate.
module _ (base q : Prefix) (w : IsValid q)
    (aligned_base : base.addr ≡ base.addr / size base.bits * size base.bits)
    (aligned : q.addr ≡ q.addr / size q.bits * size q.bits) (longer : base.bits ≤ q.bits)
    (inside : contains base q.addr ≡ true) where
  pub index : ℕ
  index = q.addr / size q.bits % 2 ^ (q.bits - base.bits)

  pub index_lt : index < 2 ^ (q.bits - base.bits)
  unfolding index
  index_lt = mod-lt _ (two-pow-pos (q.bits - base.bits))

  quotient_eq : q.addr / size q.bits / 2 ^ (q.bits - base.bits) ≡ base.addr / size base.bits
  quotient_eq =
      div-div-eq-div-mul q.addr (size q.bits) (2 ^ (q.bits - base.bits))
      ∙ ap (λ s. q.addr / s) (sym (size-split base.bits q.bits longer w.bits_le))
      ∙ sym ((contains_iff base q.addr).0 inside)

  pub index_addr : base.addr + index * size q.bits ≡ q.addr
  unfolding index
  index_addr =
      ap (λ a. a + index * size q.bits)
        (aligned_base
          ∙ ap (λ s. base.addr / size base.bits * s) (size-split base.bits q.bits longer w.bits_le))
      ∙ regroup (base.addr / size base.bits) (size q.bits) (2 ^ (q.bits - base.bits)) index
      ∙ ap (λ m. m * size q.bits)
          (ap (λ b. b * 2 ^ (q.bits - base.bits) + index) (sym quotient_eq)
            ∙ div-add-mod' (q.addr / size q.bits) (2 ^ (q.bits - base.bits)))
      ∙ sym aligned

-- Where a block of the range stands among the candidates.
pub record Place (base : Prefix) (bits : ℕ) (q : Prefix) : Type 0 where
  pub index : ℕ
  pub index_lt : index < 2 ^ (bits - base.bits)
  pub at : candidate base bits index ≡ some q
  pub addr : q.addr ≡ base.addr + index * size bits

Place-same :
    (base q : Prefix)
    → IsValid base
    → base.addr ≡ base.addr / size base.bits * size base.bits
    → IsBlock base q.bits q
    → Place base q.bits q
Place-same base q v aligned b =
    let c = canonical-aligned q b.canonical in
    record {
      index = index base q b.valid aligned c b.longer b.inside;
      index_lt = index_lt base q b.valid aligned c b.longer b.inside;
      at =
          candidate_lem base q.bits (index base q b.valid aligned c b.longer b.inside) v aligned
            b.longer b.valid.bits_le (index_lt base q b.valid aligned c b.longer b.inside)
          ∙ ap (λ (a : ℕ). some (record { addr = a; bits = q.bits }))
              (index_addr base q b.valid aligned c b.longer b.inside);
      addr = sym (index_addr base q b.valid aligned c b.longer b.inside);
    }

pub IsBlock-Place :
    (base : Prefix) (bits : ℕ) (q : Prefix)
    → IsValid base
    → base.addr ≡ base.addr / size base.bits * size base.bits
    → IsBlock base bits q
    → Place base bits q
IsBlock-Place base bits q v aligned b =
    subst (λ n. Place base n q) b.length
      (Place-same base q v aligned (subst (λ n. IsBlock base n q) (sym b.length) b))
