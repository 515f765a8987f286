-- ===== src/Service/Capacity/Free.antt =====
-- `occupiedBlocks` is the number of aligned blocks of the pool that meet an occupied prefix.
use native.Mathlib.Nat.{mul_comm, div-mul-le_self}
use platform_ipam.Prelude.{
  ℕ, ◌+◌, ◌-◌, ◌*◌, ◌/◌, ◌^◌, ◌≤◌, ◌<◌, ◌≡◌, refl, sym, ◌∙◌, Bool, true, false, not, any, List, [],
  ◌∷◌, All, inl, inr, Bool-cases, arith,
}
use platform_ipam.Netip.{Prefix, IsValid, masked, overlaps, size, addr_int}
use platform_ipam.Netip.Blocks.{size-pos, size-split, masked-addr, canonical-aligned, addr_int_lem}
use platform_ipam.Netip.Ranges.{
  first_addr, overlaps-range, overlaps_of_range, block_end, below_split,
}
use platform_ipam.Service.Choose.Candidates.{start_aligned, start_lt}
use platform_ipam.Service.Capacity.{BlockInterval, interval_of, ranges_of, occupied_blocks}
use platform_ipam.Service.Capacity.Counting.{count_below, count_below-ext, count_below-not}
use platform_ipam.Service.Capacity.Intervals.{
  holds_forth, holds_back, first_block, last_block, first_le, last_lt,
}
use platform_ipam.Service.Capacity.Union.{holds, covered, Fits, merge-sort_ranges}

-- The `k`th block of `bits` bits from the start of the pool.
abbrev pub block : Prefix → ℕ → ℕ → Prefix
block base bits k = record { addr = base.addr + k * size bits; bits = bits }

-- Some occupied prefix meets the block.
abbrev pub touched : Prefix → ℕ → List Prefix → ℕ → Bool
touched base bits ps k = any (overlaps (block base bits k)) ps

-- The number of blocks of the pool.
abbrev pub total : Prefix → ℕ → ℕ
total base bits = 2 ^ (bits - base.bits)

-- The blocks from the one of the first address to the one of the last.
abbrev spot : Prefix → ℕ → Prefix → BlockInterval
spot base bits p = record {
  first = first_block base.addr (first_addr p) (size bits);
  last = last_block base.addr (size base.bits) (first_addr p) (size p.bits) (size bits);
}

same_bool : (b c : Bool) → (b ≡ true → c ≡ true) → (c ≡ true → b ≡ true) → b ≡ c
same_bool b c f g = ground arith

module _ (base : Prefix) (bits : ℕ) (v : IsValid base) (canonical : masked base ≡ base)
    (longer : base.bits ≤ bits) (bits_le : bits ≤ 32) where
  aligned : base.addr ≡ first_addr base
  aligned = canonical-aligned base canonical

  base_end : base.addr + size base.bits ≤ 2 ^ 32
  base_end =
      rw aligned
        (block_end base.bits (base.addr / size base.bits) v.bits_le (rw (← aligned) v.addr_lt))

  whole : total base bits * size bits ≡ size base.bits
  whole = mul_comm (total base bits) (size bits) ∙ sym (size-split base.bits bits longer bits_le)

  module _ (p : Prefix) (w : IsValid p) (meets : overlaps base p ≡ true) where
    lo_lt : first_addr p < 2 ^ 32
    lo_lt = omega (arith, div-mul-le_self p.addr (size p.bits), w.addr_lt)

    p_end : first_addr p + size p.bits ≤ 2 ^ 32
    p_end = block_end p.bits (p.addr / size p.bits) w.bits_le lo_lt

    ends : (base.addr < first_addr p + size p.bits) × (first_addr p < base.addr + size base.bits)
    ends =
        let (a, b) = overlaps-range base p v w meets in (rw (← aligned) at a, rw (← aligned) at b)

    fits : Fits (total base bits) (spot base bits p)
    fits = record {
      ordered =
          first_le base.addr (size base.bits) (first_addr p) (size p.bits) (size bits)
            (total base bits) (size-pos bits) (size-pos p.bits) (size-pos base.bits) p_end base_end
            (sym whole) ends.0 ends.1;
      below =
          last_lt base.addr (size base.bits) (first_addr p) (size p.bits) (size bits)
            (total base bits) (size-pos bits) (size-pos p.bits) (size-pos base.bits) p_end base_end
            (sym whole) ends.0 ends.1;
    }

    interval_lem :
        interval_of (addr_int base.addr) (addr_int base.addr + size base.bits - 1) bits p
        ≡ spot base bits p
    unfolding interval_of
    interval_lem =
        rw (addr_int_lem base.addr v.addr_lt, masked-addr p, addr_int_lem (first_addr p) lo_lt) refl

    module _ (k : ℕ) (k_lt : k < total base bits) where
      block-IsValid : IsValid (block base bits k)
      block-IsValid = record {
        addr_lt = start_lt base bits k v aligned longer bits_le k_lt;
        bits_le = bits_le;
      }

      block_first : first_addr (block base bits k) ≡ base.addr + k * size bits
      block_first = start_aligned base bits k v aligned longer bits_le k_lt

      within : k * size bits + size bits ≤ size base.bits
      within = rw (← whole) (below_split (size bits) (total base bits) k k_lt)

      holds-spot : holds k (spot base bits p) ≡ overlaps (block base bits k) p
      holds-spot =
          same_bool _ _
            (λ h.
              let (a, b) =
                holds_forth base.addr (size base.bits) (first_addr p) (size p.bits) (size bits) k
                  (size-pos bits) (size-pos p.bits) p_end base_end within ends.0 ends.1 h in
              overlaps_of_range (block base bits k) p block-IsValid w (rw block_first a)
                (rw block_first b))
            (λ o.
              let (a, b) = overlaps-range (block base bits k) p block-IsValid w o in
              holds_back base.addr (size base.bits) (first_addr p) (size p.bits) (size bits) k
                (size-pos bits) (size-pos p.bits) p_end base_end within ends.0 ends.1
                (rw block_first at a) (rw block_first at b))

  -- A prefix that does not meet the pool meets none of its blocks.
  not_touched :
      (p : Prefix)
      → IsValid p
      → overlaps base p ≡ false
      → (k : ℕ) → k < total base bits
      → overlaps (block base bits k) p ≡ false
  not_touched p w apart k k_lt = elim (Bool-cases (overlaps (block base bits k) p)) [
    | inr e ↦ e
    | inl e ↦
        let room : k * size bits + size bits ≤ size base.bits =
          rw (← whole) (below_split (size bits) (total base bits) k k_lt) in
        let q : IsValid (block base bits k) = record {
          addr_lt = start_lt base bits k v aligned longer bits_le k_lt;
          bits_le = bits_le;
        } in
        let at : first_addr (block base bits k) ≡ base.addr + k * size bits =
          start_aligned base bits k v aligned longer bits_le k_lt in
        let (a, b) = overlaps-range (block base bits k) p q w e in
        let meets : overlaps base p ≡ true =
          overlaps_of_range base p v w (rw (← aligned) (omega (arith, at, a)))
            (rw (← aligned) (omega (arith, at, b, room))) in
        absurd (ground (arith, meets, apart))
  ]

  covered-ranges_of :
      (ps : List Prefix)
      → All IsValid ps
      → (k : ℕ) → k < total base bits
      → covered
          (ranges_of base (addr_int base.addr) (addr_int base.addr + size base.bits - 1) bits ps)
          k
        ≡ touched base bits ps k
  unfolding ranges_of
  covered-ranges_of [] h k k_lt = refl
  covered-ranges_of (p ∷ ps) h k k_lt = elim (Bool-cases (overlaps base p)) [
    | inl e ↦
        rw (e, interval_lem p h.0 e, holds-spot p h.0 e k k_lt, covered-ranges_of ps h.1 k k_lt)
          refl
    | inr e ↦ rw (e, not_touched p h.0 e k k_lt, covered-ranges_of ps h.1 k k_lt) refl
  ]

  ranges_of-Fits :
      (ps : List Prefix)
      → All IsValid ps
      → All
          (Fits (total base bits))
          (ranges_of base (addr_int base.addr) (addr_int base.addr + size base.bits - 1) bits ps)
  unfolding ranges_of
  ranges_of-Fits [] h = tt
  ranges_of-Fits (p ∷ ps) h = elim (Bool-cases (overlaps base p)) [
    | inl e ↦ rw (e, interval_lem p h.0 e) (fits p h.0 e, ranges_of-Fits ps h.1)
    | inr e ↦ rw e (ranges_of-Fits ps h.1)
  ]

  -- For a masked pool and a block length from the pool's to 32, and valid prefixes, the union of
  -- intervals counts the aligned blocks of the pool that some prefix overlaps.
  pub occupied_blocks-touched :
      (ps : List Prefix)
      → All IsValid ps
      → occupied_blocks base bits ps ≡ count_below (total base bits) (touched base bits ps)
  unfolding occupied_blocks
  occupied_blocks-touched ps h =
      merge-sort_ranges (total base bits) _ (ranges_of-Fits ps h)
      ∙ count_below-ext _ _ (total base bits) (covered-ranges_of ps h)

  -- For a masked pool and a block length from the pool's to 32, and valid prefixes, the occupied
  -- blocks and the blocks that no prefix overlaps add up to all the blocks of the pool.
  pub occupied_blocks-free :
      (ps : List Prefix)
      → All IsValid ps
      → occupied_blocks base bits ps
          + count_below (total base bits) (λ k. not (touched base bits ps k))
        ≡ total base bits
  occupied_blocks-free ps h =
      rw (occupied_blocks-touched ps h) (count_below-not (total base bits) (touched base bits ps))
