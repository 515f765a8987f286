-- ===== src/Service/Choose/Sound.antt =====
-- What `chooseCIDR` answers: the lowest free block of the pool, or that no block is free.
use platform_ipam.Prelude.{
  ℕ, ◌+◌, ◌-◌, ◌*◌, ◌^◌, ◌≤◌, ◌<◌, ◌≡◌, refl, sym, ap, ◌∙◌, Bool, true, false, Option, none, some,
  List, inl, inr, ℤ, pos, negsuc, Option-cases, some_eq, arith,
}
use native.Mathlib.Decide.{dec_lt}
use platform_ipam.Netip.{Prefix, IsValid, masked, size}
use platform_ipam.Netip.Text.{parse_prefix, print_prefix}
use platform_ipam.Netip.Blocks.{masked-bits, masked_aligned, masked-IsValid}
use platform_ipam.Netip.Printing.{parse_prefix-IsValid, parse_prefix-print_prefix}
use platform_ipam.Domain.Policy.{Pool, Request}
use platform_ipam.Domain.Rows.{Observation, InventorySnapshot}
use platform_ipam.Domain.State.{State}
use platform_ipam.Service.Choose.{
  choose_cidr, search_from, choose_bits, choose_in, print_found, is_free, candidate,
}
use platform_ipam.Service.Choose.Search.{Found, search_from-Found, search_from-none}
use platform_ipam.Service.Choose.Candidates.{
  IsBlock, IsBlock-Place, candidate-IsBlock, candidate-addr,
}

index_below : (a s i j : ℕ) → a + i * s < a + j * s → i < j
index_below a s i j h = elim (dec_lt i j) [
  | yes g ↦ g
  | no g ↦ absurd (above a s i j h (omega arith))
]
  where
    above : (a s i j : ℕ) → a + i * s < a + j * s → j ≤ i → ⊥
    above a s i j h g = grind arith

module _ (pool : Pool) (r : Request) (snap : InventorySnapshot) (obs : Observation)
    (st : State) where
  abbrev free : Prefix → Bool
  free = is_free pool r snap obs st

  -- The lowest free block of `bits` bits in the range `base`.
  pub record Lowest (base : Prefix) (bits : ℕ) (p : Prefix) : Type 0 where
    pub is_block : IsBlock base bits p
    pub passes : free p ≡ true
    pub lowest : (q : Prefix) → IsBlock base bits q → q.addr < p.addr → free q ≡ false

  module _ (base : Prefix) (bits : ℕ) (v : IsValid base) where
    module _ (p : Prefix) (e : choose_in pool r snap obs st (masked base) bits ≡ some p) where
      lengths : ((masked base).bits ≤ bits) × (bits ≤ 32)
      unfolding choose_in
      lengths = ground (arith, e)

      found : Found free (candidate (masked base) bits) (2 ^ (bits - (masked base).bits)) 0 p
      unfolding choose_in
      found = search_from-Found free (candidate (masked base) bits) _ 0 p (ground (arith, e))

      index_lt : found.index < 2 ^ (bits - (masked base).bits)
      index_lt = omega (arith, found.below)

      block : IsBlock (masked base) bits p
      block =
          candidate-IsBlock (masked base) bits found.index (masked-IsValid base v)
            (masked_aligned base) lengths.0 lengths.1 index_lt p found.candidate

      addr_eq : p.addr ≡ (masked base).addr + found.index * size bits
      addr_eq =
          candidate-addr (masked base) bits found.index (masked-IsValid base v)
            (masked_aligned base) lengths.0 lengths.1 index_lt p found.candidate

      none_lower : (q : Prefix) → IsBlock (masked base) bits q → q.addr < p.addr → free q ≡ false
      none_lower q b lt =
          let place =
            IsBlock-Place (masked base) bits q (masked-IsValid base v) (masked_aligned base) b in
          found.first place.index q (omega arith)
            (index_below (masked base).addr (size bits) place.index found.index
              (omega (arith, addr_eq, place.addr, lt)))
            place.at

      choose_in-Lowest : Lowest (masked base) bits p
      choose_in-Lowest = record { is_block = block; passes = found.passes; lowest = none_lower }

    module _ (longer : base.bits ≤ bits) (bits_le : bits ≤ 32)
        (e : choose_in pool r snap obs st (masked base) bits ≡ none) where
      searched :
          search_from free (candidate (masked base) bits) (2 ^ (bits - (masked base).bits)) 0 ≡ none
      unfolding choose_in
      searched = ground (arith, e, masked-bits base)

      choose_in-none : (q : Prefix) → IsBlock (masked base) bits q → free q ≡ false
      choose_in-none q b =
          let place =
            IsBlock-Place (masked base) bits q (masked-IsValid base v) (masked_aligned base) b in
          search_from-none free (candidate (masked base) bits) _ 0 searched place.index q
            (omega arith) (omega (arith, place.index_lt)) place.at

  -- The answer names the lowest free block of the requested length in the pool's range.
  pub record Choice (text : List ℕ) : Type 0 where
    pub base : Prefix
    pub bits : ℕ
    pub block : Prefix
    pub base_text : parse_prefix pool.cidr ≡ some base
    pub requested : r.prefix_length ≡ pos bits
    pub block_text : parse_prefix text ≡ some block
    pub lowest : Lowest (masked base) bits block

  Choice-of :
      (base p : Prefix) (bits : ℕ) (text : List ℕ)
      → parse_prefix pool.cidr ≡ some base
      → r.prefix_length ≡ pos bits
      → choose_in pool r snap obs st (masked base) bits ≡ some p
      → some (print_prefix p) ≡ some text
      → Choice text
  Choice-of base p bits text eb er ec et =
      let low = choose_in-Lowest base bits (parse_prefix-IsValid pool.cidr base eb) p ec in
      record {
        base = base;
        bits = bits;
        block = p;
        base_text = eb;
        requested = er;
        block_text =
            ap parse_prefix (sym (some_eq et)) ∙ parse_prefix-print_prefix p low.is_block.valid;
        lowest = low;
      }

  Choice-at :
      (base : Prefix) (n : ℤ) (text : List ℕ)
      → parse_prefix pool.cidr ≡ some base
      → r.prefix_length ≡ n
      → print_found (choose_bits pool r snap obs st (masked base) n) ≡ some text
      → Choice text
  unfolding choose_bits
  Choice-at base (negsuc n) text eb er h = cc
  Choice-at base (pos bits) text eb er h =
      elim (Option-cases (choose_in pool r snap obs st (masked base) bits)) [
        | inl e ↦ cc (e, h)
        | inr (p, e) ↦ Choice-of base p bits text eb er e (sym (ap print_found e) ∙ h)
      ]

  choose_at :
      (base : Prefix)
      → parse_prefix pool.cidr ≡ some base
      → choose_cidr pool r snap obs st
        ≡ print_found (choose_bits pool r snap obs st (masked base) r.prefix_length)
  unfolding choose_cidr
  choose_at base e = rw (e, choose_cidr)

  choose_bits_at :
      (base : Prefix) (bits : ℕ)
      → r.prefix_length ≡ pos bits
      → choose_bits pool r snap obs st (masked base) r.prefix_length
        ≡ choose_in pool r snap obs st (masked base) bits
  unfolding choose_bits
  choose_bits_at base bits e = rw e

  print_found-none : (o : Option Prefix) → print_found o ≡ none → o ≡ none
  print_found-none none h = refl
  print_found-none (some p) h = cc

  -- A chosen CIDR is the printed form of the lowest aligned block of the requested length in the
  -- pool's range that passes the test of a candidate.
  pub choose_cidr-Choice :
      (text : List ℕ) → choose_cidr pool r snap obs st ≡ some text → Choice text
  unfolding choose_cidr
  choose_cidr-Choice text h = elim (Option-cases (parse_prefix pool.cidr)) [
    | inl e ↦ ground (arith, e, h)
    | inr (base, e) ↦ Choice-at base r.prefix_length text e refl (sym (choose_at base e) ∙ h)
  ]

  -- If no CIDR is chosen, the pool's range parses, and the requested length is at most 32 and not
  -- shorter than the pool's, then every aligned block of that length in the range fails the test of
  -- a candidate.
  pub choose_cidr-none :
      (base : Prefix) (bits : ℕ)
      → choose_cidr pool r snap obs st ≡ none
      → parse_prefix pool.cidr ≡ some base
      → r.prefix_length ≡ pos bits
      → base.bits ≤ bits
      → bits ≤ 32
      → (q : Prefix) → IsBlock (masked base) bits q
      → free q ≡ false
  choose_cidr-none base bits h eb er longer bits_le q b =
      let searched = print_found-none _ (sym (choose_at base eb) ∙ h) in
      choose_in-none base bits (parse_prefix-IsValid pool.cidr base eb) longer bits_le
        (sym (choose_bits_at base bits er) ∙ searched) q b
