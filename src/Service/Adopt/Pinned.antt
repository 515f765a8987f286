-- ===== src/Service/Adopt/Pinned.antt =====
-- What an adoption has checked when its CIDR is accepted.
use platform_ipam.Prelude.{
  ℕ, suc, ◌+◌, ◌≤◌, ◌≡◌, ◌≢◌, refl, sym, ◌∙◌, ap, List, [], ◌∷◌, true, false, ◌⊎◌, inl, inr, Option,
  none, some, some_eq, any, values, lookup, Memᴰ, All, Option-cases, nat_eq, arith, pos, negsuc, ℤ,
}
use platform_ipam.Netip.{Prefix, masked, contains, prefix_eq}
use platform_ipam.Netip.Text.{parse_prefix, print_prefix}
use platform_ipam.Netip.Printing.{parse_prefix-print_prefix, parse_prefix-IsValid}
use platform_ipam.Domain.Policy.{Request, Pool}
use platform_ipam.Domain.Errors.{Result-cases, ok}
use platform_ipam.Domain.Rows.{Network, Observation, InventorySnapshot}
use platform_ipam.Domain.State.{State}
use platform_ipam.Service.Choose.{overlaps_excluded, allocation_blocks}
use platform_ipam.Service.Adopt.{
  Pin, Verdict, stands, matches, forbids, verdict_on, review_networks, one_found, reviewed_network,
  reviewed_children, reviewed_occupancy, bound_resource, has_length, pinned_in, pinned_cidr,
}

abbrev pub is_match : Verdict → ℕ
is_match stands = 0
is_match matches = 1
is_match forbids = 0

abbrev pub count_matches : (Network → Verdict) → List Network → ℕ
count_matches v [] = 0
count_matches v (x ∷ xs) = is_match (v x) + count_matches v xs

-- The walk over the networks accepted: none forbids, one matches, and it is the answer.
record Walked (v : Network → Verdict) (xs : List Network) (before : Option Network) (n : ℕ)
    (net : Network) : Type 0 where
  allowed : All (λ x. v x ≢ forbids) xs
  once : n + count_matches v xs ≡ 1
  which : (before ≡ some net) ⊎ (Memᴰ net xs × (v net ≡ matches))

one_found-lem :
    (o : Option Network) (n : ℕ) (net : Network) → one_found o n ≡ ok net → (o ≡ some net) × (n ≡ 1)
unfolding one_found
one_found-lem none n net h = absurd cc
one_found-lem (some x) n net h = (ground (arith, h), ground (arith, h))

walked :
    (v : Network → Verdict) (xs : List Network) (o : Option Network) (n : ℕ) (net : Network)
    → review_networks v xs o n ≡ ok net
    → Walked v xs o n net
unfolding review_networks
walked v [] o n net h =
    let (e, k) = one_found-lem o n net h in
    record { allowed = tt; once = omega (arith, k); which = inl e }
walked v (x ∷ xs) o n net h = elim (verdict_cases (v x)) [
  | inl s ↦
      let w = walked v xs o n net (ground (arith, h, s)) in
      record {
        allowed = (λ e. cc (e, s), w.allowed);
        once = rw s (omega (arith, w.once));
        which = elim w.which [ inl e ↦ inl e | inr m ↦ inr (Memᴰ.tail m.0, m.1) ];
      }
  | inr (inl s) ↦
      let w = walked v xs (some x) (suc n) net (ground (arith, h, s)) in
      record {
        allowed = (λ e. cc (e, s), w.allowed);
        once = rw s (omega (arith, w.once));
        which = elim w.which [
          | inl e ↦ let same : x ≡ net = some_eq e in inr (Memᴰ.head (sym same), rw (← same) s)
          | inr m ↦ inr (Memᴰ.tail m.0, m.1)
        ];
      }
  | inr (inr s) ↦ absurd (ground (arith, h, s))
]
  where
    verdict_cases : (w : Verdict) → (w ≡ stands) ⊎ ((w ≡ matches) ⊎ (w ≡ forbids))
    verdict_cases stands = inl refl
    verdict_cases matches = inr (inl refl)
    verdict_cases forbids = inr (inr refl)

prefix_eq_sound : (p q : Prefix) → prefix_eq p q ≡ true → p ≡ q
unfolding prefix_eq
prefix_eq_sound p q h = ground (arith, h)

has_length-eq : (z : ℤ) (bits : ℕ) → has_length z bits ≡ true → z ≡ pos bits
has_length-eq (pos n) bits h = ap pos (ground (arith, h))
has_length-eq (negsuc n) bits h = absurd cc

-- The grounds on which an adoption accepts its CIDR.
pub record Pinned (pool : Pool) (r : Request) (snap : InventorySnapshot) (obs : Observation)
    (st : State) (pin : Pin) (text : List ℕ) (block : Prefix) : Type 0 where
  pub base : Prefix
  pub base_text : parse_prefix pool.cidr ≡ some base
  pub pin_text : parse_prefix pin.cidr ≡ some block
  pub block_text : parse_prefix text ≡ some block
  pub canonical : masked block ≡ block
  pub length : r.prefix_length ≡ pos block.bits
  pub inside : contains (masked base) block.addr ≡ true
  pub longer : (masked base).bits ≤ block.bits
  pub clear : overlaps_excluded block pool.excluded_cidrs ≡ false
  pub unheld : any (allocation_blocks pool block r) (values st.allocations) ≡ false
  pub observed :
      reviewed_occupancy obs block r pin.resource_id
        (bound_resource (lookup r.parent_allocation_id st.allocations))
      ≡ ok tt

abbrev pub verdict_for : Request → Observation → Pin → Prefix → Network → Verdict
verdict_for r obs pin p =
    verdict_on p r pin.network_id "" (reviewed_children obs.resources r p pin.resource_id)

module _ (pool : Pool) (r : Request) (snap : InventorySnapshot) (obs : Observation) (st : State)
    (pin : Pin) where
  pinned_in-Pinned :
      (base p : Prefix) (text : List ℕ) (reviewed : Network)
      → parse_prefix pool.cidr ≡ some base
      → parse_prefix pin.cidr ≡ some p
      → pinned_in pool r snap obs st pin (masked base) p ≡ ok (text, reviewed)
      → Pinned pool r snap obs st pin text p
  unfolding pinned_in
  pinned_in-Pinned base p text reviewed eb ep h =
      elim (Result-cases (
        reviewed_network snap p r pin.network_id ""
          (reviewed_children obs.resources r p pin.resource_id))) [
            | inr (f, e) ↦ absurd (ground (arith, h, e))
            | inl (n, e) ↦
                elim (Result-cases (
                  reviewed_occupancy obs p r pin.resource_id
                    (bound_resource (lookup r.parent_allocation_id st.allocations)))) [
                      | inr (f, o) ↦ absurd (ground (arith, h, e, o))
                      | inl (u, o) ↦ record {
                        base = base;
                        base_text = eb;
                        pin_text = ep;
                        block_text =
                            ap parse_prefix (text_is (ground (arith, h, e, o)))
                            ∙ parse_prefix-print_prefix p (parse_prefix-IsValid pin.cidr p ep);
                        canonical = sym (prefix_eq_sound p (masked p) (ground (arith, h, e, o)));
                        length = has_length-eq r.prefix_length p.bits (ground (arith, h, e, o));
                        inside = ground (arith, h, e, o);
                        longer = ground (arith, h, e, o);
                        clear = ground (arith, h, e, o);
                        unheld = ground (arith, h, e, o);
                        observed = o;
                      }
                    ]
          ]
    where
      text_is : print_prefix p ≡ text → text ≡ print_prefix p
      text_is e = sym e

  -- The networks of the snapshot allow the adoption.
  pub record Reviewed (p : Prefix) (reviewed : Network) : Type 0 where
    pub listed : Memᴰ reviewed snap.networks
    pub matched : verdict_for r obs pin p reviewed ≡ matches
    pub once : count_matches (verdict_for r obs pin p) snap.networks ≡ 1
    pub allowed : All (λ n. verdict_for r obs pin p n ≢ forbids) snap.networks

  reviewed_network-Reviewed :
      (p : Prefix) (n : Network)
      → reviewed_network snap p r pin.network_id ""
          (reviewed_children obs.resources r p pin.resource_id)
        ≡ ok n
      → Reviewed p n
  unfolding reviewed_network
  reviewed_network-Reviewed p n h =
      let w = walked (verdict_for r obs pin p) snap.networks none 0 n h in
      elim w.which [
        | inl e ↦ absurd cc
        | inr m ↦ record {
          listed = m.0;
          matched = m.1;
          once = omega (arith, w.once);
          allowed = w.allowed;
        }
      ]

  pinned_in-Reviewed :
      (base p : Prefix) (text : List ℕ) (reviewed : Network)
      → pinned_in pool r snap obs st pin base p ≡ ok (text, reviewed)
      → Reviewed p reviewed
  unfolding pinned_in
  pinned_in-Reviewed base p text reviewed h =
      elim (Result-cases (
        reviewed_network snap p r pin.network_id ""
          (reviewed_children obs.resources r p pin.resource_id))) [
            | inr (f, e) ↦ absurd (ground (arith, h, e))
            | inl (n, e) ↦
                elim (Result-cases (
                  reviewed_occupancy obs p r pin.resource_id
                    (bound_resource (lookup r.parent_allocation_id st.allocations)))) [
                      | inr (f, o) ↦ absurd (ground (arith, h, e, o))
                      | inl (u, o) ↦
                          let is : n ≡ reviewed = ground (arith, h, e, o) in
                          reviewed_network-Reviewed p reviewed (e ∙ ap ok is)
                    ]
          ]

  pub pinned_cidr-Pinned :
      (text : List ℕ) (reviewed : Network)
      → pinned_cidr pool r snap obs st pin ≡ ok (text, reviewed)
      → (block : Prefix) × Pinned pool r snap obs st pin text block × Reviewed block reviewed
  unfolding pinned_cidr
  pinned_cidr-Pinned text reviewed h = elim (Option-cases (parse_prefix pool.cidr)) [
    | inl e ↦ absurd (ground (arith, h, e))
    | inr (base, e) ↦ elim (Option-cases (parse_prefix pin.cidr)) [
      | inl f ↦ absurd (ground (arith, h, e, f))
      | inr (p, f) ↦
          let at : pinned_in pool r snap obs st pin (masked base) p ≡ ok (text, reviewed) =
            ground (arith, h, e, f) in
          (
            p,
            pinned_in-Pinned base p text reviewed e f at,
            pinned_in-Reviewed (masked base) p text reviewed at,
          )
    ]
  ]
