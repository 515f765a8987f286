-- ===== src/Netip/Printing.antt =====
-- A printed prefix parses back to itself, and what parses is in range.
use platform_ipam.Prelude.{
  ℕ, zero, suc, ◌/◌, ◌%◌, ◌^◌, ◌<◌, ◌≤◌, ◌≡◌, refl, ap, ◌∙◌, Bool, true, false, not, ◌&&◌, Option,
  none, some, List, [], ◌∷◌, ◌++◌, ◌==◌, nat_eq, arith, any, ◌⊎◌, inl, inr, Option-cases,
}
use platform_ipam.Netip.{Prefix, IsValid}
use platform_ipam.Netip.Text.{
  parse_prefix, print_prefix, parse_addr, print_addr, split_last, split_on, decimal_le,
  print_decimal, parse_fields, join_octets,
}

all_below : ℕ → (ℕ → Bool) → Bool
all_below zero f = true
all_below (suc n) f = f n && all_below n f

all_below_sound : (n : ℕ) (f : ℕ → Bool) (x : ℕ) → all_below n f ≡ true → x < n → f x ≡ true
unfolding all_below
all_below_sound zero f x h lt = absurd (omega arith)
all_below_sound (suc n) f x h lt = ground (arith, all_below_sound n f x)

abbrev is_some : Option ℕ → ℕ → Bool
is_some none n = false
is_some (some m) n = m == n

abbrev has : ℕ → List ℕ → Bool
has c = any (λ x. x == c)

reads_back : ℕ → Bool
reads_back n =
    is_some (decimal_le 255 (print_decimal n)) n
    && not (has b'.' (print_decimal n))
    && not (has b'/' (print_decimal n))

octet_table : all_below 256 reads_back ≡ true
unfolding all_below reads_back print_decimal decimal_le
octet_table = refl

is_some-eq : (o : Option ℕ) (n : ℕ) → is_some o n ≡ true → o ≡ some n
is_some-eq o n h = ground arith

record Octet (n : ℕ) (s : List ℕ) : Type 0 where
  value : decimal_le 255 s ≡ some n
  no_dot : has b'.' s ≡ false
  no_slash : has b'/' s ≡ false

-- Every octet reads back, by the table of the 256 values.
printed-Octet : (n : ℕ) → n < 256 → Octet n (print_decimal n)
unfolding reads_back
printed-Octet n h =
    let t = all_below_sound 256 reads_back n octet_table h in
    record {
      value = is_some-eq (decimal_le 255 (print_decimal n)) n (ground arith);
      no_dot = ground arith;
      no_slash = ground arith;
    }

bits_back : ℕ → Bool
bits_back n = is_some (decimal_le 32 (print_decimal n)) n && not (has b'/' (print_decimal n))

bits_table : all_below 33 bits_back ≡ true
unfolding all_below bits_back print_decimal decimal_le
bits_table = refl

printed_bits :
    (n : ℕ)
    → n < 33
    → (decimal_le 32 (print_decimal n) ≡ some n) × (has b'/' (print_decimal n) ≡ false)
unfolding bits_back
printed_bits n h =
    let t = all_below_sound 33 bits_back n bits_table h in
    (is_some-eq (decimal_le 32 (print_decimal n)) n (ground arith), ground arith)

split_on-last : (c : ℕ) (w : List ℕ) → has c w ≡ false → split_on c w ≡ w ∷ []
unfolding split_on
split_on-last c [] h = refl
split_on-last c (x ∷ w) h = ground (arith, split_on-last c w)

split_on-append :
    (c : ℕ) (w rest : List ℕ) → has c w ≡ false → split_on c (w ++ c ∷ rest) ≡ w ∷ split_on c rest
unfolding split_on
split_on-append c [] rest h = ground arith
split_on-append c (x ∷ w) rest h = ground (arith, split_on-append c w rest)

split_last-none : (c : ℕ) (w : List ℕ) → has c w ≡ false → split_last c w ≡ none
unfolding split_last
split_last-none c [] h = refl
split_last-none c (x ∷ w) h = ground (arith, split_last-none c w)

split_last-append :
    (c : ℕ) (w rest : List ℕ) → has c rest ≡ false → split_last c (w ++ c ∷ rest) ≡ some (w, rest)
unfolding split_last
split_last-append c [] rest h = ground (arith, split_last-none c rest h)
split_last-append c (x ∷ w) rest h = ground (arith, split_last-append c w rest h)

module _ {a b c d : ℕ} {u v w x : List ℕ} (ou : Octet a u) (ov : Octet b v) (ow : Octet c w)
    (ox : Octet d x) where
  split_four : split_on b'.' (u ++ b'.' ∷ (v ++ b'.' ∷ (w ++ b'.' ∷ x))) ≡ u ∷ v ∷ w ∷ x ∷ []
  split_four = rw (
    split_on-append b'.' u _ ou.no_dot,
    split_on-append b'.' v _ ov.no_dot,
    split_on-append b'.' w x ow.no_dot,
    split_on-last b'.' x ox.no_dot,
  )

  parse_four : parse_fields (u ∷ v ∷ w ∷ x ∷ []) ≡ some (join_octets a b c d)
  unfolding parse_fields
  parse_four = rw (ou.value, ov.value, ow.value, ox.value)

join_octets_lem :
    (a : ℕ)
    → a < 2 ^ 32
    → join_octets (a / 2 ^ 24) (a / 2 ^ 16 % 256) (a / 2 ^ 8 % 256) (a % 256) ≡ a
unfolding join_octets
join_octets_lem a h = omega arith

-- A printed address parses back.
pub parse_addr-print_addr : (a : ℕ) → a < 2 ^ 32 → parse_addr (print_addr a) ≡ some a
unfolding parse_addr print_addr
parse_addr-print_addr a h =
    let o1 = printed-Octet (a / 2 ^ 24) (omega arith) in
    let o2 = printed-Octet (a / 2 ^ 16 % 256) (omega arith) in
    let o3 = printed-Octet (a / 2 ^ 8 % 256) (omega arith) in
    let o4 = printed-Octet (a % 256) (omega arith) in
    ap parse_fields (split_four o1 o2 o3 o4)
    ∙ parse_four o1 o2 o3 o4
    ∙ ap some (join_octets_lem a h)

-- Every valid prefix is printed as a text that parses back to it.
pub parse_prefix-print_prefix : (p : Prefix) → IsValid p → parse_prefix (print_prefix p) ≡ some p
unfolding parse_prefix print_prefix
parse_prefix-print_prefix p v =
    let (bits, no_slash) = printed_bits p.bits (omega arith) in
    rw (
      split_last-append b'/' (print_addr p.addr) (print_decimal p.bits) no_slash,
      parse_addr-print_addr p.addr v.addr_lt,
      bits,
    )

-- Two valid prefixes with one text are one prefix.
pub print_prefix-injective :
    (p q : Prefix) → IsValid p → IsValid q → print_prefix p ≡ print_prefix q → p ≡ q
print_prefix-injective p q v w e =
    cc (parse_prefix-print_prefix p v, ap parse_prefix e, parse_prefix-print_prefix q w)

decimal_le-le : (bound : ℕ) (s : List ℕ) (n : ℕ) → decimal_le bound s ≡ some n → n ≤ bound
unfolding decimal_le
decimal_le-le bound s n h = ground arith

decimal_le-cases :
    (bound : ℕ) (s : List ℕ)
    → (decimal_le bound s ≡ none) ⊎ ((n : ℕ) × (decimal_le bound s ≡ some n) × (n ≤ bound))
decimal_le-cases bound s = elim (Option-cases (decimal_le bound s)) [
  | inl e ↦ inl e
  | inr (n, e) ↦ inr (n, e, decimal_le-le bound s n e)
]

parse_fields-lt : (l : List (List ℕ)) (n : ℕ) → parse_fields l ≡ some n → n < 2 ^ 32
unfolding parse_fields join_octets
parse_fields-lt (a ∷ b ∷ c ∷ d ∷ []) n h = ground (
  arith,
  decimal_le-cases 255 a,
  decimal_le-cases 255 b,
  decimal_le-cases 255 c,
  decimal_le-cases 255 d,
)
parse_fields-lt _ n h = cc

parse_addr-lt : (s : List ℕ) (n : ℕ) → parse_addr s ≡ some n → n < 2 ^ 32
unfolding parse_addr
parse_addr-lt s n h = parse_fields-lt (split_on b'.' s) n h

parse_addr-cases :
    (s : List ℕ) → (parse_addr s ≡ none) ⊎ ((n : ℕ) × (parse_addr s ≡ some n) × (n < 2 ^ 32))
parse_addr-cases s = elim (Option-cases (parse_addr s)) [
  | inl e ↦ inl e
  | inr (n, e) ↦ inr (n, e, parse_addr-lt s n e)
]

-- What parses is an IPv4 prefix: a 32-bit address, and at most 32 bits.
pub parse_prefix-IsValid : (s : List ℕ) (p : Prefix) → parse_prefix s ≡ some p → IsValid p
unfolding parse_prefix
parse_prefix-IsValid s p h = elim (Option-cases (split_last b'/' s)) [
  | inl e ↦ cc (e, h)
  | inr ((before, after), e) ↦ ground (arith, e, parse_addr-cases before, decimal_le-cases 32 after)
]
