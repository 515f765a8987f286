-- ===== src/Netip/Text.antt =====
-- `netip.ParsePrefix` and `Prefix.String` on the bytes of an IPv4 prefix, as in "10.64.16.0/20".
-- An IPv6 text gives `none`: every caller treats an IPv6 prefix as one that does not parse, since
-- it overlaps no IPv4 prefix and fails each `Is4` test.
use platform_ipam.Prelude.{
  ℕ, ◌+◌, ◌-◌, ◌*◌, ◌/◌, ◌%◌, ◌^◌, ◌&&◌, Option, none, some, List, [], ◌∷◌, ◌++◌, leb, ltb, ◌==◌,
  nat_eq, if◌then◌else◌,
}
use platform_ipam.Netip.{Prefix}

infixl 5 ◌>>=◌
abbrev ◌>>=◌ : {A B : Type 0} → Option A → (A → Option B) → Option B
none >>= f = none
some a >>= f = f a

-- `strings.LastIndexByte` and the two slices around it.
unfoldable pub split_last : ℕ → List ℕ → Option (List ℕ × List ℕ)
split_last c [] = none
split_last c (x ∷ xs) = elim (split_last c xs) [
  | some (before, after) ↦ some (x ∷ before, after)
  | none ↦ if x == c then some ([], xs) else none
]

abbrev push_head : ℕ → List (List ℕ) → List (List ℕ)
push_head x [] = (x ∷ []) ∷ []
push_head x (field ∷ fields) = (x ∷ field) ∷ fields

-- The fields between the dots, as the loop of `parseIPv4Fields` delimits them.
unfoldable pub split_on : ℕ → List ℕ → List (List ℕ)
split_on c [] = [] ∷ []
split_on c (x ∷ xs) = let rest = split_on c xs in if x == c then [] ∷ rest else push_head x rest

digits : ℕ → List ℕ → Option ℕ
digits acc [] = some acc
digits acc (c ∷ cs) =
    let rest = digits (acc * 10 + (c - b'0')) cs in if leb b'0' c && leb c b'9' then rest else none

-- At least one digit, and no leading zero before another digit.
decimal : List ℕ → Option ℕ
unfolding digits
decimal [] = none
decimal (c ∷ []) = digits 0 (c ∷ [])
decimal (c ∷ d ∷ cs) = if c == b'0' then none else digits 0 (c ∷ d ∷ cs)

unfoldable pub decimal_le : ℕ → List ℕ → Option ℕ
unfolding decimal
decimal_le bound s = do n ← decimal s; if leb n bound then some n else none

unfoldable pub join_octets : ℕ → ℕ → ℕ → ℕ → ℕ
join_octets a b c d = a * 2 ^ 24 + b * 2 ^ 16 + c * 2 ^ 8 + d

unfoldable pub parse_fields : List (List ℕ) → Option ℕ
unfolding join_octets
parse_fields (a ∷ b ∷ c ∷ d ∷ []) = do
  a' ← decimal_le 255 a
  b' ← decimal_le 255 b
  c' ← decimal_le 255 c
  d' ← decimal_le 255 d
  some (join_octets a' b' c' d')
parse_fields _ = none

unfoldable pub parse_addr : List ℕ → Option ℕ
unfolding parse_fields
parse_addr s = parse_fields (split_on b'.' s)

unfoldable pub parse_prefix : List ℕ → Option Prefix
unfolding parse_addr split_last split_on decimal_le
parse_prefix s = do
  (before, after) ← split_last b'/' s
  a ← parse_addr before
  n ← decimal_le 32 after
  some (record { addr = a; bits = n })

-- Decimal digits of a number below 1000, as `Prefix.String` appends them.
unfoldable pub print_decimal : ℕ → List ℕ
print_decimal n =
    if ltb n 10
    then (b'0' + n) ∷ []
    else if ltb n 100
    then (b'0' + n / 10) ∷ (b'0' + n % 10) ∷ []
    else (b'0' + n / 100) ∷ (b'0' + n / 10 % 10) ∷ (b'0' + n % 10) ∷ []

unfoldable pub print_addr : ℕ → List ℕ
print_addr a =
    print_decimal (a / 2 ^ 24)
    ++ b'.'
      ∷ (print_decimal (a / 2 ^ 16 % 256)
          ++ b'.' ∷ (print_decimal (a / 2 ^ 8 % 256) ++ b'.' ∷ print_decimal (a % 256)))

unfoldable pub print_prefix : Prefix → List ℕ
unfolding print_addr
print_prefix p = print_addr p.addr ++ b'/' ∷ print_decimal p.bits
