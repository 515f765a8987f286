-- ===== src/Netip.antt =====
-- What the code uses of Go's net/netip: an IPv4 prefix, `Masked`, `Contains` and `Overlaps`, and
-- the service's conversions `addrInt` and `prefixFromInt` (internal/service/service.go).
pub mod Blocks
pub mod Ranges
pub mod Text
pub mod Printing
use platform_ipam.Prelude.{
  ℕ, ◌+◌, ◌-◌, ◌*◌, ◌/◌, ◌%◌, ◌^◌, ◌≤◌, ◌<◌, min, Bool, true, ◌&&◌, Option, none, some, ltb, ◌==◌,
  nat_eq, if◌then◌else◌,
}

-- `netip.Prefix` over an IPv4 address, the address as the number that its four bytes spell.
pub record Prefix : Type 0 where
  pub addr : ℕ
  pub bits : ℕ

pub record IsValid (p : Prefix) : Type 0 where
  pub addr_lt : p.addr < 2 ^ 32
  pub bits_le : p.bits ≤ 32

-- The number of addresses of a prefix with `bits` bits: `1 << (32 - bits)`.
unfoldable pub size : ℕ → ℕ
size bits = 2 ^ (32 - bits)

-- `Prefix.Masked`: the host bits are cleared.
unfoldable pub masked : Prefix → Prefix
masked p = record p { addr = p.addr - p.addr % size p.bits }

-- `Prefix.Contains`: the address agrees with the prefix above the host bits.
unfoldable pub contains : Prefix → ℕ → Bool
contains p x = p.addr / size p.bits == x / size p.bits

-- `Prefix.Overlaps`: the two agree in the bits of the shorter one.
unfoldable pub overlaps : Prefix → Prefix → Bool
overlaps p q =
    let bits = min p.bits q.bits in
    if bits == 0 then true else p.addr / size bits == q.addr / size bits

-- `p == q` on `netip.Prefix` values.
unfoldable pub prefix_eq : Prefix → Prefix → Bool
prefix_eq p q = p.addr == q.addr && p.bits == q.bits

-- `addrInt`: the four bytes of an address, the first one highest.
unfoldable pub addr_int : ℕ → ℕ
addr_int a =
    a / 2 ^ 24 % 256 * 2 ^ 24 + a / 2 ^ 16 % 256 * 2 ^ 16 + a / 2 ^ 8 % 256 * 2 ^ 8 + a % 256

-- `prefixFromInt`: the number is cut to 32 bits, and the prefix is masked.
unfoldable pub prefix_from_int : ℕ → ℕ → Option Prefix
unfolding masked
prefix_from_int x bits =
    if ltb 32 bits then none else some (masked (record { addr = x % 2 ^ 32; bits = bits }))
