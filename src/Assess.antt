-- ===== src/Assess.antt =====
-- internal/assess: the conflicts between the address ranges of an organization's VPCs. The records
-- that it reads (types.go), and one range as an interval of addresses (sweep.go).
pub mod Collect
pub mod Conflict
pub mod Report
pub mod Sweep
pub mod Matrix
use platform_ipam.Prelude.{
  ℕ, ◌+◌, ◌-◌, ◌^◌, ◌%◌, String, List, [], ◌∷◌, ◌++◌, Bool, true, false, ◌&&◌, Option, none, some,
  ◌==◌, string_eq, nat_eq, bytes_eq, ltb, codes, if◌then◌else◌,
}
use platform_ipam.Netip.{Prefix, masked, size, prefix_eq}
use platform_ipam.Netip.Text.{parse_prefix}

pub data Tri : Type 0 where
  empty yes_primary no_primary unknown : Tri

pub data ResourceType : Type 0 where
  no_type vpc subnet : ResourceType

abbrev pub is_vpc : ResourceType → Bool
is_vpc vpc = true
is_vpc _ = false

abbrev pub is_subnet : ResourceType → Bool
is_subnet subnet = true
is_subnet _ = false

abbrev pub is_unset : ResourceType → Bool
is_unset no_type = true
is_unset _ = false

-- A text that the package takes apart or puts in order is the list of its code points.
abbrev pub Text : Type 0
Text = List ℕ

pub record ResourceRecord : Type 0 where
  pub account_id : String
  pub account_name : String
  pub region : String
  pub type : ResourceType
  pub resource_id : String
  pub cidr : Text
  pub association_id : Option String
  pub primary : Tri
  pub parent_id : String
  pub az_id : String
  pub name : String
  pub state : String
  pub observed_at : Option String
  pub source_file : Text
  pub source_row : ℕ

pub record FixedRange : Type 0 where
  pub cidr : Text
  pub description : Text
  pub owner : Text
  pub source_file : Text
  pub source_row : ℕ

-- `ResourceRecord.primary`
unfoldable pub primary_of : ResourceRecord → Tri
primary_of r = elim r.primary [ empty ↦ unknown | t ↦ t ]

-- `ResourceRecord.vpcKey`: the account, the region and the VPC between unit separators.
unfoldable pub vpc_key : ResourceRecord → Text
vpc_key r =
    let vpc_id = if is_subnet r.type then r.parent_id else r.resource_id in
    codes r.account_id ++ 0x1f ∷ (codes r.region ++ 0x1f ∷ codes vpc_id)

abbrev known_suffix : Option String → Text
known_suffix none = []
known_suffix (some a) = if a == "" then [] else b':' ∷ codes a

-- `ResourceRecord.Identity`
unfoldable pub identity : ResourceRecord → Text
identity r =
    codes "aws:"
    ++ (codes r.account_id
        ++ b':'
          ∷ (codes r.region
              ++ b':' ∷ (codes r.resource_id ++ b':' ∷ (r.cidr ++ known_suffix r.association_id))))

abbrev pub is_blank : Text → Bool
is_blank t = t == []

-- The required fields of one record that are missing, the first of them named.
unfoldable pub missing_field : ResourceRecord → Option String
missing_field r =
    if is_blank r.cidr
    then some "cidr"
    else if r.account_id == ""
    then some "account_id"
    else if r.region == ""
    then some "region"
    else if is_unset r.type
    then some "type"
    else if r.resource_id == ""
    then some "resource_id"
    else none

pub record MissingFieldError : Type 0 where
  pub source_file : Text
  pub source_row : ℕ
  pub field : String

-- `Validate`
unfoldable pub validate : List ResourceRecord → Option MissingFieldError
unfolding missing_field
validate [] = none
validate (r ∷ rs) =
    let rest = validate rs in
    elim (missing_field r) [
      | none ↦ rest
      | some f ↦ some (record { source_file = r.source_file; source_row = r.source_row; field = f })
    ]

-- One item that the sweep compares. `key` means nothing for a fixed range.
pub record Association : Type 0 where
  pub start : ℕ
  pub end : ℕ
  pub key : Text
  pub rec : Option ResourceRecord
  pub fixed : Bool
  pub fx : Option FixedRange
  pub identity : Text

-- `cidrInterval`, for the prefix that the text parses to: the first and the last address.
unfoldable pub prefix_interval : Prefix → Option (ℕ × ℕ)
unfolding prefix_eq
prefix_interval p =
    if prefix_eq p (masked p) then some (p.addr, (p.addr + size p.bits - 1) % 2 ^ 32) else none

-- `cidrInterval`
unfoldable pub cidr_interval : Text → Option (ℕ × ℕ)
unfolding prefix_interval
cidr_interval cidr = elim (parse_prefix cidr) [ none ↦ none | some p ↦ prefix_interval p ]
