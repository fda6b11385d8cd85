-- ===== src/Network/Address.antt =====
-- crates/kakoi-policy/src/network/address.rs. An address is a number below 2 ^ 32 or 2 ^ 128. The
-- standard library's reading of an address text is a parameter: `parse` is `str::parse::<IpAddr>`.
pub mod Laws
use kakoi.Prelude.{
  ℕ, ◌+◌, ◌*◌, ◌-◌, ◌/◌, ◌%◌, ◌^◌, Bool, true, false, not, ◌&&◌, ◌||◌, Option, none, some, List, [],
  ◌∷◌, all, length, if◌then◌else◌, eqb, leb, ltb, Result, ok, err, ◌==◌, nat_eq, list_eq,
}
use kakoi.Policy.{Text, codes}
use kakoi.Guard.Words.{split_once}
use kakoi.Ports.{digit, value_of, starts_with_zero}
use kakoi.Net.Leases.{IpAddr, v4, v6, ip_eq, ip_beq, to_canonical}

pub data AddressError : Type 0 where
  invalid_address : Text → AddressError
  no_prefix : Text → AddressError
  invalid_cidr : Text → AddressError
  invalid_prefix : Text → AddressError
  prefix_too_large : AddressError
  host_bits : IpAddr → ℕ → AddressError

pub record IpNetwork : Type 0 where
  pub address : IpAddr
  pub prefix : ℕ

abbrev pub is_ipv4 : IpAddr → Bool
is_ipv4 (v4 a) = true
is_ipv4 (v6 a) = false

-- `is_ipv4` is the same on both.
abbrev same_family : IpAddr → IpAddr → Bool
same_family (v4 a) (v4 b) = true
same_family (v6 a) (v6 b) = true
same_family _ _ = false

-- The bits of an address.
abbrev pub width : IpAddr → ℕ
width (v4 a) = 32
width (v6 a) = 128

-- `a & MAX.checked_shl(k).unwrap_or(0)`: the last `k` bits become zero.
abbrev pub clear_low : ℕ → ℕ → ℕ
clear_low a k = a / 2 ^ k * 2 ^ k

unfoldable pub masked : IpAddr → ℕ → IpAddr
masked (v4 a) prefix = v4 (clear_low a (32 - prefix))
masked (v6 a) prefix = v6 (clear_low a (128 - prefix))

-- The two tests of `IpNetwork::contains` on the canonical address.
abbrev pub network_has : IpNetwork → IpAddr → Bool
network_has network address =
    if same_family address network.address
    then masked address network.prefix == network.address
    else false

-- `IpNetwork::contains`
unfoldable pub network_contains : IpNetwork → IpAddr → Bool
unfolding masked ip_beq
network_contains network address = network_has network (to_canonical address)

-- An IPv4-mapped range as the IPv4 range.
abbrev pub mapped_range : IpAddr → ℕ → IpNetwork
mapped_range (v4 a) prefix = record { address = v4 a; prefix = prefix }
mapped_range (v6 a) prefix =
    if eqb (a / 2 ^ 32) 65535 && leb 96 prefix
    then record { address = v4 (a % 2 ^ 32); prefix = prefix - 96 }
    else record { address = v6 a; prefix = prefix }

-- A prefix length that parses as a `u8`.
unfoldable pub parse_prefix : Text → Result AddressError ℕ
parse_prefix text =
    if text == [] || (not (all digit text) || ltb 1 (length text) && starts_with_zero text)
    then err (invalid_prefix text)
    else if ltb (value_of 0 text) 256
    then ok (value_of 0 text)
    else err prefix_too_large

-- The checks of `from_str` on a parsed address and prefix.
unfoldable pub network_of : IpAddr → ℕ → Result AddressError IpNetwork
unfolding masked ip_beq
network_of address prefix =
    if ltb (width address) prefix
    then err prefix_too_large
    else if masked address prefix == address
    then ok (mapped_range address prefix)
    else err (host_bits (masked address prefix) prefix)

module _ (parse : Text → Option IpAddr) where
  unfoldable pub parse_ip : Text → Result AddressError IpAddr
  parse_ip input = elim (parse input) [
    | none ↦ err (invalid_address input)
    | some address ↦ ok (to_canonical address)
  ]

  -- The checks on the two parts of the text.
  unfoldable pub network_parts : Text → Text → Result AddressError IpNetwork
  network_parts address prefix = elim (parse address) [
    | none ↦ err (invalid_cidr address)
    | some ip ↦ elim (parse_prefix prefix) [ err e ↦ err e | ok n ↦ network_of ip n ]
  ]

  -- `IpNetwork::from_str`
  unfoldable pub network_from : Text → Result AddressError IpNetwork
  network_from input = elim (split_once b'/' input) [
    | none ↦ err (no_prefix input)
    | some (address, prefix) ↦ network_parts address prefix
  ]
