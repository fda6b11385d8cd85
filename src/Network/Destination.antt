-- ===== src/Network/Destination.antt =====
-- crates/kakoi-policy/src/network/allow.rs: the destination of a permission. The idna crate and the
-- standard library's reading of an address are parameters.
pub mod Laws
pub mod Equality
use kakoi.Prelude.{
  ℕ, zero, ◌+◌, ◌/◌, ◌^◌, Bool, true, false, not, ◌&&◌, ◌||◌, Option, none, some, List, [], ◌∷◌,
  select, length, is_some, if◌then◌else◌, eqb, leb, Result, ok, err, ◌==◌, nat_eq, list_eq,
  list_beq, ◌≡◌, refl, sym, ok_same, Result-cases, Bool-cases, subst, ◌⊎◌, inl, inr, arith,
}
use kakoi.Policy.{Text, codes}
use kakoi.Ports.{PortRange}
use kakoi.Network.{Protocol, IpFamily}
use kakoi.Network.Name.{DnsPattern, NameError, pattern_from}
use kakoi.Network.Address.{IpNetwork, AddressError, is_ipv4, width, parse_ip, network_from}
use kakoi.Net.Leases.{IpAddr, v4, v6}

pub data Destination : Type 0 where
  dns : DnsPattern → Destination
  address : IpNetwork → Option Text → Destination
  host_loopback : IpFamily → Destination

pub record Allow : Type 0 where
  pub destination : Destination
  pub protocol : Protocol
  pub ports : List PortRange

pub record DestinationInput : Type 0 where
  pub dns : Option Text
  pub ip : Option Text
  pub cidr : Option Text
  pub host_loopback : Option IpFamily
  pub host_interface : Option Text

pub data DestinationError : Type 0 where
  not_exactly_one : DestinationError
  needless_interface : DestinationError
  missing_interface : DestinationError
  -- The `expect` of the code fails.
  panicked : DestinationError
  bad_name : NameError → DestinationError
  bad_address : AddressError → DestinationError

-- `Ipv6Addr::is_unicast_link_local`: the ten bits of fe80::/10.
abbrev pub is_link_local : IpAddr → Bool
is_link_local (v4 a) = false
is_link_local (v6 a) = eqb (a / 2 ^ 118) 1018

-- `Destination::validate`
unfoldable pub validate_destination : Destination → Result DestinationError (Unit {0})
validate_destination (dns pattern) = ok tt
validate_destination (host_loopback family) = ok tt
validate_destination (address network interface) =
    if is_link_local network.address && leb 10 network.prefix && not (is_some interface)
    then err missing_interface
    else ok tt

-- A network with its interface, once it is validated.
abbrev pub address_destination : IpNetwork → Option Text → Result DestinationError Destination
address_destination network interface = elim (validate_destination (address network interface)) [
  | err e ↦ err e
  | ok _ ↦ ok (address network interface)
]

-- How many of the four kinds are written.
abbrev pub written_kinds : Option Text → Option Text → Option Text → Option IpFamily → ℕ
written_kinds name ip cidr loopback =
    length (
      select (λ present. present)
        (is_some name ∷ is_some ip ∷ is_some cidr ∷ is_some loopback ∷ []))

module _ (to_ascii : Text → Option Text) (parse : Text → Option IpAddr) where
  -- The network of `ip`, or else that of `cidr`, which `expect` takes to be written.
  unfoldable pub written_network : Option Text → Option Text → Result DestinationError IpNetwork
  written_network (some ip) cidr = elim (parse_ip parse ip) [
    | err e ↦ err (bad_address e)
    | ok a ↦ ok (record { address = a; prefix = width a })
  ]
  written_network none (some cidr) = elim (network_from parse cidr) [
    | err e ↦ err (bad_address e)
    | ok network ↦ ok network
  ]
  written_network none none = err panicked

  -- The kinds in the order in which the code looks at them.
  unfoldable pub destination_kind :
      Option Text
      → Option IpFamily
      → Option Text
      → Option Text
      → Option Text
      → Result DestinationError Destination
  unfolding written_network
  destination_kind (some name) loopback ip cidr interface =
      if is_some interface then err needless_interface else elim (pattern_from to_ascii name) [
        | err e ↦ err (bad_name e)
        | ok pattern ↦ ok (dns pattern)
      ]
  destination_kind none (some family) ip cidr interface =
      if is_some interface then err needless_interface else ok (host_loopback family)
  destination_kind none none ip cidr interface = elim (written_network ip cidr) [
    | err e ↦ err e
    | ok network ↦ address_destination network interface
  ]

  -- `Destination::try_from`
  unfoldable pub destination_from : DestinationInput → Result DestinationError Destination
  destination_from input =
      if eqb (written_kinds input.dns input.ip input.cidr input.host_loopback) 1
      then destination_kind input.dns input.host_loopback input.ip input.cidr input.host_interface
      else err not_exactly_one
