-- ===== src/Network/Destination/Equality.antt =====
-- crates/kakoi-policy/src/network/allow.rs: `==` on permissions.
use kakoi.Prelude.{
  ℕ, Bool, true, false, ◌&&◌, Eq, ◌==◌, eq_of, nat_eq, list_eq, pair_eq, option_eq, ◌≡◌, ◌↔◌, refl,
  ap, arith, &&-true,
}
use kakoi.Policy.{Text}
use kakoi.Ports.{PortRange}
use kakoi.Network.{protocol_eq, family_eq}
use kakoi.Network.Name.{DnsPattern}
use kakoi.Network.Address.{IpNetwork}
use kakoi.Network.Destination.{Destination, dns, address, host_loopback, Allow}
use kakoi.Net.Leases.{ip_eq}

unfoldable pub bool_beq : Bool → Bool → Bool
bool_beq true true = true
bool_beq false false = true
bool_beq _ _ = false

pub bool_beq_iff : (a b : Bool) → (bool_beq a b ≡ true) ↔ (a ≡ b)
unfolding bool_beq
bool_beq_iff true true = (λ h. refl, λ p. refl)
bool_beq_iff false false = (λ h. refl, λ p. refl)
bool_beq_iff _ _ = (λ h. cc, λ p. cc)

instance abbrev pub bool_eq : Eq Bool
bool_eq = record { beq = bool_beq; beq_iff = bool_beq_iff }

unfoldable pattern_beq : DnsPattern → DnsPattern → Bool
pattern_beq a b = a.ascii == b.ascii && a.descendants == b.descendants

pattern_beq_iff : (a b : DnsPattern) → (pattern_beq a b ≡ true) ↔ (a ≡ b)
unfolding pattern_beq
pattern_beq_iff a b = (
  λ h. ground (
    arith,
    (list_eq {A = ℕ}).beq_iff a.ascii b.ascii,
    bool_eq.beq_iff a.descendants b.descendants,
  ),
  λ p. ground (
    arith,
    p,
    (list_eq {A = ℕ}).beq_iff a.ascii b.ascii,
    bool_eq.beq_iff a.descendants b.descendants,
  ),
)

unfoldable network_beq : IpNetwork → IpNetwork → Bool
network_beq a b = a.address == b.address && a.prefix == b.prefix

network_beq_iff : (a b : IpNetwork) → (network_beq a b ≡ true) ↔ (a ≡ b)
unfolding network_beq
network_beq_iff a b = (
  λ h. ground (arith, ip_eq.beq_iff a.address b.address, nat_eq.beq_iff a.prefix b.prefix),
  λ p. ground (arith, p, ip_eq.beq_iff a.address b.address, nat_eq.beq_iff a.prefix b.prefix),
)

unfoldable destination_beq : Destination → Destination → Bool
unfolding pattern_beq network_beq option_eq
destination_beq (dns a) (dns b) = pattern_beq a b
destination_beq (address a i) (address b j) = network_beq a b && i == j
destination_beq (host_loopback a) (host_loopback b) = a == b
destination_beq _ _ = false

destination_beq_iff : (a b : Destination) → (destination_beq a b ≡ true) ↔ (a ≡ b)
unfolding destination_beq
destination_beq_iff (dns a) (dns b) =
    (λ h. ap dns ((pattern_beq_iff a b).0 h), λ p. (pattern_beq_iff a b).1 (ground (arith, p)))
destination_beq_iff (address a i) (address b j) = (
  λ h.
      let (n, o) = &&-true (network_beq a b) (i == j) h in
      let same = (network_beq_iff a b).0 n in let interface = eq_of i j o in cc (same, interface),
  λ p. ground (arith, p, network_beq_iff a b, (option_eq {A = Text}).beq_iff i j),
)
destination_beq_iff (host_loopback a) (host_loopback b) =
    (λ h. ap host_loopback (eq_of a b h), λ p. (family_eq.beq_iff a b).1 (ground (arith, p)))
destination_beq_iff _ _ = (λ h. cc, λ p. cc)

instance abbrev destination_eq : Eq Destination
destination_eq = record { beq = destination_beq; beq_iff = destination_beq_iff }

unfoldable pub allow_beq : Allow → Allow → Bool
unfolding destination_beq
allow_beq a b = a.destination == b.destination && (a.protocol == b.protocol && a.ports == b.ports)

pub allow_beq_iff : (a b : Allow) → (allow_beq a b ≡ true) ↔ (a ≡ b)
unfolding allow_beq
allow_beq_iff a b = (
  λ h. ground (
    arith,
    destination_eq.beq_iff a.destination b.destination,
    protocol_eq.beq_iff a.protocol b.protocol,
    (list_eq {A = PortRange}).beq_iff a.ports b.ports,
  ),
  λ p. ground (
    arith,
    p,
    destination_eq.beq_iff a.destination b.destination,
    protocol_eq.beq_iff a.protocol b.protocol,
    (list_eq {A = PortRange}).beq_iff a.ports b.ports,
  ),
)

instance abbrev pub allow_eq : Eq Allow
allow_eq = record { beq = allow_beq; beq_iff = allow_beq_iff }
