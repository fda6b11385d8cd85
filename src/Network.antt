-- ===== src/Network.antt =====
-- The values of the `[network]` table: crates/kakoi-policy/src/network.rs (`Protocol`, `IpFamily`) and
-- the files of crates/kakoi-policy/src/network, one module each; ports.rs is in Ports.
pub mod Limits
pub mod Publish
pub mod Name
pub mod Address
pub mod Destination
pub mod Upstream
use kakoi.Prelude.{Bool, true, false, Eq, ◌≡◌, refl, ◌↔◌}

pub data Protocol : Type 0 where
  tcp udp : Protocol

unfoldable pub protocol_beq : Protocol → Protocol → Bool
protocol_beq tcp tcp = true
protocol_beq udp udp = true
protocol_beq _ _ = false

pub protocol_beq_iff : (a b : Protocol) → (protocol_beq a b ≡ true) ↔ (a ≡ b)
unfolding protocol_beq
protocol_beq_iff tcp tcp = (λ h. refl, λ p. refl)
protocol_beq_iff udp udp = (λ h. refl, λ p. refl)
protocol_beq_iff _ _ = (λ h. cc, λ p. cc)

instance abbrev pub protocol_eq : Eq Protocol
protocol_eq = record { beq = protocol_beq; beq_iff = protocol_beq_iff }

pub data IpFamily : Type 0 where
  ipv4 ipv6 : IpFamily

unfoldable pub family_beq : IpFamily → IpFamily → Bool
family_beq ipv4 ipv4 = true
family_beq ipv6 ipv6 = true
family_beq _ _ = false

pub family_beq_iff : (a b : IpFamily) → (family_beq a b ≡ true) ↔ (a ≡ b)
unfolding family_beq
family_beq_iff ipv4 ipv4 = (λ h. refl, λ p. refl)
family_beq_iff ipv6 ipv6 = (λ h. refl, λ p. refl)
family_beq_iff _ _ = (λ h. cc, λ p. cc)

instance abbrev pub family_eq : Eq IpFamily
family_eq = record { beq = family_beq; beq_iff = family_beq_iff }
