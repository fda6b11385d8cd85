-- ===== src/Network/Publish.antt =====
-- crates/kakoi-policy/src/network.rs: fixed publications and their merge. A port is a nonzero `u16`, as a
-- number. The two `HashMap`s are association lists, the entry inserted last in front.
pub mod Sound
pub mod Laws
pub mod Refused
use kakoi.Prelude.{
  ℕ, zero, suc, Bool, true, false, ◌&&◌, ◌||◌, Option, none, some, List, [], ◌∷◌, ◌++◌, get, length,
  is_some, if◌then◌else◌, Result, ok, err, ◌≡◌, refl, ◌↔◌, arith, Eq, ◌==◌, nat_eq, pair_eq,
  option_eq,
}
use kakoi.Network.{Protocol, IpFamily, protocol_eq, family_eq, family_beq, protocol_beq}

pub record FixedPublication : Type 0 where
  pub protocol : Protocol
  pub port : ℕ
  pub host_port : ℕ
  pub family : IpFamily

unfoldable pub publication_beq : FixedPublication → FixedPublication → Bool
publication_beq a b =
    a.protocol == b.protocol
    && (a.port == b.port && (a.host_port == b.host_port && a.family == b.family))

pub publication_beq_iff : (a b : FixedPublication) → (publication_beq a b ≡ true) ↔ (a ≡ b)
unfolding publication_beq
publication_beq_iff a b = (
  λ h. ground (
    arith,
    protocol_eq.beq_iff a.protocol b.protocol,
    nat_eq.beq_iff a.port b.port,
    nat_eq.beq_iff a.host_port b.host_port,
    family_eq.beq_iff a.family b.family,
  ),
  λ p. ground (
    arith,
    p,
    protocol_eq.beq_iff a.protocol b.protocol,
    nat_eq.beq_iff a.port b.port,
    nat_eq.beq_iff a.host_port b.host_port,
    family_eq.beq_iff a.family b.family,
  ),
)

instance abbrev pub publication_eq : Eq FixedPublication
publication_eq = record { beq = publication_beq; beq_iff = publication_beq_iff }

pub record FixedPublicationInput : Type 0 where
  pub protocol : Protocol
  pub port : ℕ
  pub host_port : ℕ
  pub target_family : IpFamily
  pub host_family : IpFamily

pub data PublicationError : Type 0 where
  families_differ : PublicationError
  conflicting : FixedPublication → PublicationError

-- `FixedPublication::try_from`
unfoldable publication_from : FixedPublicationInput → Result PublicationError FixedPublication
unfolding family_beq
publication_from input =
    if input.target_family == input.host_family
    then ok (record {
      protocol = input.protocol;
      port = input.port;
      host_port = input.host_port;
      family = input.target_family;
    })
    else err families_differ

abbrev pub Endpoint : Type 0
Endpoint = Protocol × (IpFamily × ℕ)

abbrev pub inside_end : FixedPublication → Endpoint
inside_end entry = (entry.protocol, (entry.family, entry.port))

abbrev pub host_end : FixedPublication → Endpoint
host_end entry = (entry.protocol, (entry.family, entry.host_port))

-- The three locals of `merge_publications`.
pub record Merging : Type 0 where
  pub merged : List FixedPublication
  pub ports : List (Endpoint × ℕ)
  pub host_ports : List (Endpoint × ℕ)

-- `slice::get`
unfoldable pub nth {ℓ} : {A : Type ℓ} → ℕ → List A → Option A
nth n [] = none
nth zero (x ∷ xs) = some x
nth (suc n) (x ∷ xs) = nth n xs

-- `merged[index] == entry`
abbrev pub stands_at : List FixedPublication → FixedPublication → Option ℕ → Bool
stands_at merged entry none = false
stands_at merged entry (some index) = nth index merged == some entry

-- The body of the loop.
unfoldable pub merge_entry : FixedPublication → Merging → Result PublicationError Merging
unfolding get nth
merge_entry entry state =
    if stands_at state.merged entry (get (inside_end entry) state.ports)
    then ok state
    else if is_some (get (inside_end entry) state.ports)
        || is_some (get (host_end entry) state.host_ports)
    then err (conflicting entry)
    else ok (record {
      merged = state.merged ++ (entry ∷ []);
      ports = (inside_end entry, length state.merged) ∷ state.ports;
      host_ports = (host_end entry, length state.merged) ∷ state.host_ports;
    })

unfoldable pub merge_entries : List FixedPublication → Merging → Result PublicationError Merging
merge_entries [] state = ok state
merge_entries (entry ∷ entries) state = elim (merge_entry entry state) [
  | err e ↦ err e
  | ok next ↦ merge_entries entries next
]

abbrev pub no_publications : Merging
no_publications = record { merged = []; ports = []; host_ports = [] }

-- `merge_publications`
unfoldable pub merge_publications :
    List FixedPublication → Result PublicationError (List FixedPublication)
merge_publications entries = elim (merge_entries entries no_publications) [
  | err e ↦ err e
  | ok state ↦ ok state.merged
]
