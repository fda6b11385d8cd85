-- ===== src/Network/Destination/Laws.antt =====
-- crates/kakoi-policy/src/network/allow.rs: which destinations are accepted.
use kakoi.Prelude.{
  true, false, not, ◌&&◌, Option, none, some, select, is_some, eqb, leb, ok, err, ok_same, err_same,
  Result-cases, ◌||◌, ◌∙◌, ap, ◌≡◌, ◌≢◌, refl, sym, subst, inl, inr, arith, Bool-cases,
}
use kakoi.Policy.{Text}
use kakoi.Network.{IpFamily}
use kakoi.Network.Name.{DnsPattern, pattern_from}
use kakoi.Network.Address.{IpNetwork, parse_ip, network_from}
use kakoi.Network.Destination.{
  Destination, dns, address, host_loopback, DestinationInput, panicked, is_link_local,
  validate_destination, written_kinds, written_network, address_destination, destination_kind,
  destination_from,
}
use kakoi.Net.Leases.{IpAddr}

-- An address destination says through which interface a link-local network is reached.
abbrev HasInterface : IpNetwork → Option Text → Type 0
HasInterface network interface =
    (is_link_local network.address && leb 10 network.prefix && not (is_some interface)) ≡ false

-- What a written destination becomes: a pattern or a loopback family with no interface beside it, or
-- a network with the interface written.
pub data Accepted (to_ascii : Text → Option Text) (input : DestinationInput)
    : Destination → Type 0 where
  named :
      {name : Text} {pattern : DnsPattern}
      → input.dns ≡ some name
      → pattern_from to_ascii name ≡ ok pattern
      → input.host_interface ≡ none
      → Accepted to_ascii input (dns pattern)
  loopback :
      {family : IpFamily}
      → input.host_loopback ≡ some family
      → input.host_interface ≡ none
      → Accepted to_ascii input (host_loopback family)
  addressed :
      {network : IpNetwork}
      → input.dns ≡ none
      → input.host_loopback ≡ none
      → HasInterface network input.host_interface
      → Accepted to_ascii input (address network input.host_interface)

no_interface : (o : Option Text) → is_some o ≡ false → o ≡ none
no_interface none h = refl
no_interface (some t) h = absurd (cc h)

address-HasInterface :
    (network : IpNetwork) (interface : Option Text) {d : Destination}
    → address_destination network interface ≡ ok d
    → HasInterface network interface × (d ≡ address network interface)
unfolding validate_destination
address-HasInterface network interface {d} h =
    let lacks = is_link_local network.address && leb 10 network.prefix && not (is_some interface) in
    elim (Bool-cases lacks) [
      | inl missing ↦ absurd (cc (rw (missing, address_destination) at h))
      | inr fine ↦ (fine, sym (ok_same (rw (fine, address_destination) at h)))
    ]

module _ (to_ascii : Text → Option Text) (parse : Text → Option IpAddr) where
  kind-Accepted :
      (input : DestinationInput) (name : Option Text) (family : Option IpFamily) {d : Destination}
      → input.dns ≡ name
      → input.host_loopback ≡ family
      → destination_kind to_ascii parse name family input.ip input.cidr input.host_interface ≡ ok d
      → Accepted to_ascii input d
  unfolding destination_kind
  kind-Accepted input (some name) family n f h = elim (Bool-cases (is_some input.host_interface)) [
    | inl needless ↦ absurd (cc (rw needless at h))
    | inr fine ↦ elim (Result-cases (pattern_from to_ascii name)) [
      | inl (e, bad) ↦ absurd (cc (rw (fine, bad) at h))
      | inr (pattern, good) ↦
          subst (Accepted to_ascii input) (ok_same (rw (fine, good) at h))
            (named n good (no_interface input.host_interface fine))
    ]
  ]
  kind-Accepted input none (some family) n f h = elim (Bool-cases (is_some input.host_interface)) [
    | inl needless ↦ absurd (cc (rw needless at h))
    | inr fine ↦
        subst (Accepted to_ascii input) (ok_same (rw fine at h))
          (loopback f (no_interface input.host_interface fine))
  ]
  kind-Accepted input none none n f h =
      elim (Result-cases (written_network to_ascii parse input.ip input.cidr)) [
        | inl (e, bad) ↦ absurd (cc (rw (bad, destination_kind) at h))
        | inr (network, good) ↦
            let (has, same) =
              address-HasInterface network input.host_interface
                (rw (good, destination_kind) at h) in
            subst (Accepted to_ascii input) (sym same) (addressed n f has)
      ]

  network_no_panic :
      (ip cidr : Option Text)
      → (is_some ip || is_some cidr) ≡ true
      → written_network to_ascii parse ip cidr ≢ err panicked
  unfolding written_network
  network_no_panic (some ip) cidr c h = elim (Result-cases (parse_ip parse ip)) [
    | inl (e, bad) ↦ cc (rw (bad, written_network) at h)
    | inr (a, good) ↦ cc (rw (good, written_network) at h)
  ]
  network_no_panic none (some cidr) c h = elim (Result-cases (network_from parse cidr)) [
    | inl (e, bad) ↦ cc (rw (bad, written_network) at h)
    | inr (network, good) ↦ cc (rw (good, written_network) at h)
  ]
  network_no_panic none none c h = cc c

  address_no_panic :
      (network : IpNetwork) (interface : Option Text)
      → address_destination network interface ≢ err panicked
  unfolding validate_destination
  address_no_panic network interface h =
      let lacks =
        is_link_local network.address && leb 10 network.prefix && not (is_some interface) in
      elim (Bool-cases lacks) [
        | inl missing ↦ cc (rw (missing, address_destination) at h)
        | inr fine ↦ cc (rw (fine, address_destination) at h)
      ]

  no_panic :
      (name : Option Text) (family : Option IpFamily) (ip cidr interface : Option Text)
      → eqb (written_kinds name ip cidr family) 1 ≡ true
      → destination_kind to_ascii parse name family ip cidr interface ≢ err panicked
  unfolding destination_kind select
  no_panic (some name) family ip cidr (some i) c h = cc h
  no_panic (some name) family ip cidr none c h = elim (Result-cases (pattern_from to_ascii name)) [
    | inl (e, bad) ↦ cc (rw bad at h)
    | inr (pattern, good) ↦ cc (rw good at h)
  ]
  no_panic none (some family) ip cidr (some i) c h = cc h
  no_panic none (some family) ip cidr none c h = cc h
  no_panic none none ip cidr interface c h =
      elim (Result-cases (written_network to_ascii parse ip cidr)) [
        | inr (network, good) ↦
            address_no_panic network interface (rw (good, destination_kind) at h)
        | inl (e, bad) ↦
            let same : e ≡ panicked = err_same (rw (bad, destination_kind) at h) in
            network_no_panic ip cidr (some_written ip cidr c) (bad ∙ ap err same)
      ]
    where
      some_written :
          (ip cidr : Option Text)
          → eqb (written_kinds none ip cidr none) 1 ≡ true
          → (is_some ip || is_some cidr) ≡ true
      some_written none none c = absurd (cc c)
      some_written none (some cidr) c = refl
      some_written (some ip) cidr c = refl

-- The `expect` in the reading of a destination never fails.
destination_from-no_panic :
    (to_ascii : Text → Option Text) (parse : Text → Option IpAddr) (input : DestinationInput)
    → destination_from to_ascii parse input ≢ err panicked
unfolding destination_from
destination_from-no_panic to_ascii parse input h =
    let kinds = written_kinds input.dns input.ip input.cidr input.host_loopback in
    elim (Bool-cases (eqb kinds 1)) [
      | inr other ↦ cc (rw other at h)
      | inl one ↦
          no_panic to_ascii parse input.dns input.host_loopback input.ip input.cidr
            input.host_interface one (rw one at h)
    ]

-- When a written destination is accepted, exactly one of its four kinds is written, a name or a
-- loopback family has no interface beside it, and a network within the IPv6 link-local range has one.
destination_from-Accepted :
    (to_ascii : Text → Option Text) (parse : Text → Option IpAddr) (input : DestinationInput)
    {d : Destination}
    → destination_from to_ascii parse input ≡ ok d
    → (written_kinds input.dns input.ip input.cidr input.host_loopback ≡ 1)
      × Accepted to_ascii input d
unfolding destination_from
destination_from-Accepted to_ascii parse input h =
    let kinds = written_kinds input.dns input.ip input.cidr input.host_loopback in
    elim (Bool-cases (eqb kinds 1)) [
      | inr other ↦ absurd (cc (rw other at h))
      | inl one ↦ (
        ground (arith, one),
        kind-Accepted to_ascii parse input input.dns input.host_loopback refl refl (rw one at h),
      )
    ]
