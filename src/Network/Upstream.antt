-- ===== src/Network/Upstream.antt =====
-- crates/kakoi-policy/src/network/upstream.rs: the DNS servers a policy names.
use kakoi.Prelude.{
  ℕ, Bool, true, false, not, Option, none, some, List, [], ◌∷◌, any, any-false, any-true, is_some,
  if◌then◌else◌, Result, ok, err, ◌≡◌, refl, sym, ◌∙◌, Bool-cases, inl, inr, ◌↔◌, All, All-of,
  All-In, arith,
}
use kakoi.Policy.{Text}
use kakoi.Network.Name.{NameError, normalize}
use kakoi.Network.Address.{AddressError, parse_ip}
use kakoi.Net.Leases.{IpAddr}

pub record DnsUpstream : Type 0 where
  pub address : IpAddr
  pub port : ℕ
  pub tls_name : Option Text

pub data Transport : Type 0 where
  plain tls : Transport

pub record UpstreamInput : Type 0 where
  pub transport : Transport
  pub ip : Text
  pub port : ℕ
  pub tls_name : Option Text

pub data UpstreamError : Type 0 where
  plain_with_name : UpstreamError
  tls_without_name : UpstreamError
  mixed : UpstreamError
  bad_tls_name : NameError → UpstreamError
  bad_ip : AddressError → UpstreamError

module _ (to_ascii : Text → Option Text) (parse : Text → Option IpAddr) where
  -- The match on the transport and the name.
  unfoldable tls_name_of : Transport → Option Text → Result UpstreamError (Option Text)
  tls_name_of plain none = ok none
  tls_name_of tls (some name) = elim (normalize to_ascii name) [
    | err e ↦ err (bad_tls_name e)
    | ok ascii ↦ ok (some ascii)
  ]
  tls_name_of plain (some name) = err plain_with_name
  tls_name_of tls none = err tls_without_name

  -- `DnsUpstream::try_from`
  unfoldable upstream_from : UpstreamInput → Result UpstreamError DnsUpstream
  unfolding tls_name_of
  upstream_from input = elim (tls_name_of input.transport input.tls_name) [
    | err e ↦ err e
    | ok name ↦ elim (parse_ip parse input.ip) [
      | err e ↦ err (bad_ip e)
      | ok ip ↦ ok (record { address = ip; port = input.port; tls_name = name })
    ]
  ]

-- `!=` on two Booleans.
abbrev pub differs : Bool → Bool → Bool
differs true b = not b
differs false b = b

-- `validate_upstreams`
unfoldable pub validate_upstreams : List DnsUpstream → Result UpstreamError (Unit {0})
validate_upstreams [] = ok tt
validate_upstreams (first ∷ more) =
    if any (λ item. differs (is_some item.tls_name) (is_some first.tls_name)) (first ∷ more)
    then err mixed
    else ok tt

equal_of : (a b : Bool) → differs a b ≡ false → a ≡ b
equal_of true true h = refl
equal_of true false h = absurd (cc h)
equal_of false true h = absurd (cc h)
equal_of false false h = refl

not_differs : (a b : Bool) → a ≡ b → differs a b ≡ false
not_differs true b h = ground (arith, h)
not_differs false b h = sym h

-- The servers of a policy are accepted exactly when all of them use TLS or none does.
pub validate_upstreams-uniform :
    (upstreams : List DnsUpstream)
    → (validate_upstreams upstreams ≡ ok tt)
      ↔ ((kind : Bool) × All (λ u. is_some u.tls_name ≡ kind) upstreams)
unfolding validate_upstreams
validate_upstreams-uniform [] = (λ h. (true, tt), λ h. refl)
validate_upstreams-uniform (first ∷ more) = (λ h. uniform h, λ (kind, same). accepted kind same)
  where
    kind_test : DnsUpstream → Bool
    kind_test item = differs (is_some item.tls_name) (is_some first.tls_name)

    uniform :
        validate_upstreams (first ∷ more) ≡ ok tt
        → (kind : Bool) × All (λ u. is_some u.tls_name ≡ kind) (first ∷ more)
    uniform h = elim (Bool-cases (any kind_test (first ∷ more))) [
      | inl some_differ ↦ absurd (cc (rw some_differ at h))
      | inr alike ↦ (
        is_some first.tls_name,
        All-of _ (first ∷ more) (λ u m.
            equal_of (is_some u.tls_name) (is_some first.tls_name)
              (any-false kind_test (first ∷ more) alike m)),
      )
    ]

    accepted :
        (kind : Bool)
        → All (λ u. is_some u.tls_name ≡ kind) (first ∷ more)
        → validate_upstreams (first ∷ more) ≡ ok tt
    accepted kind same = elim (Bool-cases (any kind_test (first ∷ more))) [
      | inr alike ↦ rw alike refl
      | inl some_differ ↦
          let (u, m, d) = any-true kind_test (first ∷ more) some_differ in
          let equal = All-In _ (first ∷ more) same m ∙ sym same.0 in
          absurd (cc (not_differs _ _ equal, d))
    ]
