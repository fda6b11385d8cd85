-- ===== src/Net/Leases.antt =====
-- crates/kakoi-net/src/leases.rs. An instant is a number of nanoseconds; `last_instant` is the last one
-- that the platform's clock can hold. The `BTreeMap` is an association list, in the order of insertion.
pub mod Laws
use kakoi.Prelude.{
  ℕ, ◌+◌, ◌*◌, ◌/◌, ◌%◌, ◌^◌, Bool, true, false, ◌&&◌, Option, none, some, List, [], ◌∷◌, map, get,
  select, if◌then◌else◌, eqb, ltb, leb, Eq, ◌==◌, nat_eq, pair_eq, ◌≡◌, refl, ap, ◌↔◌, arith,
}

-- `std::net::IpAddr`, the address as a number.
pub data IpAddr : Type 0 where
  v4 : ℕ → IpAddr
  v6 : ℕ → IpAddr

unfoldable pub ip_beq : IpAddr → IpAddr → Bool
ip_beq (v4 a) (v4 b) = eqb a b
ip_beq (v6 a) (v6 b) = eqb a b
ip_beq _ _ = false

pub ip_beq_iff : (a b : IpAddr) → (ip_beq a b ≡ true) ↔ (a ≡ b)
unfolding ip_beq
ip_beq_iff (v4 a) (v4 b) = (λ h. ap v4 (ground arith), λ p. ground arith)
ip_beq_iff (v6 a) (v6 b) = (λ h. ap v6 (ground arith), λ p. ground arith)
ip_beq_iff (v4 a) (v6 b) = (λ h. cc, λ p. cc)
ip_beq_iff (v6 a) (v4 b) = (λ h. cc, λ p. cc)

instance abbrev pub ip_eq : Eq IpAddr
ip_eq = record { beq = ip_beq; beq_iff = ip_beq_iff }

-- `IpAddr::to_canonical`: an IPv4-mapped address `::ffff:a.b.c.d` as IPv4.
unfoldable pub to_canonical : IpAddr → IpAddr
to_canonical (v4 a) = v4 a
to_canonical (v6 a) = if eqb (a / (2 ^ 32)) 65535 then v4 (a % (2 ^ 32)) else v6 a

abbrev pub seconds : ℕ → ℕ
seconds n = n * 1000000000

unfoldable pub record_deadline : ℕ → ℕ → ℕ → ℕ → Option ℕ
record_deadline last_instant received ttl_seconds zero_ttl_grace =
    let deadline = received + (if eqb ttl_seconds 0 then zero_ttl_grace else seconds ttl_seconds) in
    if leb deadline last_instant then some deadline else none

abbrev pub LeaseKey : Type 0
LeaseKey = ℕ × IpAddr

pub record LeaseBook : Type 0 where
  pub deadlines : List (LeaseKey × ℕ)

pub record ActiveGrant : Type 0 where
  pub rule : ℕ
  pub address : IpAddr
  pub deadline : ℕ

-- The filter of `record` and `active`.
abbrev pub alive : ℕ → LeaseKey × ℕ → Bool
alive now entry = ltb now entry.1

abbrev pub later_of : ℕ → ℕ → ℕ
later_of a b = if ltb a b then b else a

-- `entry(key).and_modify(max).or_insert(deadline)`
unfoldable pub prolong : {K : Type 0} ⦃e : Eq K⦄ → K → ℕ → List (K × ℕ) → List (K × ℕ)
prolong key deadline [] = (key, deadline) ∷ []
prolong key deadline ((j, old) ∷ entries) =
    if j == key
    then (j, later_of old deadline) ∷ entries
    else (j, old) ∷ prolong key deadline entries

-- `LeaseBook::record`
unfoldable pub record_grant : LeaseBook → ℕ → IpAddr → ℕ → ℕ → LeaseBook
record_grant book rule address deadline now =
    let live = select (alive now) book.deadlines in
    record {
      deadlines =
          if ltb now deadline then prolong (rule, to_canonical address) deadline live else live;
    }

-- An expiry that has not passed.
abbrev pub unexpired : ℕ → Option ℕ → Bool
unexpired now none = false
unexpired now (some expiry) = ltb now expiry

-- `LeaseBook::permits`
unfoldable pub permits : LeaseBook → ℕ → IpAddr → ℕ → Bool
permits book rule address now = unexpired now (get (rule, to_canonical address) book.deadlines)

-- `LeaseBook::active`
unfoldable pub active : LeaseBook → ℕ → List ActiveGrant
active book now =
    map (λ entry. record { rule = entry.0.0; address = entry.0.1; deadline = entry.1 })
      (select (alive now) book.deadlines)
