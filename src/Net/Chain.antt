-- ===== src/Net/Chain.antt =====
-- crates/kakoi-net/src/dns/chain.rs: the records of an answer that lead from a name to its addresses.
-- The message is the hickory crate's: a record is what `consume` reads of one, `from_ascii`, `to_ascii`
-- and `same_name` are `Name::from_ascii`, `Name::to_ascii` and `eq_ignore_root`.
pub mod Laws
pub mod Candidates
use kakoi.Prelude.{
  ℕ, zero, suc, ◌+◌, Bool, true, false, not, ◌&&◌, ◌||◌, Option, none, some, List, [], ◌∷◌, map,
  any, select, filter_map, length, if◌then◌else◌, Result, ok, err,
}
use kakoi.Policy.{Text}
use kakoi.Net.Leases.{IpAddr, v4, v6, to_canonical, record_deadline}
use kakoi.Net.Resolution.{
  CnameChain, CnameError, invalid_name, cycle, hops, new_chain, follow, permission_deadline,
  earlier,
}

pub data RecordType : Type 0 where
  a_type aaaa_type other_type : RecordType

pub data RData (N : Type 0) : Type 0 where
  cname : N → RData N
  ipv4_data : ℕ → RData N
  ipv6_data : ℕ → RData N
  -- An RRSIG or NSEC record.
  signature : RData N
  other_data : RData N

pub record DnsRecord (N : Type 0) : Type 0 where
  pub name : N
  pub in_class : Bool
  pub ttl : ℕ
  pub rdata : RData N

pub data DnsError : Type 0 where
  unsupported_query mismatched_response incomplete_response conflicting_alias lifetime_overflow :
      DnsError
  alias_cycle alias_limit malformed : DnsError

pub record AddressCandidate : Type 0 where
  pub address : IpAddr
  pub deadline : ℕ

pub data AddressProgress : Type 0 where
  complete : List AddressCandidate → AddressProgress
  follow_on : Text → AddressProgress
  no_data : AddressProgress

pub record AddressChain (N : Type 0) : Type 0 where
  pub current : N
  pub kind : RecordType
  pub aliases : CnameChain N

-- What `consume` reads of the question and the status of a response.
pub record Response (N : Type 0) : Type 0 where
  pub question_name : N
  pub question_kind : RecordType
  pub question_in_class : Bool
  pub is_answer : Bool
  pub no_error : Bool
  pub answers : List (DnsRecord N)

unfoldable pub alias_error : CnameError → DnsError
alias_error cycle = alias_cycle
alias_error hops = alias_limit
alias_error invalid_name = malformed

abbrev pub same_kind : RecordType → RecordType → Bool
same_kind a_type a_type = true
same_kind aaaa_type aaaa_type = true
same_kind other_type other_type = true
same_kind _ _ = false

-- The target and the time to live of a CNAME record.
abbrev pub alias_of : {N : Type 0} → RData N → ℕ → Option (N × ℕ)
alias_of (cname target) ttl = some (target, ttl)
alias_of _ ttl = none

-- A record that may stand beside a CNAME.
abbrev pub beside_alias : {N : Type 0} → RData N → Bool
beside_alias (cname target) = true
beside_alias signature = true
beside_alias _ = false

-- The address of a record of the kind asked for.
abbrev pub address_of : {N : Type 0} → RecordType → RData N → ℕ → Option (IpAddr × ℕ)
address_of a_type (ipv4_data address) ttl = some (v4 address, ttl)
address_of aaaa_type (ipv6_data address) ttl = some (to_canonical (v6 address), ttl)
address_of _ _ ttl = none

module _ {N : Type 0} (from_ascii : Text → Option N) (to_ascii : N → Text)
    (same_name : N → N → Bool) where
  -- `AddressChain::new`, for a question of the class IN.
  unfoldable new_address_chain : N → RecordType → Bool → ℕ → Result DnsError (AddressChain N)
  new_address_chain name kind in_class max_hops =
      if not in_class || same_kind kind other_type
      then err unsupported_query
      else elim (new_chain from_ascii same_name (to_ascii name) max_hops) [
        | err e ↦ err (alias_error e)
        | ok aliases ↦ ok (record { current = name; kind = kind; aliases = aliases })
      ]

  module _ (last_instant received zero_grace : ℕ) where
    -- `earliest_deadline`, from the times to live.
    unfoldable pub earliest_from : Option ℕ → List ℕ → Result DnsError (Option ℕ)
    unfolding record_deadline
    earliest_from earliest [] = ok earliest
    earliest_from earliest (ttl ∷ ttls) =
        elim (record_deadline last_instant received ttl zero_grace) [
          | none ↦ err lifetime_overflow
          | some next ↦
              earliest_from
                (elim earliest [ none ↦ some next | some old ↦ some (earlier old next) ]) ttls
        ]

    -- The records of the current name.
    abbrev pub records_of : N → List (DnsRecord N) → List (DnsRecord N)
    records_of current answers = select (λ r. r.in_class && same_name r.name current) answers

    -- The end of the loop: the addresses, or where to go on.
    unfoldable pub finish :
        AddressChain N → Bool → List (IpAddr × ℕ) → Result DnsError AddressProgress
    finish chain followed addresses = elim (earliest_from none (map (λ x. x.1) addresses)) [
      | err e ↦ err e
      | ok (some earliest) ↦
          let deadline = permission_deadline chain.aliases earliest in
          ok (complete (map (λ x. record { address = x.0; deadline = deadline }) addresses))
      | ok none ↦ ok (if followed then follow_on (to_ascii chain.current) else no_data)
    ]

    -- The checks on the aliases of the current name, and the chain behind them.
    unfoldable pub follow_aliases :
        AddressChain N → N → List (N × ℕ) → List (DnsRecord N) → Result DnsError (AddressChain N)
    follow_aliases chain target aliases records =
        if any (λ x. not (same_name x.0 target)) aliases
          || any (λ r. not (beside_alias r.rdata)) records
        then err conflicting_alias
        else elim (earliest_from none (map (λ x. x.1) aliases)) [
          | err e ↦ err e
          -- The `expect` of the code: there is at least one alias.
          | ok none ↦ err malformed
          | ok (some deadline) ↦
              elim (follow from_ascii same_name chain.aliases (to_ascii target) deadline) [
                | err e ↦ err (alias_error e)
                | ok followed ↦ ok (record chain { current = target; aliases = followed })
              ]
        ]

    -- The loop of `consume_inner` on fuel; `none` when the fuel runs out.
    unfoldable pub walk :
        ℕ
        → AddressChain N
        → Bool
        → List (DnsRecord N)
        → Option (Result DnsError (AddressProgress × AddressChain N))
    unfolding follow_aliases finish
    walk zero chain followed answers = none
    walk (suc fuel) chain followed answers =
        let records = records_of chain.current answers in
        let aliases = filter_map (λ r. alias_of r.rdata r.ttl) records in
        elim aliases [
          | [] ↦
              elim (finish chain followed
                (filter_map (λ r. address_of chain.kind r.rdata r.ttl) records)) [
                  | err e ↦ some (err e)
                  | ok progress ↦ some (ok (progress, chain))
                ]
          | (target, ttl) ∷ more ↦
              elim (follow_aliases chain target ((target, ttl) ∷ more) records) [
                | err e ↦ some (err e)
                | ok next ↦ walk fuel next true answers
              ]
        ]

    -- Every round adds a name to the chain, which has at most one more than the hops allowed.
    abbrev pub walk_fuel : AddressChain N → ℕ
    walk_fuel chain = suc (suc chain.aliases.max_hops)

    -- `AddressChain::consume`: the outcome, and the chain, which an error leaves as it was.
    unfoldable pub consume :
        AddressChain N → Response N → Option (Result DnsError AddressProgress × AddressChain N)
    unfolding walk
    consume chain response =
        if not (same_name response.question_name chain.current)
          || (not (same_kind response.question_kind chain.kind) || not response.question_in_class)
        then some (err mismatched_response, chain)
        else if not response.is_answer
        then some (err incomplete_response, chain)
        else if not response.no_error
        then some (ok no_data, chain)
        else elim (walk (walk_fuel chain) chain false response.answers) [
          | none ↦ none
          | some (err e) ↦ some (err e, chain)
          | some (ok (progress, next)) ↦ some (ok progress, next)
        ]
