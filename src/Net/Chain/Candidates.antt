-- ===== src/Net/Chain/Candidates.antt =====
-- crates/kakoi-net/src/dns/chain.rs: an address comes from a record of the answer and does not outlive it.
use kakoi.Prelude.{
  ℕ, zero, suc, ◌≤◌, Bool, true, false, not, ◌||◌, Option, none, some, List, [], ◌∷◌, map,
  select-In, filter_map, filter_map-In, Result, ok, err, ok_same, Result-cases, ◌≡◌, refl, sym,
  subst, inl, inr, arith, Bool-cases, Option-cases, All, All-of, All-map, All-In, In, map-In,
  In-map,
}
use kakoi.Policy.{Text}
use kakoi.Net.Leases.{IpAddr, record_deadline}
use kakoi.Net.Resolution.{permission_deadline, earlier}
use kakoi.Net.Resolution.Laws.{earliest-le}
use kakoi.Net.Chain.{
  RecordType, a_type, aaaa_type, other_type, RData, cname, ipv4_data, ipv6_data, signature,
  other_data, DnsRecord, DnsError, AddressCandidate, AddressProgress, complete, follow_on, no_data,
  AddressChain, Response, same_kind, alias_of, address_of, earliest_from, records_of, finish,
  follow_aliases, walk, walk_fuel, consume,
}
use kakoi.Net.Chain.Laws.{List-cases, follow_aliases-Longer}

address_of-ttl :
    {N : Type 0} (kind : RecordType) (rdata : RData N) (ttl : ℕ) {address : IpAddr} {other : ℕ}
    → address_of kind rdata ttl ≡ some (address, other)
    → other ≡ ttl
address_of-ttl a_type (ipv4_data x) ttl h = cc h
address_of-ttl aaaa_type (ipv6_data x) ttl h = cc h
address_of-ttl a_type (cname x) ttl h = absurd (cc h)
address_of-ttl a_type (ipv6_data x) ttl h = absurd (cc h)
address_of-ttl a_type signature ttl h = absurd (cc h)
address_of-ttl a_type other_data ttl h = absurd (cc h)
address_of-ttl aaaa_type (cname x) ttl h = absurd (cc h)
address_of-ttl aaaa_type (ipv4_data x) ttl h = absurd (cc h)
address_of-ttl aaaa_type signature ttl h = absurd (cc h)
address_of-ttl aaaa_type other_data ttl h = absurd (cc h)
address_of-ttl other_type rdata ttl h = absurd (cc h)

-- The record with this time to live lasts at least to `deadline`.
abbrev Lasts : ℕ → ℕ → ℕ → ℕ → ℕ → Type 0
Lasts last_instant received zero_grace deadline ttl =
    (end : ℕ) × (record_deadline last_instant received ttl zero_grace ≡ some end) × (deadline ≤ end)

-- A candidate that stands on a record of the answer, of the kind asked for.
abbrev pub Backed :
    {N : Type 0} → ℕ → ℕ → ℕ → RecordType → List (DnsRecord N) → AddressCandidate → Type 0
Backed {N} last_instant received zero_grace kind answers c =
    (r : DnsRecord N) × In r answers
    × (address_of kind r.rdata r.ttl ≡ some (c.address, r.ttl))
    × Lasts last_instant received zero_grace c.deadline r.ttl

abbrev pub candidates_of : AddressProgress → List AddressCandidate
candidates_of (complete cs) = cs
candidates_of (follow_on name) = []
candidates_of no_data = []

module _ {N : Type 0} (from_ascii : Text → Option N) (to_ascii : N → Text)
    (same_name : N → N → Bool) (last_instant received zero_grace : ℕ) where
  abbrev from_times : Option ℕ → List ℕ → Result DnsError (Option ℕ)
  from_times = earliest_from from_ascii to_ascii same_name last_instant received zero_grace

  abbrev NotLater : Option ℕ → ℕ → Type 0
  NotLater none e = Unit
  NotLater (some old) e = e ≤ old

  earliest_from-Lasts :
      (o : Option ℕ) (ttls : List ℕ) {e : ℕ}
      → from_times o ttls ≡ ok (some e)
      → NotLater o e × All (Lasts last_instant received zero_grace e) ttls
  unfolding earliest_from
  earliest_from-Lasts none [] h = (tt, tt)
  earliest_from-Lasts (some old) [] {e} h =
      let same : old ≡ e = some_ok h in (omega (arith, same), tt)
    where
      some_ok : ◌≡◌ {A = Result DnsError (Option ℕ)} (ok (some old)) (ok (some e)) → old ≡ e
      some_ok p = cc
  earliest_from-Lasts none (ttl ∷ ttls) {e} h =
      elim (Option-cases (record_deadline last_instant received ttl zero_grace)) [
        | inl over ↦ absurd (cc (rw (over, earliest_from) at h))
        | inr (next, timed) ↦
            let (le, rest) =
              earliest_from-Lasts (some next) ttls (rw (timed, earliest_from) at h) in
            (tt, ((next, timed, le), rest))
      ]
  earliest_from-Lasts (some old) (ttl ∷ ttls) {e} h =
      elim (Option-cases (record_deadline last_instant received ttl zero_grace)) [
        | inl over ↦ absurd (cc (rw (over, earliest_from) at h))
        | inr (next, timed) ↦
            let (le, rest) =
              earliest_from-Lasts (some (earlier old next)) ttls (rw (timed, earliest_from) at h) in
            (ground (arith, le), ((next, timed, ground (arith, le)), rest))
      ]

  abbrev finished : AddressChain N → Bool → List (IpAddr × ℕ) → Result DnsError AddressProgress
  finished = finish from_ascii to_ascii same_name last_instant received zero_grace

  -- A candidate that stands on one of the addresses found.
  abbrev Of : List (IpAddr × ℕ) → AddressCandidate → Type 0
  Of addresses c =
      (ttl : ℕ) × In (c.address, ttl) addresses
      × Lasts last_instant received zero_grace c.deadline ttl

  abbrev cut : AddressChain N → ℕ → IpAddr × ℕ → AddressCandidate
  cut chain earliest x = record {
    address = x.0;
    deadline = permission_deadline chain.aliases earliest;
  }

  cut-Of :
      (chain : AddressChain N) (addresses : List (IpAddr × ℕ)) (e : ℕ)
      → All (Lasts last_instant received zero_grace e) (map (λ x. x.1) addresses)
      → All (Of addresses) (map (cut chain e) addresses)
  unfolding permission_deadline
  cut-Of chain addresses e h = All-of (Of addresses) (map (cut chain e) addresses) (λ c m.
      let (x, i, same) = map-In (cut chain e) addresses m in
      let (end, timed, le) =
        All-In (Lasts last_instant received zero_grace e) (map (λ x. x.1) addresses) h
          (In-map (λ x. x.1) addresses i) in
      let below = earliest-le chain.aliases.deadline e in
      subst (Of addresses) (sym same) (x.1, i, (end, timed, omega (arith, le, below))))

  -- The candidates at the end of the walk.
  finish-Of :
      (chain : AddressChain N) (followed : Bool) (addresses : List (IpAddr × ℕ))
      {progress : AddressProgress}
      → finished chain followed addresses ≡ ok progress
      → All (Of addresses) (candidates_of progress)
  unfolding finish
  finish-Of chain followed addresses {progress} h =
      elim (Result-cases (from_times none (map (λ x. x.1) addresses))) [
        | inl (e, over) ↦ absurd (cc (rw (over, finish) at h))
        | inr (found, timed) ↦ ended found timed
      ]
    where
      ended :
          (found : Option ℕ)
          → from_times none (map (λ x. x.1) addresses) ≡ ok found
          → All (Of addresses) (candidates_of progress)
      ended none timed = elim (Bool-cases followed) [
        | inl on ↦
            subst (λ z. All (Of addresses) (candidates_of z))
              (ok_same (rw (timed, on, finish) at h)) tt
        | inr off ↦
            subst (λ z. All (Of addresses) (candidates_of z))
              (ok_same (rw (timed, off, finish) at h)) tt
      ]
      ended (some e) timed =
          subst (λ z. All (Of addresses) (candidates_of z)) (ok_same (rw (timed, finish) at h))
            (cut-Of chain addresses e (earliest_from-Lasts none (map (λ x. x.1) addresses) timed).1)

  abbrev walked :
      ℕ
      → AddressChain N
      → Bool
      → List (DnsRecord N)
      → Option (Result DnsError (AddressProgress × AddressChain N))
  walked = walk from_ascii to_ascii same_name last_instant received zero_grace

  -- A candidate of the records of one name stands on a record of the answer.
  Of-Backed :
      (chain : AddressChain N) (answers : List (DnsRecord N)) (c : AddressCandidate)
      → Of
          (filter_map
            (λ r. address_of chain.kind r.rdata r.ttl)
            (records_of from_ascii to_ascii same_name last_instant received zero_grace chain.current
              answers))
          c
      → Backed last_instant received zero_grace chain.kind answers c
  Of-Backed chain answers c (ttl, m, lasts) =
      let (r, i, same) =
        filter_map-In (λ (r : DnsRecord N). address_of chain.kind r.rdata r.ttl) _ m in
      let (inside, matches) = select-In _ answers i in
      let time = address_of-ttl chain.kind r.rdata r.ttl same in
      (
        r,
        inside,
        subst (λ z. address_of chain.kind r.rdata r.ttl ≡ some (c.address, z)) time same,
        subst (Lasts last_instant received zero_grace c.deadline) time lasts,
      )

  walk-Backed :
      (fuel : ℕ) (chain : AddressChain N) (followed : Bool) (answers : List (DnsRecord N))
      {progress : AddressProgress} {next : AddressChain N}
      → walked fuel chain followed answers ≡ some (ok (progress, next))
      → All (Backed last_instant received zero_grace chain.kind answers) (candidates_of progress)
  unfolding walk
  walk-Backed zero chain followed answers h = absurd (cc h)
  walk-Backed (suc fuel) chain followed answers {progress} {next} h =
      let records =
        records_of from_ascii to_ascii same_name last_instant received zero_grace chain.current
          answers in
      let aliases = filter_map (λ r. alias_of r.rdata r.ttl) records in
      let addresses = filter_map (λ r. address_of chain.kind r.rdata r.ttl) records in
      elim (List-cases aliases) [
        | inl none_left ↦ elim (Result-cases (finished chain followed addresses)) [
          | inl (e, bad) ↦ absurd (cc (rw (none_left, bad, walk) at h))
          | inr (made, good) ↦
              let same : made ≡ progress = same_progress (rw (none_left, good, walk) at h) in
              All-map (candidates_of progress) (λ c o. Of-Backed chain answers c o)
                (subst (λ z. All (Of addresses) (candidates_of z)) same
                  (finish-Of chain followed addresses good))
        ]
        | inr ((target, ttl), more, found) ↦
            elim (Result-cases (
              follow_aliases from_ascii to_ascii same_name last_instant received zero_grace chain
                target ((target, ttl) ∷ more) records)) [
                  | inl (e, bad) ↦ absurd (cc (rw (found, bad, walk) at h))
                  | inr (after, good) ↦
                      let l =
                        follow_aliases-Longer from_ascii to_ascii same_name last_instant received
                          zero_grace chain target ((target, ttl) ∷ more) records good in
                      subst
                        (λ k.
                          All (Backed last_instant received zero_grace k answers)
                            (candidates_of progress))
                        l.same_kind
                        (walk-Backed fuel after true answers (rw (found, good, walk) at h))
                ]
      ]
    where
      same_progress :
          {p q : AddressProgress} {c d : AddressChain N}
          → ◌≡◌ {A = Option (Result DnsError (AddressProgress × AddressChain N))}
              (some (ok (p, c)))
              (some (ok (q, d)))
          → p ≡ q
      same_progress e = cc

-- Every address that the reading of an answer gives comes from a record of that answer, of the type
-- that was asked for, and its deadline is no later than the end of that record's time to live.
pub consume-Backed :
    {N : Type 0} (from_ascii : Text → Option N) (to_ascii : N → Text) (same_name : N → N → Bool)
    (last_instant received zero_grace : ℕ) (chain : AddressChain N) (response : Response N)
    {progress : AddressProgress} {next : AddressChain N}
    → consume from_ascii to_ascii same_name last_instant received zero_grace chain response
      ≡ some (ok progress, next)
    → All
        (Backed last_instant received zero_grace chain.kind response.answers)
        (candidates_of progress)
unfolding consume
consume-Backed {N} from_ascii to_ascii same_name last_instant received zero_grace chain response
      {progress} {next} h =
    let other =
      not (same_name response.question_name chain.current)
      || (not (same_kind response.question_kind chain.kind) || not response.question_in_class) in
    elim (Bool-cases other) [
      | inl x ↦ absurd (cc (rw (x, consume) at h))
      | inr same ↦ elim (Bool-cases (not response.is_answer)) [
        | inl x ↦ absurd (cc (rw (same, x, consume) at h))
        | inr answer ↦ elim (Bool-cases (not response.no_error)) [
          | inl x ↦
              subst (λ z. Given (candidates_of z))
                (progress_of (rw (same, answer, x, consume) at h)) tt
          | inr fine ↦
              ended
                (run
                  (walk_fuel from_ascii to_ascii same_name last_instant received zero_grace chain))
                refl same answer fine
        ]
      ]
    ]
  where
    Given : List AddressCandidate → Type 0
    Given cs = All (Backed last_instant received zero_grace chain.kind response.answers) cs

    run : ℕ → Option (Result DnsError (AddressProgress × AddressChain N))
    run fuel =
        walk from_ascii to_ascii same_name last_instant received zero_grace fuel chain false
          response.answers

    progress_of :
        {p q : AddressProgress} {c d : AddressChain N}
        → ◌≡◌ {A = Option (Result DnsError AddressProgress × AddressChain N)}
            (some (ok p, c))
            (some (ok q, d))
        → p ≡ q
    progress_of e = cc

    ended :
        (r : Option (Result DnsError (AddressProgress × AddressChain N)))
        → run (walk_fuel from_ascii to_ascii same_name last_instant received zero_grace chain) ≡ r
        → (not (same_name response.question_name chain.current)
            || (not (same_kind response.question_kind chain.kind)
                || not response.question_in_class))
          ≡ false
        → not response.is_answer ≡ false
        → not response.no_error ≡ false
        → Given (candidates_of progress)
    ended none w same answer fine = absurd (cc (rw (same, answer, fine, w, consume) at h))
    ended (some (err e)) w same answer fine = absurd (cc (rw (same, answer, fine, w, consume) at h))
    ended (some (ok (made, after))) w same answer fine =
        subst (λ z. Given (candidates_of z))
          (progress_of (rw (same, answer, fine, w, consume) at h))
          (walk-Backed from_ascii to_ascii same_name last_instant received zero_grace
            (walk_fuel from_ascii to_ascii same_name last_instant received zero_grace chain) chain
            false response.answers w)
