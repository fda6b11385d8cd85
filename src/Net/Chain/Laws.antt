-- ===== src/Net/Chain/Laws.antt =====
-- crates/kakoi-net/src/dns/chain.rs: the walk along the aliases ends, and no address outlives its record.
use kakoi.Prelude.{
  ℕ, zero, suc, ◌+◌, ◌≤◌, ◌<◌, Bool, true, false, not, ◌||◌, Option, none, some, List, [], ◌∷◌, map,
  any, filter_map, length, length-append, Result, ok, err, ok_same, Result-cases, ◌≡◌, ◌≢◌, refl,
  sym, ◌∙◌, ap, subst, inl, inr, ◌⊎◌, arith, Bool-cases,
}
use kakoi.Policy.{Text}
use kakoi.Net.Resolution.{CnameChain, follow}
use kakoi.Net.Resolution.Laws.{follow-Followed}
use kakoi.Net.Chain.{
  DnsRecord, DnsError, AddressProgress, AddressChain, Response, same_kind, alias_of, address_of,
  earliest_from, records_of, finish, follow_aliases, walk, walk_fuel, consume, beside_alias,
}

pub List-cases {ℓ} :
    {A : Type ℓ} (xs : List A) → (xs ≡ []) ⊎ ((x : A) × (rest : List A) × (xs ≡ x ∷ rest))
List-cases [] = inl refl
List-cases (x ∷ rest) = inr (x, rest, refl)

-- What a followed alias changes.
pub record Longer {N : Type 0} (chain next : AddressChain N) : Type 0 where
  pub short : length chain.aliases.names ≤ chain.aliases.max_hops
  pub longer : length next.aliases.names ≡ suc (length chain.aliases.names)
  pub same_hops : next.aliases.max_hops ≡ chain.aliases.max_hops
  pub same_kind : next.kind ≡ chain.kind

module _ {N : Type 0} (from_ascii : Text → Option N) (to_ascii : N → Text)
    (same_name : N → N → Bool) (last_instant received zero_grace : ℕ) where
  abbrev earliest_of : List ℕ → Result DnsError (Option ℕ)
  earliest_of ttls =
      earliest_from from_ascii to_ascii same_name last_instant received zero_grace none ttls

  abbrev followed_by :
      AddressChain N → N → List (N × ℕ) → List (DnsRecord N) → Result DnsError (AddressChain N)
  followed_by = follow_aliases from_ascii to_ascii same_name last_instant received zero_grace

  abbrev pub walked :
      ℕ
      → AddressChain N
      → Bool
      → List (DnsRecord N)
      → Option (Result DnsError (AddressProgress × AddressChain N))
  walked = walk from_ascii to_ascii same_name last_instant received zero_grace

  followed-Longer :
      (chain : AddressChain N) (target : N) (deadline : ℕ) {aliases : CnameChain N}
      → follow from_ascii same_name chain.aliases (to_ascii target) deadline ≡ ok aliases
      → Longer chain (record chain { current = target; aliases = aliases })
  followed-Longer chain target deadline h =
      let f = follow-Followed from_ascii same_name chain.aliases (to_ascii target) deadline h in
      let n = length-append chain.aliases.names (f.name ∷ []) in
      record {
        short = f.short;
        longer = ap (λ (z : CnameChain N). length z.names) (sym f.same) ∙ omega (arith, n);
        same_hops = ap (λ (z : CnameChain N). z.max_hops) (sym f.same);
        same_kind = refl;
      }

  -- An alias that is followed adds one name to a chain that was not full.
  pub follow_aliases-Longer :
      (chain : AddressChain N) (target : N) (aliases : List (N × ℕ)) (records : List (DnsRecord N))
      {next : AddressChain N}
      → followed_by chain target aliases records ≡ ok next
      → Longer chain next
  unfolding follow_aliases
  follow_aliases-Longer chain target aliases records {next} h =
      let conflict =
        any (λ x. not (same_name x.0 target)) aliases
        || any (λ r. not (beside_alias r.rdata)) records in
      elim (Bool-cases conflict) [
        | inl bad ↦ absurd (cc (rw (bad, follow_aliases) at h))
        | inr fine ↦ elim (Result-cases (earliest_of (map (λ x. x.1) aliases))) [
          | inl (e, over) ↦ absurd (cc (rw (fine, over, follow_aliases) at h))
          | inr (found, timed) ↦ dated found fine timed
        ]
      ]
    where
      dated :
          (found : Option ℕ)
          → (any (λ x. not (same_name x.0 target)) aliases
              || any (λ r. not (beside_alias r.rdata)) records)
            ≡ false
          → earliest_of (map (λ x. x.1) aliases) ≡ ok found
          → Longer chain next
      dated none fine timed = absurd (cc (rw (fine, timed, follow_aliases) at h))
      dated (some deadline) fine timed =
          elim (Result-cases
            (follow from_ascii same_name chain.aliases (to_ascii target) deadline)) [
              | inl (e, bad) ↦ absurd (cc (rw (fine, timed, bad, follow_aliases) at h))
              | inr (longer, good) ↦
                  subst (Longer chain) (ok_same (rw (fine, timed, good, follow_aliases) at h))
                    (followed-Longer chain target deadline good)
            ]

  -- The walk ends when the fuel covers the names that the chain may still take.
  walk-ends :
      (fuel : ℕ) (chain : AddressChain N) (followed : Bool) (answers : List (DnsRecord N))
      → 0 < fuel
      → suc chain.aliases.max_hops < fuel + length chain.aliases.names
      → walked fuel chain followed answers ≢ none
  unfolding walk
  walk-ends zero chain followed answers p f h = absurd (omega (arith, p))
  walk-ends (suc fuel) chain followed answers p f h =
      let records =
        records_of from_ascii to_ascii same_name last_instant received zero_grace chain.current
          answers in
      let aliases = filter_map (λ r. alias_of r.rdata r.ttl) records in
      let addresses = filter_map (λ r. address_of chain.kind r.rdata r.ttl) records in
      elim (List-cases aliases) [
        | inl none_left ↦
            elim (Result-cases (
              finish from_ascii to_ascii same_name last_instant received zero_grace chain followed
                addresses)) [
                  | inl (e, bad) ↦ cc (rw (none_left, bad, walk) at h)
                  | inr (progress, good) ↦ cc (rw (none_left, good, walk) at h)
                ]
        | inr ((target, ttl), more, found) ↦
            elim (Result-cases (followed_by chain target ((target, ttl) ∷ more) records)) [
              | inl (e, bad) ↦ cc (rw (found, bad, walk) at h)
              | inr (next, good) ↦
                  let l = follow_aliases-Longer chain target ((target, ttl) ∷ more) records good in
                  let s = l.short in
                  let n = l.longer in
                  let m = l.same_hops in
                  walk-ends fuel next true answers (omega (arith, f, s)) (omega (arith, f, s, n, m))
                    (rw (found, good, walk) at h)
            ]
      ]

  -- The reading of an answer always ends: the fuel given to it is enough for any answer.
  pub consume-ends :
      (chain : AddressChain N) (response : Response N)
      → consume from_ascii to_ascii same_name last_instant received zero_grace chain response ≢ none
  unfolding consume
  consume-ends chain response h =
      let other =
        not (same_name response.question_name chain.current)
        || (not (same_kind response.question_kind chain.kind) || not response.question_in_class) in
      elim (Bool-cases other) [
        | inl x ↦ cc (rw (x, consume) at h)
        | inr same ↦ elim (Bool-cases (not response.is_answer)) [
          | inl x ↦ cc (rw (same, x, consume) at h)
          | inr answer ↦ elim (Bool-cases (not response.no_error)) [
            | inl x ↦ cc (rw (same, answer, x, consume) at h)
            | inr fine ↦
                ended
                  (walked
                    (walk_fuel from_ascii to_ascii same_name last_instant received zero_grace chain)
                    chain false response.answers)
                  refl same answer fine
          ]
        ]
      ]
    where
      ended :
          (r : Option (Result DnsError (AddressProgress × AddressChain N)))
          → walked
              (walk_fuel from_ascii to_ascii same_name last_instant received zero_grace chain)
              chain
              false
              response.answers
            ≡ r
          → (not (same_name response.question_name chain.current)
              || (not (same_kind response.question_kind chain.kind)
                  || not response.question_in_class))
            ≡ false
          → not response.is_answer ≡ false
          → not response.no_error ≡ false
          → ⊥
      ended none w same answer fine =
          walk-ends (walk_fuel from_ascii to_ascii same_name last_instant received zero_grace chain)
            chain false response.answers (omega arith) (omega arith) w
      ended (some (err e)) w same answer fine = cc (rw (same, answer, fine, w, consume) at h)
      ended (some (ok (progress, next))) w same answer fine =
          cc (rw (same, answer, fine, w, consume) at h)
