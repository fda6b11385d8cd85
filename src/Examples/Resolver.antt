-- ===== src/Examples/Resolver.antt =====
-- The theorems on the work of one resolution and on stagings, at small inputs.
use kakoi.Prelude.{
  ℕ, ◌+◌, true, false, Option, none, some, List, [], ◌∷◌, ok, err, ◌≡◌, ◌≢◌, refl, All, eqb, select,
  filter_map, any,
}
use kakoi.Policy.{Text, codes}
use kakoi.Net.Leases.{v4, ActiveGrant, record_deadline}
use kakoi.Net.Resolution.{
  ResolutionBudget, whole_resolution, per_candidate, reserve_query, take_query, ensure_live,
  query_deadline, out_of_queries, follow, permission_deadline,
}
use kakoi.Net.Resolution.Laws.{Reservations, no_more, granted, refused, Reservations-count}
use kakoi.Net.Chain.{
  a_type, cname, ipv4_data, DnsRecord, AddressChain, AddressProgress, complete, Response, consume,
  walk, follow_aliases, finish, earliest_from,
}
use kakoi.Net.Chain.Laws.{consume-ends}
use kakoi.Net.Chain.Candidates.{Backed, candidates_of, consume-Backed}
use kakoi.Network.Destination.{Allow, dns}
use kakoi.Network.{tcp}
use kakoi.Net.Staging.{StagingRound, late}

abbrev budget : ResolutionBudget
budget = record { deadline = 100; server_timeout = 10 }

first : reserve_query 1000 budget 5 per_candidate 1 ≡ (ok 15, 0)
unfolding reserve_query take_query ensure_live query_deadline
first = refl

second : reserve_query 1000 budget 6 whole_resolution 0 ≡ (err out_of_queries, 0)
unfolding reserve_query take_query ensure_live query_deadline
second = refl

turns : Reservations 1000 1 1 0
turns =
    granted budget 5 15 per_candidate first
      (refused budget 6 whole_resolution out_of_queries second no_more)

Reservations-count_example : 1 + 0 ≡ 1
Reservations-count_example = Reservations-count 1000 turns

-- Names as numbers, written as one byte.
abbrev read_name : Text → Option ℕ
read_name [] = none
read_name (b ∷ text) = some b

abbrev show_name : ℕ → Text
show_name n = n ∷ []

-- The name 1 is an alias of 2, which has an address.
abbrev alias : DnsRecord ℕ
alias = record { name = 1; in_class = true; ttl = 60; rdata = cname 2 }

abbrev address : DnsRecord ℕ
address = record { name = 2; in_class = true; ttl = 30; rdata = ipv4_data 7 }

abbrev chain : AddressChain ℕ
chain = record {
  current = 1;
  kind = a_type;
  aliases = record { names = 1 ∷ []; max_hops = 4; deadline = none };
}

abbrev walked_chain : AddressChain ℕ
walked_chain = record {
  current = 2;
  kind = a_type;
  aliases = record { names = 1 ∷ 2 ∷ []; max_hops = 4; deadline = some 60000000000 };
}

abbrev response : Response ℕ
response = record {
  question_name = 1;
  question_kind = a_type;
  question_in_class = true;
  is_answer = true;
  no_error = true;
  answers = alias ∷ address ∷ [];
}

abbrev answer : AddressProgress
answer = complete (record { address = v4 7; deadline = 30000000000 } ∷ [])

consume-ends_example : consume read_name show_name eqb 1000000000000 0 1 chain response ≢ none
consume-ends_example = consume-ends read_name show_name eqb 1000000000000 0 1 chain response

read_answer :
    consume read_name show_name eqb 1000000000000 0 1 chain response
    ≡ some (ok answer, walked_chain)
unfolding consume walk follow_aliases finish earliest_from follow permission_deadline
    record_deadline select filter_map any
read_answer = refl

consume-Backed_example :
    All (Backed 1000000000000 0 1 a_type (alias ∷ address ∷ [])) (candidates_of answer)
consume-Backed_example =
    consume-Backed read_name show_name eqb 1000000000000 0 1 chain response read_answer

abbrev rules : List Allow
rules =
    record {
      destination = dns (record { ascii = codes "a"; descendants = false });
      protocol = tcp;
      ports = (443, 443) ∷ [];
    }
    ∷ []

-- 120 milliseconds are left: the first round reserves 50, the second one what is left by then.
abbrev grant : ActiveGrant
grant = record { rule = 0; address = v4 7; deadline = 120000000 }

abbrev rounds : List StagingRound
rounds =
    record { started = 0; ended = late; discarded = true; after = 1000000 }
    ∷ record { started = 1000000; ended = late; discarded = true; after = 1000000 }
    ∷ []
