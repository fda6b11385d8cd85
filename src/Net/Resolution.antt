-- ===== src/Net/Resolution.antt =====
-- crates/kakoi-net/src/resolution.rs: the work limits of one resolution. An instant is a number of
-- nanoseconds up to `last_instant`. A name is a type of the hickory crate: `from_ascii` reads one
-- (`none` for its error) and `same_name` is `eq_ignore_root`. The count that the clones of an allowance
-- share is passed along; a `fetch_update` is one step on it.
pub mod Laws
use kakoi.Prelude.{
  ℕ, zero, suc, ◌+◌, ◌*◌, Bool, true, false, Option, none, some, List, [], ◌∷◌, ◌++◌, any, length,
  if◌then◌else◌, leb, ltb, Result, ok, err,
}
use kakoi.Policy.{Text}
use kakoi.Net.Leases.{seconds}
use kakoi.Network.Limits.{NetworkLimits}

pub data CnameError : Type 0 where
  invalid_name cycle hops : CnameError

pub record CnameChain (N : Type 0) : Type 0 where
  pub names : List N
  pub max_hops : ℕ
  pub deadline : Option ℕ

abbrev pub earlier : ℕ → ℕ → ℕ
earlier a b = if ltb b a then b else a

-- `map_or(deadline, |old| old.min(deadline))`
abbrev pub earliest : Option ℕ → ℕ → ℕ
earliest none deadline = deadline
earliest (some old) deadline = earlier old deadline

module _ {N : Type 0} (from_ascii : Text → Option N) (same_name : N → N → Bool) where
  -- `CnameChain::new`
  unfoldable pub new_chain : Text → ℕ → Result CnameError (CnameChain N)
  new_chain original max_hops = elim (from_ascii original) [
    | none ↦ err invalid_name
    | some name ↦ ok (record { names = name ∷ []; max_hops = max_hops; deadline = none })
  ]

  -- `CnameChain::follow`
  unfoldable pub follow : CnameChain N → Text → ℕ → Result CnameError (CnameChain N)
  follow chain target deadline = elim (from_ascii target) [
    | none ↦ err invalid_name
    | some name ↦
        if any (λ seen. same_name seen name) chain.names
        then err cycle
        else if ltb chain.max_hops (length chain.names)
        then err hops
        else ok (record {
          names = chain.names ++ (name ∷ []);
          max_hops = chain.max_hops;
          deadline = some (earliest chain.deadline deadline);
        })
  ]

-- `CnameChain::permission_deadline`
unfoldable pub permission_deadline : {N : Type 0} → CnameChain N → ℕ → ℕ
permission_deadline chain address_deadline = earliest chain.deadline address_deadline

pub data ResolutionLimit : Type 0 where
  deadline_passed out_of_queries : ResolutionLimit

pub data UpstreamWait : Type 0 where
  per_candidate whole_resolution : UpstreamWait

-- What is not shared of a `ResolutionBudget`.
pub record ResolutionBudget : Type 0 where
  pub deadline : ℕ
  pub server_timeout : ℕ

-- `QueryAllowance::new`
abbrev new_allowance : NetworkLimits → ℕ
new_allowance limits = limits.dns_max_upstream_queries

-- `QueryAllowance::take`: whether a query was left, and the count behind it.
unfoldable pub take_query : ℕ → Bool × ℕ
take_query zero = (false, zero)
take_query (suc left) = (true, left)

module _ (last_instant : ℕ) where
  -- `Instant::checked_add`
  abbrev pub checked_add : ℕ → ℕ → Option ℕ
  checked_add start span = if leb (start + span) last_instant then some (start + span) else none

  -- `ResolutionBudget::sharing`
  unfoldable sharing : ℕ → NetworkLimits → Result ResolutionLimit ResolutionBudget
  sharing start limits = elim (checked_add start (seconds limits.dns_resolution_timeout_seconds)) [
    | none ↦ err deadline_passed
    | some deadline ↦
        ok (record {
          deadline = deadline;
          server_timeout = seconds limits.dns_server_timeout_seconds;
        })
  ]

  -- `ResolutionBudget::constrain_deadline`
  abbrev constrain_deadline : ResolutionBudget → ℕ → ResolutionBudget
  constrain_deadline budget deadline = record budget { deadline = earlier budget.deadline deadline }

  -- `ResolutionBudget::ensure_live`
  unfoldable pub ensure_live : ResolutionBudget → ℕ → Result ResolutionLimit (Unit {0})
  ensure_live budget now = if leb budget.deadline now then err deadline_passed else ok tt

  -- The deadline of one query.
  unfoldable pub query_deadline : ResolutionBudget → ℕ → UpstreamWait → ℕ
  query_deadline budget now whole_resolution = budget.deadline
  query_deadline budget now per_candidate = elim (checked_add now budget.server_timeout) [
    | none ↦ budget.deadline
    | some deadline ↦ earlier deadline budget.deadline
  ]

  -- `ResolutionBudget::reserve_query`, with the shared count before and after.
  unfoldable pub reserve_query :
      ResolutionBudget → ℕ → UpstreamWait → ℕ → Result ResolutionLimit ℕ × ℕ
  unfolding ensure_live query_deadline take_query
  reserve_query budget now wait left = elim (ensure_live budget now) [
    | err e ↦ (err e, left)
    | ok _ ↦
        let (taken, rest) = take_query left in
        if taken then (ok (query_deadline budget now wait), rest) else (err out_of_queries, rest)
  ]
