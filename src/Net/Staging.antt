-- ===== src/Net/Staging.antt =====
-- crates/kakoi-net/src/dynamic.rs: the reserve of a staging and its retries. A duration is a number of
-- nanoseconds. The clock and the kernel are outside: a `StagingRound` is what one round of the loop of `stage`
-- meets, the room there is and how the staging ends.
pub mod Laws
use kakoi.Prelude.{
  ℕ, zero, suc, ◌+◌, ◌*◌, ◌-◌, ◌/◌, Bool, true, false, not, ◌||◌, Option, none, some, List, [], ◌∷◌,
  if◌then◌else◌, leb, ltb, Result, ok, err,
}
use kakoi.Net.Leases.{ActiveGrant}
use kakoi.Network.Destination.{Destination, dns, Allow}

-- `INITIAL_RESERVE`: 50 milliseconds.
abbrev pub initial_reserve : ℕ
initial_reserve = 50000000

abbrev pub generation_limit : ℕ
generation_limit = 18446744073709551616

abbrev pub least : ℕ → ℕ → ℕ
least a b = if ltb b a then b else a

unfoldable pub next_reserve : ℕ → ℕ → Option ℕ
next_reserve late room = if ltb late room then some (least (late * 2) room) else none

pub data StageError : Type 0 where
  needs_reconciliation invalid_rule expired_grant generation_exhausted reserve_exceeded : StageError
  staging_fault discard_fault : StageError

-- How the kernel's part of a round ends.
pub data Staging : Type 0 where
  staged late fault : Staging

-- What one round of the loop meets: the clock when it starts, how its staging ends, whether a late one is
-- discarded, and the clock after that.
pub record StagingRound : Type 0 where
  pub started : ℕ
  pub ended : Staging
  pub discarded : Bool
  pub after : ℕ

abbrev is_dns : Destination → Bool
is_dns (dns pattern) = true
is_dns _ = false

-- `rules.get(index)` is there and names a DNS destination.
abbrev pub dns_rule : List Allow → ℕ → Bool
dns_rule [] index = false
dns_rule (rule ∷ rules) zero = is_dns rule.destination
dns_rule (rule ∷ rules) (suc index) = dns_rule rules index

-- The loop of `room` over the grants.
unfoldable pub check_grants : List Allow → List ActiveGrant → ℕ → Result StageError (Unit {0})
check_grants rules [] now = ok tt
check_grants rules (grant ∷ grants) now =
    let rest = check_grants rules grants now in
    if not (dns_rule rules grant.rule)
    then err invalid_rule
    else if leb grant.deadline now
    then err expired_grant
    else rest

-- `min` over half of the time left to each grant.
abbrev least_half : ActiveGrant → List ActiveGrant → ℕ → ℕ
least_half grant [] now = (grant.deadline - now) / 2
least_half grant (other ∷ more) now = least ((grant.deadline - now) / 2) (least_half other more now)

abbrev room_of : List ActiveGrant → ℕ → ℕ
room_of [] now = initial_reserve
room_of (grant ∷ grants) now = least_half grant grants now

-- `DynamicPermissions::room`
unfoldable pub room : List Allow → List ActiveGrant → ℕ → Result StageError ℕ
unfolding check_grants
room rules grants now = elim (check_grants rules grants now) [
  | err e ↦ err e
  | ok _ ↦ ok (room_of grants now)
]

-- How a call of `stage` ends: the reserve that it needed or the error, the generation, and whether the
-- owner needs reconciliation.
pub record StageEnd : Type 0 where
  pub outcome : Result StageError ℕ
  pub generation : ℕ
  pub failed : Bool

abbrev stage_end : Result StageError ℕ → ℕ → Bool → StageEnd
stage_end outcome generation failed = record {
  outcome = outcome;
  generation = generation;
  failed = failed;
}

-- `unwrap_or_default`
abbrev pub or_default : Result StageError ℕ → ℕ
or_default (ok n) = n
or_default (err e) = 0

-- The loop of `stage` over the rounds that happen; `none` while it goes on.
unfoldable pub stage_loop :
    List Allow → List ActiveGrant → ℕ → ℕ → List StagingRound → Option StageEnd
unfolding room next_reserve
stage_loop rules grants cap generation [] = none
stage_loop rules grants cap generation (attempt ∷ attempts) =
    elim (room rules grants attempt.started) [
      | err e ↦ some (stage_end (err e) generation false)
      | ok space ↦
          if leb generation_limit (generation + 1)
          then some (stage_end (err generation_exhausted) generation false)
          else elim attempt.ended [
            | staged ↦ some (stage_end (ok (least space cap)) (generation + 1) false)
            | fault ↦ some (stage_end (err staging_fault) (generation + 1) true)
            | late ↦
                if not attempt.discarded
                then some (stage_end (err discard_fault) (generation + 1) true)
                else elim (next_reserve (least space cap)
                    (or_default (room rules grants attempt.after))) [
                      | none ↦ some (stage_end (err reserve_exceeded) (generation + 1) false)
                      | some longer ↦ stage_loop rules grants longer (generation + 1) attempts
                    ]
          ]
    ]

-- `DynamicPermissions::stage`
unfoldable pub stage :
    Bool → List Allow → List ActiveGrant → ℕ → List StagingRound → Option StageEnd
unfolding stage_loop
stage failed rules grants generation attempts =
    if failed
    then some (stage_end (err needs_reconciliation) generation true)
    else stage_loop rules grants initial_reserve generation attempts
