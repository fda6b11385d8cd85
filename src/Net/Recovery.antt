-- ===== src/Net/Recovery.antt =====
-- crates/kakoi-net/src/recovery.rs. An instant is a number of nanoseconds, `last_instant` the last one that
-- the platform's clock can hold. `none` is a panic: the `expect` on the generation, an index past the table
-- of delays, or an instant past the last one.
pub mod Invariant
pub mod History
pub mod Laws
use kakoi.Prelude.{
  ℕ, zero, suc, ◌+◌, ◌*◌, ◌^◌, Bool, true, false, not, ◌&&◌, Option, none, some, List, [], ◌∷◌,
  if◌then◌else◌, eqb, ltb, leb, Result, ok, err,
}

pub record Attempt : Type 0 where
  pub generation : ℕ
  pub deadline : ℕ

unfoldable pub attempt_beq : Attempt → Attempt → Bool
attempt_beq a b = eqb a.generation b.generation && eqb a.deadline b.deadline

pub data RecoveryAction : Type 0 where
  wait : RecoveryAction
  start : Attempt → RecoveryAction
  cancel : Attempt → RecoveryAction

pub data State : Type 0 where
  healthy : State
  waiting : ℕ → State
  working : Attempt → Bool → State

pub record Recovery : Type 0 where
  pub timeout : ℕ
  pub state : State
  pub failures : ℕ
  pub generation : ℕ

pub data Refusal : Type 0 where
  not_running stale : Refusal

-- crates/kakoi-policy/src/network/limits.rs
abbrev pub max_recovery_attempt_timeout_seconds : ℕ
max_recovery_attempt_timeout_seconds = 300

abbrev pub seconds : ℕ → ℕ
seconds n = n * 1000000000

-- `Recovery::new`
unfoldable pub new : ℕ → Option Recovery
new timeout_seconds =
    if not (leb 1 timeout_seconds && leb timeout_seconds max_recovery_attempt_timeout_seconds)
    then none
    else some (record {
      timeout = seconds timeout_seconds;
      state = healthy;
      failures = 0;
      generation = 0;
    })

abbrev with_state : State → Recovery → Recovery
with_state state r = record {
  timeout = r.timeout;
  state = state;
  failures = r.failures;
  generation = r.generation;
}

abbrev pub isolated : State → ℕ → State
isolated healthy now = waiting now
isolated (waiting at) now = waiting at
isolated (working attempt cancelled) now = working attempt cancelled

-- `Recovery::isolate`
unfoldable pub isolate : ℕ → Recovery → Recovery
isolate now r = with_state (isolated r.state now) r

-- The first arm of `poll`.
unfoldable pub begin : ℕ → ℕ → Recovery → Option (Recovery × RecoveryAction)
begin last_instant now r =
    let attempt : Attempt = record { generation = r.generation + 1; deadline = now + r.timeout } in
    if ltb (r.generation + 1) (2 ^ 64) && leb (now + r.timeout) last_instant
    then some (
      record {
        timeout = r.timeout;
        state = working attempt false;
        failures = r.failures;
        generation = r.generation + 1;
      },
      start attempt,
    )
    else none

unfoldable pub poll_state : ℕ → State → ℕ → Recovery → Option (Recovery × RecoveryAction)
poll_state last_instant healthy now r = some (r, wait)
poll_state last_instant (waiting at) now r =
    if leb at now then begin last_instant now r else some (r, wait)
poll_state last_instant (working attempt cancelled) now r =
    if leb attempt.deadline now && not cancelled
    then some (with_state (working attempt true) r, cancel attempt)
    else some (r, wait)

-- `Recovery::poll`
abbrev pub poll : ℕ → ℕ → Recovery → Option (Recovery × RecoveryAction)
poll last_instant now r = poll_state last_instant r.state now r

-- `list[index]`
abbrev pub at_index : List ℕ → ℕ → Option ℕ
at_index [] n = none
at_index (x ∷ xs) zero = some x
at_index (x ∷ xs) (suc n) = at_index xs n

abbrev pub delays : List ℕ
delays = 1 ∷ 2 ∷ 4 ∷ 8 ∷ 16 ∷ 30 ∷ []

-- A failed attempt: the next one starts after the delay of the failures so far.
unfoldable pub retry_later : ℕ → ℕ → Recovery → Option (Recovery × Result Refusal Bool)
retry_later last_instant now r = elim (at_index delays r.failures) [
  | none ↦ none
  | some delay ↦
      if leb (now + seconds delay) last_instant
      then some (
        record {
          timeout = r.timeout;
          state = waiting (now + seconds delay);
          failures = if ltb (r.failures + 1) 5 then r.failures + 1 else 5;
          generation = r.generation;
        },
        ok false,
      )
      else none
]

unfoldable pub complete_state :
    ℕ → State → Attempt → Bool → ℕ → Recovery → Option (Recovery × Result Refusal Bool)
complete_state last_instant (working attempt cancelled) completed succeeded now r =
    let success = succeeded && not cancelled && ltb now attempt.deadline in
    if not (attempt_beq attempt completed)
    then some (r, err stale)
    else if success
    then some (
      record { timeout = r.timeout; state = healthy; failures = 0; generation = r.generation },
      ok true,
    )
    else retry_later last_instant now r
complete_state last_instant _ completed succeeded now r = some (r, err not_running)

-- `Recovery::complete`
abbrev pub complete : ℕ → Attempt → Bool → ℕ → Recovery → Option (Recovery × Result Refusal Bool)
complete last_instant completed succeeded now r =
    complete_state last_instant r.state completed succeeded now r
