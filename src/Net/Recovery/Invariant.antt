-- ===== src/Net/Recovery/Invariant.antt =====
-- crates/kakoi-net/src/recovery.rs: the states that the calls reach.
use kakoi.Prelude.{
  ℕ, zero, suc, ◌+◌, ◌^◌, ◌≤◌, ◌<◌, Bool, false, not, ◌&&◌, some, if◌then◌else◌, ltb, leb, Result,
  ok, ◌≡◌, refl, ◌∙◌, true, none, ap, subst, inl, inr, arith, Bool-cases,
}
use kakoi.Net.Recovery.{
  Attempt, attempt_beq, RecoveryAction, State, healthy, waiting, working, Recovery, Refusal,
  seconds, new, isolated, isolate, begin, poll_state, poll, at_index, delays, retry_later,
  complete_state, complete, max_recovery_attempt_timeout_seconds,
}

-- A running attempt is the last one started.
abbrev Current : State → ℕ → Type 0
Current healthy generation = Unit
Current (waiting at) generation = Unit
Current (working attempt cancelled) generation = attempt.generation ≡ generation

pub record WellFormed (r : Recovery) : Type 0 where
  pub failures : r.failures ≤ 5
  pub timeout : (1 ≤ r.timeout) × (r.timeout ≤ seconds max_recovery_attempt_timeout_seconds)
  pub generation : r.generation < 2 ^ 64
  pub current : Current r.state r.generation

-- One call on a recovery that did not panic.
pub data Step (last_instant : ℕ) : Recovery → Recovery → Type 0 where
  isolate_step : {r : Recovery} (now : ℕ) → Step last_instant r (isolate now r)
  poll_step :
      {r s : Recovery} {action : RecoveryAction} (now : ℕ)
      → poll last_instant now r ≡ some (s, action)
      → Step last_instant r s
  complete_step :
      {r s : Recovery} {answer : Result Refusal Bool} (attempt : Attempt) (succeeded : Bool)
      (now : ℕ)
      → complete last_instant attempt succeeded now r ≡ some (s, answer)
      → Step last_instant r s

pub data Reachable (last_instant : ℕ) : Recovery → Type 0 where
  made :
      {r : Recovery} (timeout_seconds : ℕ) → new timeout_seconds ≡ some r → Reachable last_instant r
  stepped :
      {r s : Recovery} → Reachable last_instant r → Step last_instant r s → Reachable last_instant s

-- The delay in seconds after so many failures: the powers of two, up to half a minute.
abbrev pub expected_delay : ℕ → ℕ
expected_delay failures = if leb (2 ^ failures) 30 then 2 ^ failures else 30

delay_in_table :
    (failures : ℕ) → failures ≤ 5 → at_index delays failures ≡ some (expected_delay failures)
delay_in_table zero h = refl
delay_in_table (suc zero) h = refl
delay_in_table (suc (suc zero)) h = refl
delay_in_table (suc (suc (suc zero))) h = refl
delay_in_table (suc (suc (suc (suc zero)))) h = refl
delay_in_table (suc (suc (suc (suc (suc zero))))) h = refl
delay_in_table (suc (suc (suc (suc (suc (suc n)))))) h = absurd (omega arith)

-- What a failed attempt leaves.
abbrev pub backed_off : ℕ → Recovery → Recovery
backed_off now r = record {
  timeout = r.timeout;
  state = waiting (now + seconds (expected_delay r.failures));
  failures = if ltb (r.failures + 1) 5 then r.failures + 1 else 5;
  generation = r.generation;
}

pub retry_later-fits :
    (last_instant now : ℕ) (r : Recovery)
    → r.failures ≤ 5
    → retry_later last_instant now r ≡ (
        if leb (now + seconds (expected_delay r.failures)) last_instant
        then some (backed_off now r, ok false)
        else none)
unfolding retry_later
retry_later-fits last_instant now r h = rw (delay_in_table r.failures h, retry_later) refl

expected_delay-le : (failures : ℕ) → expected_delay failures ≤ 30
expected_delay-le failures = elim (Bool-cases (leb (2 ^ failures) 30)) [
  | inl short ↦ rw short (ground (arith, short))
  | inr long ↦ rw long (omega arith)
]

-- Half a minute of the clock is room for every delay.
pub retry_later-ok :
    (last_instant now : ℕ) (r : Recovery)
    → r.failures ≤ 5
    → now + seconds 30 ≤ last_instant
    → retry_later last_instant now r ≡ some (backed_off now r, ok false)
retry_later-ok last_instant now r h room =
    let short = expected_delay-le r.failures in
    let fits : leb (now + seconds (expected_delay r.failures)) last_instant ≡ true =
      ground (arith, short, room) in
    retry_later-fits last_instant now r h ∙ rw fits refl

pub some_left {ℓ κ} : {A : Type ℓ} {B : Type κ} {p q : A × B} → some p ≡ some q → p.0 ≡ q.0
some_left {p = p} {q = q} h = let e : p ≡ q = cc in ap (λ z. z.0) e

pub some_right {ℓ κ} : {A : Type ℓ} {B : Type κ} {p q : A × B} → some p ≡ some q → p.1 ≡ q.1
some_right {p = p} {q = q} h = let e : p ≡ q = cc in ap (λ z. z.1) e

poll-WellFormed :
    (last_instant : ℕ) (state : State) (now : ℕ) (r : Recovery) {s : Recovery}
    {action : RecoveryAction}
    → r.state ≡ state
    → WellFormed r
    → poll_state last_instant state now r ≡ some (s, action)
    → WellFormed s
unfolding poll_state begin
poll-WellFormed last_instant healthy now r e f h = subst WellFormed (some_left h) f
poll-WellFormed last_instant (waiting at) now r e f h = elim (Bool-cases (leb at now)) [
  | inr early ↦ subst WellFormed (some_left (rw early at h)) f
  | inl due ↦
      elim (Bool-cases (ltb (r.generation + 1) (2 ^ 64) && leb (now + r.timeout) last_instant)) [
        | inr over ↦ absurd (cc (rw (due, over) at h))
        | inl below ↦ subst WellFormed (some_left (rw (due, below) at h)) record {
          failures = f.failures;
          timeout = f.timeout;
          generation = ground arith;
          current = refl;
        }
      ]
]
poll-WellFormed last_instant (working attempt cancelled) now r e f h =
    elim (Bool-cases (leb attempt.deadline now && not cancelled)) [
      | inr on_time ↦ subst WellFormed (some_left (rw on_time at h)) f
      | inl late ↦ subst WellFormed (some_left (rw late at h)) record {
        failures = f.failures;
        timeout = f.timeout;
        generation = f.generation;
        current = subst (λ z. Current z r.generation) e f.current;
      }
    ]

isolate-WellFormed : (now : ℕ) (r : Recovery) → WellFormed r → WellFormed (isolate now r)
unfolding isolate
isolate-WellFormed now r f = record {
  failures = f.failures;
  timeout = f.timeout;
  generation = f.generation;
  current = isolated-Current r.state f.current;
}
  where
    isolated-Current :
        (state : State) → Current state r.generation → Current (isolated state now) r.generation
    isolated-Current healthy c = tt
    isolated-Current (waiting at) c = tt
    isolated-Current (working attempt cancelled) c = c

backed_off-WellFormed : (now : ℕ) (r : Recovery) → WellFormed r → WellFormed (backed_off now r)
backed_off-WellFormed now r f = record {
  failures = ground (arith, f.failures);
  timeout = f.timeout;
  generation = f.generation;
  current = tt;
}

complete-WellFormed :
    (last_instant : ℕ) (state : State) (completed : Attempt) (succeeded : Bool) (now : ℕ)
    (r : Recovery) {s : Recovery} {answer : Result Refusal Bool}
    → WellFormed r
    → complete_state last_instant state completed succeeded now r ≡ some (s, answer)
    → WellFormed s
unfolding complete_state
complete-WellFormed last_instant healthy completed succeeded now r f h =
    subst WellFormed (some_left h) f
complete-WellFormed last_instant (waiting at) completed succeeded now r f h =
    subst WellFormed (some_left h) f
complete-WellFormed last_instant (working attempt cancelled) completed succeeded now r f h =
    elim (Bool-cases (attempt_beq attempt completed)) [
      | inr other ↦ subst WellFormed (some_left (rw other at h)) f
      | inl same ↦ elim (Bool-cases (succeeded && not cancelled && ltb now attempt.deadline)) [
        | inl good ↦ subst WellFormed (some_left (rw (same, good) at h)) record {
          failures = omega arith;
          timeout = f.timeout;
          generation = f.generation;
          current = tt;
        }
        | inr bad ↦
            elim (Bool-cases (leb (now + seconds (expected_delay r.failures)) last_instant)) [
              | inr over ↦
                  absurd
                    (cc (rw (same, bad, retry_later-fits last_instant now r f.failures, over) at h))
              | inl fits ↦
                  subst WellFormed
                    (some_left
                      (rw (same, bad, retry_later-fits last_instant now r f.failures, fits) at h))
                    (backed_off-WellFormed now r f)
            ]
      ]
    ]

pub new-WellFormed :
    (timeout_seconds : ℕ) {r : Recovery} → new timeout_seconds ≡ some r → WellFormed r
unfolding new
new-WellFormed timeout_seconds {r} h =
    let in_range =
      leb 1 timeout_seconds && leb timeout_seconds max_recovery_attempt_timeout_seconds in
    elim (Bool-cases in_range) [
      | inr out ↦ absurd (cc (rw out at h))
      | inl inside ↦
          let made : record {
            timeout = seconds timeout_seconds;
            state = healthy;
            failures = 0;
            generation = 0;
          }
              ≡ r =
            cc (rw inside at h) in
          subst WellFormed made record {
            failures = omega arith;
            timeout = (ground arith, ground arith);
            generation = omega arith;
            current = tt;
          }
    ]

-- In every state that the calls reach from `new` there have been at most five failures in a row that
-- count, the timeout is between one nanosecond and five minutes, the generation is a `u64`, and the
-- attempt that runs is the last one started.
pub Reachable-WellFormed :
    {last_instant : ℕ} {r : Recovery} → Reachable last_instant r → WellFormed r
Reachable-WellFormed (made timeout_seconds h) = new-WellFormed timeout_seconds h
Reachable-WellFormed {last_instant} (stepped {r = r} reached (isolate_step now)) =
    isolate-WellFormed now r (Reachable-WellFormed reached)
Reachable-WellFormed {last_instant} (stepped {r = r} reached (poll_step now h)) =
    poll-WellFormed last_instant r.state now r refl (Reachable-WellFormed reached) h
Reachable-WellFormed {last_instant}
      (stepped {r = r} reached (complete_step attempt succeeded now h)) =
    complete-WellFormed last_instant r.state attempt succeeded now r (Reachable-WellFormed reached)
      h
