-- ===== src/Net/Recovery/History.antt =====
-- crates/kakoi-net/src/recovery.rs: the failures in a row of a history of calls, and the count of the state.
use kakoi.Prelude.{
  ℕ, zero, suc, ◌+◌, ◌^◌, ◌≤◌, Bool, true, false, not, ◌&&◌, Option, some, if◌then◌else◌, ltb, leb,
  Result, ok, err, ◌≡◌, ◌∙◌, ap, refl, sym, inl, inr, arith, Bool-cases,
}
use kakoi.Net.Recovery.{
  Attempt, attempt_beq, RecoveryAction, State, healthy, waiting, working, Recovery, Refusal,
  not_running, stale, seconds, new, isolate, begin, poll_state, poll, complete_state, complete,
  max_recovery_attempt_timeout_seconds,
}
use kakoi.Net.Recovery.Invariant.{
  backed_off, retry_later-fits, expected_delay, some_left, some_right,
}

-- The history of a recovery: it was made and called, and since it was made or a success ended the isolation
-- so many attempts in a row have failed.
pub data Failed (last_instant : ℕ) : ℕ → Recovery → Type 0 where
  made_fresh :
      {r : Recovery} (timeout_seconds : ℕ) → new timeout_seconds ≡ some r → Failed last_instant 0 r
  isolated_then :
      {n : ℕ} {r : Recovery} (now : ℕ)
      → Failed last_instant n r
      → Failed last_instant n (isolate now r)
  polled_then :
      {n : ℕ} {r s : Recovery} {action : RecoveryAction} (now : ℕ)
      → Failed last_instant n r
      → poll last_instant now r ≡ some (s, action)
      → Failed last_instant n s
  refused_then :
      {n : ℕ} {r s : Recovery} {why : Refusal} (attempt : Attempt) (succeeded : Bool) (now : ℕ)
      → Failed last_instant n r
      → complete last_instant attempt succeeded now r ≡ some (s, err why)
      → Failed last_instant n s
  succeeded_then :
      {n : ℕ} {r s : Recovery} (attempt : Attempt) (succeeded : Bool) (now : ℕ)
      → Failed last_instant n r
      → complete last_instant attempt succeeded now r ≡ some (s, ok true)
      → Failed last_instant 0 s
  failed_then :
      {n : ℕ} {r s : Recovery} (attempt : Attempt) (succeeded : Bool) (now : ℕ)
      → Failed last_instant n r
      → complete last_instant attempt succeeded now r ≡ some (s, ok false)
      → Failed last_instant (suc n) s

-- The wait in seconds after so many failures in a row: doubled each time, up to half a minute.
abbrev pub wait_after : ℕ → ℕ
wait_after failures = if leb (2 ^ failures) 30 then 2 ^ failures else 30

-- The failures that the state counts.
abbrev pub counted : ℕ → ℕ
counted n = if ltb n 5 then n else 5

poll-failures :
    (last_instant : ℕ) (state : State) (now : ℕ) (r : Recovery) {s : Recovery}
    {action : RecoveryAction}
    → poll_state last_instant state now r ≡ some (s, action)
    → s.failures ≡ r.failures
unfolding poll_state begin
poll-failures last_instant healthy now r h = ap (λ (z : Recovery). z.failures) (sym (some_left h))
poll-failures last_instant (waiting at) now r h = elim (Bool-cases (leb at now)) [
  | inr early ↦ ap (λ (z : Recovery). z.failures) (sym (some_left (rw early at h)))
  | inl due ↦
      elim (Bool-cases (ltb (r.generation + 1) (2 ^ 64) && leb (now + r.timeout) last_instant)) [
        | inr over ↦ absurd (cc (rw (due, over) at h))
        | inl below ↦ ap (λ (z : Recovery). z.failures) (sym (some_left (rw (due, below) at h)))
      ]
]
poll-failures last_instant (working attempt cancelled) now r h =
    elim (Bool-cases (leb attempt.deadline now && not cancelled)) [
      | inr on_time ↦ ap (λ (z : Recovery). z.failures) (sym (some_left (rw on_time at h)))
      | inl late ↦ ap (λ (z : Recovery). z.failures) (sym (some_left (rw late at h)))
    ]

some_same : {a b : Recovery} → some a ≡ some b → a ≡ b
some_same q = cc q

-- What a completion leaves of the count, by its answer.
abbrev count_after : Result Refusal Bool → ℕ → ℕ
count_after (err why) failures = failures
count_after (ok true) failures = 0
count_after (ok false) failures = if ltb (failures + 1) 5 then failures + 1 else 5

answered :
    (n : ℕ) (t : Recovery) (told : Result Refusal Bool) {s : Recovery}
    {answer : Result Refusal Bool}
    → t.failures ≡ count_after told n
    → ◌≡◌ {A = Option (Recovery × Result Refusal Bool)} (some (t, told)) (some (s, answer))
    → s.failures ≡ count_after answer n
answered n t told e h =
    let left = some_left h in
    let right = some_right h in
    ap (λ (z : Recovery). z.failures) (sym left) ∙ e ∙ ap (λ z. count_after z n) right

fresh : (timeout_seconds : ℕ) {r : Recovery} → new timeout_seconds ≡ some r → r.failures ≡ 0
unfolding new
fresh timeout_seconds {r} h =
    let in_range =
      leb 1 timeout_seconds && leb timeout_seconds max_recovery_attempt_timeout_seconds in
    elim (Bool-cases in_range) [
      | inr out ↦ absurd (cc (rw out at h))
      | inl inside ↦ ap (λ (z : Recovery). z.failures) (sym (some_same (rw inside at h)))
    ]

complete-failures :
    (last_instant : ℕ) (state : State) (completed : Attempt) (succeeded : Bool) (now : ℕ)
    (r : Recovery) {s : Recovery} {answer : Result Refusal Bool}
    → r.failures ≤ 5
    → complete_state last_instant state completed succeeded now r ≡ some (s, answer)
    → s.failures ≡ count_after answer r.failures
unfolding complete_state
complete-failures last_instant healthy completed succeeded now r f h =
    answered r.failures r (err not_running) refl h
complete-failures last_instant (waiting at) completed succeeded now r f h =
    answered r.failures r (err not_running) refl h
complete-failures last_instant (working attempt cancelled) completed succeeded now r f h =
    elim (Bool-cases (attempt_beq attempt completed)) [
      | inr other ↦ answered r.failures r (err stale) refl (rw other at h)
      | inl same ↦ elim (Bool-cases (succeeded && not cancelled && ltb now attempt.deadline)) [
        | inl good ↦
            answered r.failures (record r { state = healthy; failures = 0 }) (ok true) refl
              (rw (same, good) at h)
        | inr bad ↦
            elim (Bool-cases (leb (now + seconds (expected_delay r.failures)) last_instant)) [
              | inr over ↦
                  absurd (cc (rw (same, bad, retry_later-fits last_instant now r f, over) at h))
              | inl fits ↦
                  answered r.failures (backed_off now r) (ok false) refl
                    (rw (same, bad, retry_later-fits last_instant now r f, fits) at h)
            ]
      ]
    ]

-- In every history the state counts the failures, up to five.
pub Failed-counted :
    {last_instant n : ℕ} {r : Recovery} → Failed last_instant n r → r.failures ≡ counted n
unfolding isolate new
Failed-counted (made_fresh timeout_seconds h) = fresh timeout_seconds h
Failed-counted (isolated_then {r = r} now f) = Failed-counted f
Failed-counted {last_instant} (polled_then {r = r} now f h) =
    poll-failures last_instant r.state now r h ∙ Failed-counted f
Failed-counted {last_instant} (refused_then {r = r} attempt succeeded now f h) =
    let old = Failed-counted f in
    complete-failures last_instant r.state attempt succeeded now r (ground (arith, old)) h ∙ old
Failed-counted {last_instant} (succeeded_then {r = r} attempt succeeded now f h) =
    complete-failures last_instant r.state attempt succeeded now r
      (let old = Failed-counted f in ground (arith, old)) h
Failed-counted {last_instant} (failed_then {r = r} attempt succeeded now f h) =
    let old = Failed-counted f in
    let next =
      complete-failures last_instant r.state attempt succeeded now r (ground (arith, old)) h in
    ground (arith, old, next)

power-pos : (n : ℕ) → 1 ≤ 2 ^ n
power-pos zero = omega arith
power-pos (suc n) = omega (arith, power-pos n)

-- Past the fifth failure the wait stays half a minute.
pub wait-counted : (n : ℕ) → expected_delay (counted n) ≡ wait_after n
wait-counted zero = refl
wait-counted (suc zero) = refl
wait-counted (suc (suc zero)) = refl
wait-counted (suc (suc (suc zero))) = refl
wait-counted (suc (suc (suc (suc zero)))) = refl
wait-counted (suc (suc (suc (suc (suc n))))) =
    let long : leb (2 ^ suc (suc (suc (suc (suc n))))) 30 ≡ false = ground (arith, power-pos n) in
    let past : ltb (suc (suc (suc (suc (suc n))))) 5 ≡ false = ground arith in rw (past, long) refl
