-- ===== src/Net/Recovery/Laws.antt =====
-- crates/kakoi-net/src/recovery.rs: what a completion does after a history of calls, and the attempts.
use kakoi.Prelude.{
  ℕ, ◌+◌, ◌^◌, ◌≤◌, ◌<◌, Bool, true, false, not, ◌&&◌, some, ltb, leb, Result, ok, err, ◌≡◌, ◌≢◌,
  ◌⊎◌, ◌∙◌, ap, refl, sym, subst, inl, inr, arith, Bool-cases,
}
use kakoi.Net.Recovery.{
  Attempt, attempt_beq, start, State, healthy, waiting, working, Recovery, Refusal, not_running,
  stale, seconds, begin, poll_state, poll, complete_state, complete,
}
use kakoi.Net.Recovery.Invariant.{
  WellFormed, Reachable, backed_off, retry_later-ok, expected_delay, some_left, some_right,
  Reachable-WellFormed,
}
use kakoi.Net.Recovery.History.{Failed, counted, wait_after, Failed-counted, wait-counted}

-- What a completion is to do after so many failures in a row.
pub data Told (failures : ℕ) (r : Recovery) (completed : Attempt) (succeeded : Bool) (now : ℕ)
    : Recovery → Result Refusal Bool → Type 0 where
  none_runs :
      ((attempt : Attempt) (cancelled : Bool) → r.state ≢ working attempt cancelled)
      → Told failures r completed succeeded now r (err not_running)
  another_runs :
      (attempt : Attempt) (cancelled : Bool)
      → r.state ≡ working attempt cancelled
      → attempt ≢ completed
      → Told failures r completed succeeded now r (err stale)
  recovered :
      {s : Recovery}
      → r.state ≡ working completed false
      → succeeded ≡ true
      → now < completed.deadline
      → s.state ≡ healthy
      → Told failures r completed succeeded now s (ok true)
  retried :
      {s : Recovery} (cancelled : Bool)
      → r.state ≡ working completed cancelled
      → (cancelled ≡ true) ⊎ ((succeeded ≡ false) ⊎ (completed.deadline ≤ now))
      → s.state ≡ waiting (now + seconds (wait_after failures))
      → Told failures r completed succeeded now s (ok false)

attempt_beq-eq : (a b : Attempt) → attempt_beq a b ≡ true → a ≡ b
unfolding attempt_beq
attempt_beq-eq a b h = ground (arith, h)

attempt_beq-ne : (a b : Attempt) → attempt_beq a b ≡ false → a ≢ b
unfolding attempt_beq
attempt_beq-ne a b h p = ground (arith, h, p)

told :
    (last_instant failures : ℕ) (state : State) (completed : Attempt) (succeeded : Bool) (now : ℕ)
    (r : Recovery)
    → r.state ≡ state
    → r.failures ≡ counted failures
    → now + seconds 30 ≤ last_instant
    → (s : Recovery) × (answer : Result Refusal Bool) × (complete_state last_instant state completed
          succeeded now r
        ≡ some (s, answer))
      × Told failures r completed succeeded now s answer
unfolding complete_state
told last_instant n healthy completed succeeded now r e c room =
    (r, err not_running, refl, none_runs (λ a k q. cc (e, q)))
told last_instant n (waiting at) completed succeeded now r e c room =
    (r, err not_running, refl, none_runs (λ a k q. cc (e, q)))
told last_instant n (working attempt cancelled) completed succeeded now r e c room =
    elim (Bool-cases (attempt_beq attempt completed)) [
      | inr other ↦ (
        r,
        err stale,
        rw other refl,
        another_runs attempt cancelled e (attempt_beq-ne attempt completed other),
      )
      | inl same ↦
          let its : attempt ≡ completed = attempt_beq-eq attempt completed same in
          let runs : r.state ≡ working completed cancelled =
            e ∙ ap (λ z. working z cancelled) its in
          elim (Bool-cases (succeeded && not cancelled && ltb now attempt.deadline)) [
            | inl good ↦
                let kept : cancelled ≡ false = ground (arith, good) in
                (
                  record {
                    timeout = r.timeout;
                    state = healthy;
                    failures = 0;
                    generation = r.generation;
                  },
                  ok true,
                  rw (same, good) refl,
                  recovered (runs ∙ ap (working completed) kept) (ground (arith, good))
                      (subst (λ (z : Attempt). now < z.deadline) its (ground (arith, good))) refl,
                )
            | inr bad ↦
                let few : r.failures ≤ 5 = ground (arith, c) in
                (
                  backed_off now r,
                  ok false,
                  rw (same, bad) (retry_later-ok last_instant now r few room),
                  retried cancelled runs
                      (subst
                        (λ (z : Attempt).
                          (cancelled ≡ true) ⊎ ((succeeded ≡ false) ⊎ (z.deadline ≤ now)))
                        its (why_not succeeded cancelled attempt now bad))
                      (ap (λ z. waiting (now + seconds z)) (ap expected_delay c ∙ wait-counted n)),
                )
          ]
    ]
  where
    why_not :
        (succeeded cancelled : Bool) (attempt : Attempt) (now : ℕ)
        → (succeeded && not cancelled && ltb now attempt.deadline) ≡ false
        → (cancelled ≡ true) ⊎ ((succeeded ≡ false) ⊎ (attempt.deadline ≤ now))
    why_not false cancelled attempt now h = inr (inl refl)
    why_not true true attempt now h = inl refl
    why_not true false attempt now h = inr (inr (ground (arith, h)))

-- After any history of calls, and while the clock can hold half a minute more, `complete` does not panic:
-- it refuses and changes nothing when no attempt runs, and when another attempt than the completed one
-- does; it ends the isolation exactly for a success of the running attempt that was not cancelled and
-- comes before its deadline; and any other end of the running attempt makes the next one wait for
-- `2 ^ n` seconds, at most half a minute, where `n` attempts in a row have failed before.
pub complete-outcome :
    (last_instant failures : ℕ) (r : Recovery) (completed : Attempt) (succeeded : Bool) (now : ℕ)
    → Failed last_instant failures r
    → now + seconds 30 ≤ last_instant
    → (s : Recovery) × (answer : Result Refusal Bool) × (complete last_instant completed succeeded
          now r
        ≡ some (s, answer))
      × Told failures r completed succeeded now s answer
complete-outcome last_instant failures r completed succeeded now history room =
    told last_instant failures r.state completed succeeded now r refl (Failed-counted history) room

begins :
    (last_instant : ℕ) (state : State) (now : ℕ) (r : Recovery) {s : Recovery} {attempt : Attempt}
    → r.state ≡ state
    → WellFormed r
    → poll_state last_instant state now r ≡ some (s, start attempt)
    → ((at : ℕ) × (r.state ≡ waiting at) × (at ≤ now))
      × (s.state ≡ working attempt false)
      × (r.generation < attempt.generation)
      × (now < attempt.deadline)
      × (attempt.deadline ≤ now + seconds 300)
unfolding poll_state begin
begins last_instant healthy now r e f h = absurd (cc (some_right h))
begins last_instant (waiting at) now r {s} {attempt} e f h = elim (Bool-cases (leb at now)) [
  | inr early ↦ absurd (cc (some_right (rw early at h)))
  | inl due ↦
      elim (Bool-cases (ltb (r.generation + 1) (2 ^ 64) && leb (now + r.timeout) last_instant)) [
        | inr over ↦ absurd (cc (rw (due, over) at h))
        | inl below ↦
            let made : Attempt = record {
              generation = r.generation + 1;
              deadline = now + r.timeout;
            } in
            let same : made ≡ attempt = cc (some_right (rw (due, below) at h)) in
            let next = some_left (rw (due, below) at h) in
            subst
              (λ z.
                ((at : ℕ) × (r.state ≡ waiting at) × (at ≤ now))
                × (s.state ≡ working z false)
                × (r.generation < z.generation)
                × (now < z.deadline)
                × (z.deadline ≤ now + seconds 300))
              same
              (
                (at, e, ground arith),
                subst (λ z. z.state ≡ working made false) next refl,
                omega arith,
                omega (arith, f.timeout.0),
                omega (arith, f.timeout.1),
              )
      ]
]
begins last_instant (working attempt cancelled) now r e f h =
    elim (Bool-cases (leb attempt.deadline now && not cancelled)) [
      | inr on_time ↦ absurd (cc (some_right (rw on_time at h)))
      | inl late ↦ absurd (cc (some_right (rw late at h)))
    ]

-- An attempt that was given out before the running one is refused as stale, and nothing changes.
complete-stale :
    (last_instant : ℕ) (r : Recovery) (running old : Attempt) (cancelled succeeded : Bool) (now : ℕ)
    → r.state ≡ working running cancelled
    → old.generation < running.generation
    → complete last_instant old succeeded now r ≡ some (r, err stale)
unfolding complete_state attempt_beq
complete-stale last_instant r running old cancelled succeeded now e h =
    let other : attempt_beq running old ≡ false = ground arith in
    subst (λ z. complete_state last_instant z old succeeded now r ≡ some (r, err stale)) (sym e)
      (rw (other, complete_state) refl)

-- In a reachable state an attempt starts only when the wait is over, it is newer than every attempt given
-- out before, and its deadline is at most five minutes away.
poll-starts :
    (last_instant : ℕ) (r s : Recovery) (attempt : Attempt) (now : ℕ)
    → Reachable last_instant r
    → poll last_instant now r ≡ some (s, start attempt)
    → ((at : ℕ) × (r.state ≡ waiting at) × (at ≤ now))
      × (s.state ≡ working attempt false)
      × (r.generation < attempt.generation)
      × (now < attempt.deadline)
      × (attempt.deadline ≤ now + seconds 300)
poll-starts last_instant r s attempt now reached h =
    begins last_instant r.state now r refl (Reachable-WellFormed reached) h
