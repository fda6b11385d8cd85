-- ===== src/Examples/Net.antt =====
-- The theorems on the pool, the leases and the recovery at small states.
use kakoi.Prelude.{
  ℕ, ◌≡◌, Bool, Result, ◌&&◌, ◌||◌, refl, [], ◌∷◌, none, some, false, ltb, nat_eq, pair_eq, ◌==◌,
  arith,
}
use kakoi.Net.Pool.{ResolutionPool, admit}
use kakoi.Net.Pool.{complete as complete_resolution}
use kakoi.Net.Pool.Laws.{WellFormed, Admitted, view, admit-refines, complete-refines}
use kakoi.Net.Pool.Steps.{waiters_or_none}
use kakoi.Net.Leases.{ip_eq, v4, LeaseBook, record_grant, permits}
use kakoi.Net.Leases.Laws.{WellFormed as BookWellFormed, record_grant-permits, the_key}
use kakoi.Net.Recovery.{
  Attempt, Recovery, Refusal, healthy, waiting, working, new, isolate, poll, poll_state, begin,
  complete, start,
}
use kakoi.Net.Recovery.Invariant.{
  WellFormed as RecoveryWellFormed, isolate_step, poll_step, Reachable, made, stepped,
  Reachable-WellFormed,
}
use kakoi.Net.Recovery.History.{Failed, made_fresh, isolated_then, polled_then}
use kakoi.Net.Recovery.Laws.{Told, complete-outcome}

abbrev pool : ResolutionPool ℕ ℕ
pool = record {
  pending = (7, record { id = 0; waiters = 1 ∷ [] }) ∷ [];
  max_resolutions = 2;
  max_waiters = 2;
  next_id = 1;
}

pool-WellFormed : WellFormed pool
pool-WellFormed = record {
  keys = (tt, tt);
  ids = (tt, tt);
  fresh = (omega arith, tt);
  room = omega arith;
  waiting = ((omega arith, omega arith), tt);
  limits = (omega arith, omega arith, omega arith);
}

admit-refines_example :
    WellFormed (admit 7 2 pool).0 × Admitted 2 pool (admit 7 2 pool).0 0 (admit 7 2 pool).1
admit-refines_example = admit-refines 7 2 pool 0 pool-WellFormed

complete-refines_example :
    WellFormed (complete_resolution 0 pool).0
    × ((complete_resolution 0 pool).1 ≡ waiters_or_none (view pool 0))
    × (view (complete_resolution 0 pool).0 0 ≡ none)
complete-refines_example = complete-refines 0 pool 0 pool-WellFormed

abbrev book : LeaseBook
book = record { deadlines = ((0, v4 9), 50) ∷ [] }

book-WellFormed : BookWellFormed book
book-WellFormed = (tt, tt)

record_grant-permits_example :
    permits (record_grant book 1 (v4 8) 60 10) 1 (v4 8) 20
    ≡ (permits book 1 (v4 8) 20 || ((the_key 1 (v4 8) == the_key 1 (v4 8)) && ltb 20 60))
record_grant-permits_example =
    record_grant-permits book 1 (v4 8) 60 10 1 (v4 8) 20 book-WellFormed (omega arith)

abbrev fresh_recovery : Recovery
fresh_recovery = record { timeout = 2000000000; state = healthy; failures = 0; generation = 0 }

abbrev waiting_recovery : Recovery
waiting_recovery = record { timeout = 2000000000; state = waiting 5; failures = 0; generation = 0 }

abbrev attempt : Attempt
attempt = record { generation = 1; deadline = 2000000006 }

abbrev working_recovery : Recovery
working_recovery = record {
  timeout = 2000000000;
  state = working attempt false;
  failures = 0;
  generation = 1;
}

fresh-Reachable : Reachable 1000000000000 fresh_recovery
unfolding new
fresh-Reachable = made 2 refl

waiting-Reachable : Reachable 1000000000000 waiting_recovery
unfolding isolate
waiting-Reachable = stepped fresh-Reachable (isolate_step 5)

started : poll 1000000000000 6 waiting_recovery ≡ some (working_recovery, start attempt)
unfolding poll_state begin
started = refl

working-Reachable : Reachable 1000000000000 working_recovery
working-Reachable = stepped waiting-Reachable (poll_step 6 started)

Reachable-WellFormed_example : RecoveryWellFormed working_recovery
Reachable-WellFormed_example = Reachable-WellFormed working-Reachable

working-Failed : Failed 1000000000000 0 working_recovery
unfolding new isolate
working-Failed = polled_then 6 (isolated_then 5 (made_fresh 2 refl)) started

complete-outcome_example :
    (s : Recovery) × (answer : Result Refusal Bool) × (complete 1000000000000 attempt false 7
        working_recovery
      ≡ some (s, answer))
    × Told 0 working_recovery attempt false 7 s answer
complete-outcome_example =
    complete-outcome 1000000000000 0 working_recovery attempt false 7 working-Failed (omega arith)
