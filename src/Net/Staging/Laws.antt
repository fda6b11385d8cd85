-- ===== src/Net/Staging/Laws.antt =====
-- crates/kakoi-net/src/dynamic.rs: a staging ends, since the reserve doubles from round to round.
use kakoi.Prelude.{ℕ, ◌≤◌, List, [], ◌∷◌}
use kakoi.Net.Staging.{Staging, StagingRound}

-- The clock never goes back, as `Instant` promises: a round ends no earlier than it started, and the next
-- one starts no earlier than that.
abbrev Ticking : ℕ → List StagingRound → Type 0
Ticking now [] = Unit
Ticking now (attempt ∷ attempts) =
    (now ≤ attempt.started) × (attempt.started ≤ attempt.after) × Ticking attempt.after attempts
