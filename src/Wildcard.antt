-- ===== src/Wildcard.antt =====
-- crates/kakoi-policy/src/wildcard.rs. The loop's indices `p` and `t` are the suffixes of the pattern
-- and the text that are left; `star` keeps the suffixes after the last `*` and at its shortest run.
pub mod Meaning
pub mod Laws
use kakoi.Prelude.{
  ℕ, zero, suc, ◌+◌, ◌*◌, Bool, true, false, Option, none, some, List, [], ◌∷◌, length, all, eqb,
  if◌then◌else◌,
}

-- `b'*'` and `b'?'`.
abbrev pub star_byte : ℕ
star_byte = b'*'

abbrev pub any_byte : ℕ
any_byte = b'?'

pub record State : Type 0 where
  pub pattern : List ℕ
  pub text : List ℕ
  pub star : Option (List ℕ × List ℕ)

-- A mismatch: the last `*` takes one byte more, or nothing is left to try.
abbrev pub retry : Option (List ℕ × List ℕ) → Option State
retry none = none
retry (some (rest, [])) = none
retry (some (rest, _ ∷ text)) =
    some (record { pattern = rest; text = text; star = some (rest, text) })

abbrev step : List ℕ → ℕ → List ℕ → Option (List ℕ × List ℕ) → Option State
step [] byte text star = retry star
step (p ∷ pattern) byte text star =
    if eqb p star_byte
    then some (record { pattern = pattern; text = byte ∷ text; star = some (pattern, byte ∷ text) })
    else if eqb p any_byte
    then some (record { pattern = pattern; text = text; star = star })
    else if eqb p byte
    then some (record { pattern = pattern; text = text; star = star })
    else retry star

-- The `while` loop on fuel; `none` when the fuel runs out.
unfoldable pub loop : ℕ → List ℕ → List ℕ → Option (List ℕ × List ℕ) → Option Bool
loop zero pattern text star = none
loop (suc fuel) pattern [] star = some (all (λ byte. eqb byte star_byte) pattern)
loop (suc fuel) pattern (byte ∷ text) star = elim (step pattern byte text star) [
  | none ↦ some false
  | some next ↦ loop fuel next.pattern next.text next.star
]

-- Enough fuel: the `*` and its run give at most `length pattern + length text` retries, and between
-- two of them every round shortens the text or takes a new `*`.
unfoldable pub fuel_for : List ℕ → List ℕ → ℕ
fuel_for pattern text = suc ((length pattern + length text) * suc (length text) + length text)

-- `matches_bytes`
unfoldable pub matches : List ℕ → List ℕ → Option Bool
matches pattern text = loop (fuel_for pattern text) pattern text none
