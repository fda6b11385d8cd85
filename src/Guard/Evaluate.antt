-- ===== src/Guard/Evaluate.antt =====
-- crates/kakoi-policy/src/guard.rs: whether a rule denies a run (`GuardRule::skipped`, `applies`,
-- `denial`, `outside_only`) and whether the rules do (`evaluate`). What a denial shows of a word that is
-- not text is `to_string_lossy`, kept as the word itself.
use kakoi.Prelude.{
  ℕ, suc, ◌+◌, Bool, true, false, not, ◌||◌, Option, none, some, List, [], ◌∷◌, map, any, find,
  find_map, is_some, if◌then◌else◌, ◌==◌, list_eq, nat_eq, length, take, drop, ltb,
}
use kakoi.Policy.{Text, codes}
use kakoi.Wildcard.{matches}
use kakoi.Guard.{GuardRule, Sequence, prefix, flag_matches, option_value}
use kakoi.Guard.Words.{begins_with}
use kakoi.Prelude.Utf8.{to_str}

-- The text that a denial shows.
pub data Shown : Type 0 where
  exact : Text → Shown
  lossy : Text → Shown

pub record Denial : Type 0 where
  pub program : Text
  pub matched : Shown
  pub reason : Text

abbrev separator : Text
separator = codes "--"

-- The loop of `skipped`: an option that takes a value moves by two, also past the end.
unfoldable pub skip_loop : List Text → List Text → ℕ
skip_loop with_value [] = 0
skip_loop with_value (w ∷ []) =
    if w == separator
    then 1
    else if not (begins_with (codes "-") w)
    then 0
    else if any (λ name. w == name) with_value
    then 2
    else 1
skip_loop with_value (w ∷ v ∷ arguments) =
    let after_one = skip_loop with_value (v ∷ arguments) in
    let after_two = skip_loop with_value arguments in
    if w == separator
    then 1
    else if not (begins_with (codes "-") w)
    then 0
    else if any (λ name. w == name) with_value
    then 2 + after_two
    else 1 + after_one

abbrev list_or_empty {ℓ} : {A : Type ℓ} → Option (List A) → List A
list_or_empty none = []
list_or_empty (some xs) = xs

-- `GuardRule::skipped`
unfoldable pub skipped : GuardRule → List Text → ℕ
skipped rule arguments =
    let index = skip_loop (list_or_empty rule.options_with_value) arguments in
    if ltb (length arguments) index then length arguments else index

-- The place of the first `--`, or the end.
unfoldable pub separator_at : List Text → ℕ
separator_at [] = 0
separator_at (w ∷ arguments) =
    let later = separator_at arguments in if w == separator then 0 else suc later

-- `Option::or_else`
infixl 5 ◌or_else◌
abbrev pub ◌or_else◌ {ℓ} : {A : Type ℓ} → Option A → Option A → Option A
some a or_else o = some a
none or_else o = o

-- A wildcard that the match loop accepts.
unfoldable pub wildcard_accepts : Text → Text → Bool
wildcard_accepts pattern name = elim (matches pattern name) [ some b ↦ b | none ↦ false ]

-- The closure `env` of `denial`.
unfoldable pub denied_env : Option (List Text) → List Text → Option Shown
denied_env none environment = none
denied_env (some patterns) environment =
    elim (find (λ name. any (λ pattern. wildcard_accepts pattern name) patterns) environment) [
      | none ↦ none
      | some name ↦ some (lossy name)
    ]

-- The flag that a word matches.
unfoldable pub denied_flag : List Text → Option Text → Option Shown
denied_flag flags none = none
denied_flag flags (some w) = elim (find (λ flag. flag_matches flag w) flags) [
  | none ↦ none
  | some flag ↦ some (exact flag)
]

-- The closure `flags` of `denial`.
unfoldable pub denied_flags : Option (List Text) → List (Option Text) → Option Shown
denied_flags none before = none
denied_flags (some flags) before = find_map (λ w. denied_flag flags w) before

abbrev pub as_words : Option Text → Option Shown
as_words none = none
as_words (some w) = some (exact w)

-- The denial of a rule for what matched.
abbrev pub denied_by : GuardRule → Option Shown → Option Denial
denied_by rule none = none
denied_by rule (some matched) =
    some (record { program = rule.program; matched = matched; reason = rule.reason })

module _ {Regex : Type 0} (compile : Text → Option Regex) (is_match : Regex → Text → Bool) where
  abbrev pub covers_some : List Sequence → List (Option Text) → Bool
  covers_some sequences rest =
      any (λ sequence. is_some (prefix compile is_match sequence rest)) sequences

  -- `GuardRule::applies`
  unfoldable pub applies : GuardRule → List (Option Text) → Bool
  applies rule rest = elim rule.for_ [ none ↦ true | some sequences ↦ covers_some sequences rest ]

  -- The closure `deny` of `denial`.
  unfoldable pub denied_sequence : Option (List Sequence) → List (Option Text) → Option Shown
  denied_sequence none rest = none
  denied_sequence (some sequences) rest =
      as_words (find_map (λ sequence. prefix compile is_match sequence rest) sequences)

  -- The closure `option_values` of `denial`.
  unfoldable pub denied_option :
      Option (List (Text × List Text)) → List (Option Text) → Option Shown
  denied_option none before = none
  denied_option (some values) before = as_words (option_value compile is_match values before)

  -- `GuardRule::denial`
  unfoldable pub denial : GuardRule → List Text → List (Option Text) → List Text → Option Shown
  denial rule arguments words environment =
      let rest = drop (skipped rule arguments) words in
      let before = take (separator_at arguments) words in
      if applies rule rest
      then denied_env rule.deny_env environment
        or_else denied_sequence rule.deny rest
        or_else denied_flags rule.deny_flags before
        or_else denied_option rule.deny_option_values before
      else denied_sequence rule.deny rest

  -- The word that a run outside `only` is shown by.
  unfoldable pub first_shown : GuardRule → List Text → Shown
  first_shown rule [] = exact rule.program
  first_shown rule (w ∷ _) = lossy w

  -- `GuardRule::outside_only` for a value of the field `only`.
  unfoldable pub outside :
      Option (List Sequence) → GuardRule → List Text → List (Option Text) → Option Shown
  outside none rule arguments words = none
  outside (some only) rule arguments words =
      let rest = drop (skipped rule arguments) words in
      if not (applies rule rest) || covers_some only rest
      then none
      else some (first_shown rule (drop (skipped rule arguments) arguments))

  abbrev pub outside_only : GuardRule → List Text → List (Option Text) → Option Shown
  outside_only rule = outside rule.only rule

  unfoldable pub evaluate : List GuardRule → List Text → List Text → Option Denial
  evaluate rules arguments environment =
      let words = map to_str arguments in
      find_map (λ rule. denied_by rule (denial rule arguments words environment)) rules
      or_else find_map (λ rule. denied_by rule (outside_only rule arguments words)) rules
