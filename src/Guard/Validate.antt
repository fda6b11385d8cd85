-- ===== src/Guard/Validate.antt =====
-- crates/kakoi-policy/src/guard.rs: the shape of a rule (`GuardRule::validate`, `check_patterns`,
-- `check_examples`, `check_example`, `is_assignment`). `shlex_split` is `shlex::split`. An error keeps
-- what the source's message shows.
pub mod Laws
use kakoi.Prelude.{
  ℕ, Bool, true, false, not, ◌&&◌, ◌||◌, Option, none, some, List, [], ◌∷◌, ◌++◌, map, any, all,
  filter_map, is_some, if◌then◌else◌, ◌==◌, list_eq, nat_eq, length, take, drop, eqb, leb, contains,
  Result, ok, err, ◌>>=◌, ◌>>◌, for_each,
}
use kakoi.Policy.{Text, codes}
use kakoi.Guard.{GuardRule, Examples, Sequence, Position, words_of, regular_expression}
use kakoi.Guard.Words.{split_once}
use kakoi.Guard.Evaluate.{Denial, evaluate}

pub data Key : Type 0 where
  for_key deny_key only_key options_with_value_key deny_flags_key deny_env_key : Key
  deny_examples_key allow_examples_key deny_option_values_key : Key

pub data Invalid : Type 0 where
  bad_program : Text → Invalid
  no_reason : Text → Invalid
  nothing_denied : Text → Invalid
  empty_list : Text → Key → Invalid
  broken_pattern : Text → Text → Invalid
  unsplittable_example : Text → Text → Invalid
  other_program_example : Text → Text → Invalid
  not_denied_example : Text → Text → Invalid
  denied_example : Text → Text → Invalid

-- A guard that returns an error.
abbrev pub reject_if : Bool → Invalid → Result Invalid (Unit {0})
reject_if true e = err e
reject_if false e = ok tt

abbrev pub empty {ℓ} : {A : Type ℓ} → List A → Bool
empty [] = true
empty (_ ∷ _) = false

abbrev pub entries {ℓ} : {A : Type ℓ} → Option (List A) → List A
entries none = []
entries (some xs) = xs

abbrev letter : ℕ → Bool
letter b = (leb b'a' b && leb b b'z') || (leb b'A' b && leb b b'Z') || eqb b b'_'

abbrev digit : ℕ → Bool
digit b = leb b'0' b && leb b b'9'

-- `is_assignment`
unfoldable pub is_assignment : Text → Bool
is_assignment w = elim (split_once b'=' w) [
  | some (first ∷ more, _) ↦ letter first && all (λ b. letter b || digit b) more
  | _ ↦ false
]

-- The words before the first that is no assignment, and the others.
unfoldable pub split_assignments : List Text → List Text × List Text
split_assignments [] = ([], [])
split_assignments (w ∷ words) =
    let (assignments, command) = split_assignments words in
    if is_assignment w then (w ∷ assignments, command) else ([], w ∷ words)

-- The name of `NAME=value`.
abbrev pub assigned_name : Text → Option Text
assigned_name w = elim (split_once b'=' w) [ none ↦ none | some (name, _) ↦ some name ]

-- A sequence without positions, or with a position without words.
abbrev pub empty_sequence : Sequence → Bool
empty_sequence sequence = empty sequence || any (λ position. empty (words_of position)) sequence

-- One round of the loop over `for`, `deny` and `only`.
unfoldable pub check_sequences : Text → Key × Option (List Sequence) → Result Invalid (Unit {0})
check_sequences program (key, none) = ok tt
check_sequences program (key, some sequences) =
    reject_if (empty sequences || any empty_sequence sequences) (empty_list program key)

-- One round of the loop over the plain lists.
unfoldable pub check_list : Text → Key × Option (List Text) → Result Invalid (Unit {0})
check_list program (key, none) = ok tt
check_list program (key, some list) = reject_if (empty list) (empty_list program key)

unfoldable pub check_values : Text → Option (List (Text × List Text)) → Result Invalid (Unit {0})
check_values program none = ok tt
check_values program (some values) =
    reject_if (empty values || any (λ entry. empty entry.1) values)
      (empty_list program deny_option_values_key)

-- The program, the reason, and at least one way to deny.
unfoldable pub check_head : GuardRule → Result Invalid (Unit {0})
check_head rule =
    let program = rule.program in
    do
      reject_if (empty program || contains program b'/' || program == codes "kakoi")
          (bad_program program)
      reject_if (empty rule.reason) (no_reason program)
      reject_if
          (not (is_some rule.deny)
            && not (is_some rule.deny_flags)
            && not (is_some rule.deny_option_values)
            && not (is_some rule.deny_env)
            && not (is_some rule.only))
          (nothing_denied program)

-- The loop over `for`, `deny` and `only`.
unfoldable pub check_sequence_lists : GuardRule → Result Invalid (Unit {0})
check_sequence_lists rule =
    for_each (check_sequences rule.program)
      ((for_key, rule.for_) ∷ (deny_key, rule.deny) ∷ (only_key, rule.only) ∷ [])

-- The loop over the plain lists.
unfoldable pub check_lists : GuardRule → Result Invalid (Unit {0})
check_lists rule = for_each (check_list rule.program) (
    (options_with_value_key, rule.options_with_value)
    ∷ (deny_flags_key, rule.deny_flags)
    ∷ (deny_env_key, rule.deny_env)
    ∷ (deny_examples_key, rule.examples.deny)
    ∷ (allow_examples_key, rule.examples.allow)
    ∷ [])

abbrev concat {ℓ} : {A : Type ℓ} → List (List A) → List A
concat [] = []
concat (xs ∷ xss) = xs ++ concat xss

-- The patterns that `check_patterns` compiles.
unfoldable pub patterns_of : GuardRule → List Text
patterns_of rule =
    concat (map words_of (concat (entries rule.for_ ++ (entries rule.deny ++ entries rule.only))))
    ++ concat (map (λ entry. entry.1) (entries rule.deny_option_values))

module _ {Regex : Type 0} (compile : Text → Option Regex) (is_match : Regex → Text → Bool)
    (shlex_split : Text → Option (List Text)) where
  -- One round of the loop of `check_patterns`.
  unfoldable pub check_pattern : Text → Text → Result Invalid (Unit {0})
  check_pattern program pattern = elim (regular_expression compile is_match pattern) [
    | some none ↦ err (broken_pattern program pattern)
    | some (some _) ↦ ok tt
    | none ↦ ok tt
  ]

  unfoldable pub check_patterns : GuardRule → Result Invalid (Unit {0})
  check_patterns rule = for_each (check_pattern rule.program) (patterns_of rule)

  -- `check_example` once the command has been split.
  unfoldable pub run_example :
      GuardRule → Text → Bool → List Text → List Text → Result Invalid (Unit {0})
  run_example rule example denied assignments [] = err (other_program_example rule.program example)
  run_example rule example denied assignments (program ∷ arguments) =
      let environment = filter_map assigned_name assignments in
      let is_denied = is_some (evaluate compile is_match (rule ∷ []) arguments environment) in
      if not (program == rule.program)
      then err (other_program_example rule.program example)
      else if denied
      then reject_if (not is_denied) (not_denied_example rule.program example)
      else reject_if is_denied (denied_example rule.program example)

  unfoldable pub check_example : GuardRule → Bool → Text → Result Invalid (Unit {0})
  check_example rule denied example = elim (shlex_split example) [
    | none ↦ err (unsplittable_example rule.program example)
    | some words ↦
        let (assignments, command) = split_assignments words in
        run_example rule example denied assignments command
  ]

  unfoldable pub check_examples : GuardRule → Result Invalid (Unit {0})
  check_examples rule = do
    for_each (check_example rule true) (entries rule.examples.deny)
    for_each (check_example rule false) (entries rule.examples.allow)

  -- `GuardRule::validate`
  unfoldable pub validate : GuardRule → Result Invalid (Unit {0})
  validate rule = do
    check_head rule
    check_sequence_lists rule
    check_lists rule
    check_values rule.program rule.deny_option_values
    check_patterns rule
    check_examples rule
