-- ===== src/Guard.antt =====
-- The command guard's rules and how one rule matches words: crates/kakoi-policy/src/guard.rs
-- (`GuardRule`, `Position`, `Examples`, `prefix`, `flag_matches`, `option_value`, `word_matches`,
-- `regular_expression`). A text is the list of its bytes, and a map is an association list. The regex
-- crate is a parameter: `compile` is `Regex::new` (`none` for its error) and `is_match` its method.
pub mod Words
pub mod Evaluate
pub mod Validate
pub mod Laws
use kakoi.Prelude.{
  ℕ, Bool, true, false, not, ◌&&◌, ◌||◌, Option, none, some, List, [], ◌∷◌, ◌++◌, any, find,
  find_map, get, is_some, if◌then◌else◌, ◌==◌, list_eq, nat_eq, length, ltb,
}
use kakoi.Policy.{Text, codes}
use kakoi.Guard.Words.{split_once, chars, join_words, begins_with, strip_slash}

-- One position of a sequence.
pub data Position : Type 0 where
  word : Text → Position
  alternatives : List Text → Position

abbrev pub Sequence : Type 0
Sequence = List Position

-- `Position::words`
abbrev pub words_of : Position → List Text
words_of (word w) = w ∷ []
words_of (alternatives ws) = ws

pub record Examples : Type 0 where
  pub deny : Option (List Text)
  pub allow : Option (List Text)

pub record GuardRule : Type 0 where
  pub program : Text
  pub reason : Text
  pub options_with_value : Option (List Text)
  pub for_ : Option (List Sequence)
  pub deny : Option (List Sequence)
  pub deny_flags : Option (List Text)
  pub deny_option_values : Option (List (Text × List Text))
  pub deny_env : Option (List Text)
  pub only : Option (List Sequence)
  pub guard_absolute_path : Bool
  pub examples : Examples

-- `flag_matches`
unfoldable pub flag_matches : Text → Text → Bool
flag_matches flag w =
    let head : Text = elim (split_once b'=' w) [ some (head, _) ↦ head | none ↦ w ] in
    head == flag || elim (chars flag) [
      | dash ∷ letter ∷ [] ↦
          dash == codes "-"
          && not (letter == codes "-")
          && begins_with (codes "-") head
          && not (begins_with (codes "--") head)
          && any (λ c. c == letter) (elim (chars head) [ [] ↦ [] | _ ∷ letters ↦ letters ])
      | _ ↦ false
    ]

module _ {Regex : Type 0} (compile : Text → Option Regex) (is_match : Regex → Text → Bool) where
  -- `none` for a plain word, `some none` for a broken expression.
  unfoldable pub regular_expression : Text → Option (Option Regex)
  regular_expression pattern = elim (strip_slash pattern) [
    | none ↦ none
    | some inner ↦ elim (compile inner) [
      | none ↦ some none
      | some _ ↦ some (compile (codes "\\A(?:" ++ (inner ++ codes ")\\z")))
    ]
  ]

  unfoldable pub word_matches : Text → Text → Bool
  word_matches pattern w = elim (regular_expression pattern) [
    | some (some regex) ↦ is_match regex w
    | some none ↦ false
    | none ↦ pattern == w
  ]

  -- The words that a sequence matches from the front, in order.
  unfoldable pub prefix_words : Sequence → List (Option Text) → Option (List Text)
  prefix_words [] rest = some []
  prefix_words (position ∷ sequence) [] = none
  prefix_words (position ∷ sequence) (none ∷ rest) = none
  prefix_words (position ∷ sequence) (some w ∷ rest) =
      let matched = prefix_words sequence rest in
      if any (λ pattern. word_matches pattern w) (words_of position)
      then elim matched [ none ↦ none | some more ↦ some (w ∷ more) ]
      else none

  -- `prefix`
  unfoldable pub prefix : Sequence → List (Option Text) → Option Text
  prefix sequence rest =
      if ltb (length rest) (length sequence) then none else elim (prefix_words sequence rest) [
        | none ↦ none
        | some matched ↦ some (join_words matched)
      ]

  -- The closure `denied` of `option_value`.
  unfoldable pub denied_value : List (Text × List Text) → Text → Text → Bool
  denied_value values name value = elim (get name values) [
    | none ↦ false
    | some patterns ↦ any (λ pattern. word_matches pattern value) patterns
  ]

  -- The value in the word itself, after `=`.
  unfoldable pub attached_value : List (Text × List Text) → Text → Bool
  attached_value values w = elim (split_once b'=' w) [
    | none ↦ false
    | some (name, value) ↦ denied_value values name value
  ]

  -- The value in the next word.
  unfoldable pub next_value : List (Text × List Text) → Text → List (Option Text) → Option Text
  next_value values w (some value ∷ rest) =
      if denied_value values w value then some (w ++ (codes " " ++ value)) else none
  next_value values w _ = none

  -- `option_value`
  unfoldable pub option_value : List (Text × List Text) → List (Option Text) → Option Text
  option_value values [] = none
  option_value values (none ∷ rest) = option_value values rest
  option_value values (some w ∷ rest) =
      let later = option_value values rest in
      if attached_value values w
      then some w
      else elim (next_value values w rest) [ some shown ↦ some shown | none ↦ later ]
