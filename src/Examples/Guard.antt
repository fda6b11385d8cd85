-- ===== src/Examples/Guard.antt =====
-- The theorems on wildcards and guard rules at a rule for `git`.
use kakoi.Prelude.{
  ◌≡◌, ◌⊎◌, refl, List, [], ◌∷◌, map, Option, none, some, In, here, Bool, true, false, drop,
  list_beq, any, all, find, find_map,
}
use kakoi.Policy.{Text, codes}
use kakoi.Wildcard.{matches, loop, fuel_for}
use kakoi.Wildcard.Meaning.{Matches}
use kakoi.Wildcard.Laws.{matches-decides}
use kakoi.Guard.{
  word, Sequence, GuardRule, flag_matches, regular_expression, word_matches, prefix_words, prefix,
}
use kakoi.Prelude.Utf8.{to_str, utf8}
use kakoi.Guard.Words.{strip_slash, strip_last, begins_with, split_once, chars, join_words}
use kakoi.Guard.Evaluate.{
  skipped, separator_at, applies, denial, evaluate, wildcard_accepts, skip_loop, denied_env,
  denied_flag, denied_sequence, denied_flags, denied_option, outside, first_shown,
}
use kakoi.Guard.Laws.{Covers, evaluate-allows_no_denied_sequence, evaluate-allows_only}

-- An engine whose expressions are their own text.
abbrev compile : Text → Option Text
compile pattern = some pattern

abbrev is_match : Text → Text → Bool
is_match regex w = false

abbrev push : Sequence
push = word (codes "push") ∷ []

abbrev status : Sequence
status = word (codes "status") ∷ []

abbrev rule : GuardRule
rule = record {
  program = codes "git";
  reason = codes "no";
  options_with_value = none;
  for_ = none;
  deny = some (push ∷ []);
  deny_flags = some (codes "-f" ∷ []);
  deny_option_values = none;
  deny_env = some (codes "G*" ∷ []);
  only = some (status ∷ []);
  guard_absolute_path = false;
  examples = record { deny = some (codes "git push" ∷ []); allow = none };
}

abbrev arguments : List Text
arguments = codes "status" ∷ []

abbrev environment : List Text
environment = codes "H" ∷ []

matches-decides_example :
    ((matches (codes "a*c") (codes "abc") ≡ some true) × Matches (codes "a*c") (codes "abc"))
    ⊎ ((matches (codes "a*c") (codes "abc") ≡ some false) × ¬ Matches (codes "a*c") (codes "abc"))
matches-decides_example = matches-decides (codes "a*c") (codes "abc")

allowed : evaluate compile is_match (rule ∷ []) arguments environment ≡ none
unfolding evaluate denial skipped skip_loop separator_at applies denied_env denied_flag
    denied_sequence denied_flags denied_option outside first_shown prefix prefix_words word_matches
    regular_expression strip_slash strip_last begins_with to_str utf8 wildcard_accepts matches loop
    fuel_for flag_matches split_once chars join_words find find_map any all list_beq
allowed = refl

evaluate-allows_no_denied_sequence_example :
    ¬ Covers compile is_match push (drop (skipped rule arguments) (map to_str arguments))
evaluate-allows_no_denied_sequence_example =
    evaluate-allows_no_denied_sequence compile is_match (rule ∷ []) arguments environment allowed
      (here refl) refl (here refl)

applied :
    applies compile is_match rule (drop (skipped rule arguments) (map to_str arguments)) ≡ true
unfolding applies
applied = refl

evaluate-allows_only_example :
    (sequence : Sequence) × In sequence (status ∷ [])
    × Covers compile is_match sequence (drop (skipped rule arguments) (map to_str arguments))
evaluate-allows_only_example =
    evaluate-allows_only compile is_match (rule ∷ []) arguments environment allowed (here refl) refl
      applied
