-- ===== src/Guard/Validate/Laws.antt =====
-- crates/kakoi-policy/src/guard.rs: what a validated rule promises.
use kakoi.Prelude.{
  Bool, true, false, not, Option, none, some, List, [], ◌∷◌, filter_map, is_some, any-false,
  ||-false, ◌≡◌, ◌≢◌, refl, sym, ap, subst, inl, inr, ok, >>-eq-ok, for_each, for_each-ok, All,
  All-of, In, here, there, Bool-cases, Option-cases, if◌then◌else◌, ◌==◌, eq_of, list_eq, nat_eq,
}
use kakoi.Policy.{Text}
use kakoi.Guard.{GuardRule, Sequence, words_of, regular_expression}
use kakoi.Guard.Evaluate.{evaluate}
use kakoi.Guard.Validate.{
  Invalid, Key, reject_if, empty, empty_sequence, entries, check_sequences, check_values,
  check_pattern, check_patterns, check_head, check_sequence_lists, check_lists, patterns_of,
  run_example, check_example, check_examples, validate, split_assignments, assigned_name, for_key,
  deny_key, only_key,
}

reject_if-ok : (b : Bool) (e : Invalid) → reject_if b e ≡ ok tt → b ≡ false
reject_if-ok true e h = cc
reject_if-ok false e h = refl

empty-false {ℓ} : {A : Type ℓ} (xs : List A) → empty xs ≡ false → xs ≢ []
empty-false [] h p = cc
empty-false (x ∷ xs) h p = cc

-- A sequence that has positions, each with words.
Filled : Sequence → Type 0
Filled sequence = (sequence ≢ []) × All (λ position. words_of position ≢ []) sequence

empty_sequence-false : (sequence : Sequence) → empty_sequence sequence ≡ false → Filled sequence
unfolding Filled
empty_sequence-false sequence h =
    let (some_position, words) = ||-false (empty sequence) _ h in
    (
      empty-false sequence some_position,
      All-of _ sequence (λ position i.
          empty-false (words_of position) (any-false (λ p. empty (words_of p)) sequence words i)),
    )

check_sequences-ok :
    (program : Text) (key : Key) (sequences : List Sequence)
    → check_sequences program (key, some sequences) ≡ ok tt
    → (sequences ≢ []) × All Filled sequences
unfolding check_sequences
check_sequences-ok program key sequences h =
    let (nonempty, filled) = ||-false (empty sequences) _ (reject_if-ok _ _ h) in
    (
      empty-false sequences nonempty,
      All-of Filled sequences (λ sequence i.
          empty_sequence-false sequence (any-false empty_sequence sequences filled i)),
    )

module _ {Regex : Type 0} (compile : Text → Option Regex) (is_match : Regex → Text → Bool)
    (shlex_split : Text → Option (List Text)) where
  -- The checks of `validate` that its promises come from.
  record Validated (rule : GuardRule) : Type 0 where
    sequences : check_sequence_lists rule ≡ ok tt
    patterns : check_patterns compile is_match shlex_split rule ≡ ok tt
    examples : check_examples compile is_match shlex_split rule ≡ ok tt

  validate-Validated :
      (rule : GuardRule) → validate compile is_match shlex_split rule ≡ ok tt → Validated rule
  unfolding validate
  validate-Validated rule h =
      let (_, h1) = >>-eq-ok (check_head rule) _ h in
      let (sequences, h2) = >>-eq-ok (check_sequence_lists rule) _ h1 in
      let (_, h3) = >>-eq-ok (check_lists rule) _ h2 in
      let (_, h4) = >>-eq-ok (check_values rule.program rule.deny_option_values) _ h3 in
      let (patterns, examples) = >>-eq-ok (check_patterns compile is_match shlex_split rule) _ h4 in
      record { sequences = sequences; patterns = patterns; examples = examples }

  -- In a validated rule the `for`, `deny` and `only` lists that are written are not empty, every sequence
  -- in them has a position, and every position has a word.
  validate-Filled :
      (rule : GuardRule) {sequences : List Sequence}
      → validate compile is_match shlex_split rule ≡ ok tt
      → In (some sequences) (rule.for_ ∷ rule.deny ∷ rule.only ∷ [])
      → (sequences ≢ []) × All Filled sequences
  unfolding check_sequence_lists
  validate-Filled rule {sequences} h m =
      let v = (validate-Validated rule h).sequences in
      elim m [
        | here e ↦ check_sequences-ok rule.program for_key sequences (
            subst (λ z. check_sequences rule.program (for_key, z) ≡ ok tt) (sym e)
              (for_each-ok _ _ v (here refl)))
        | there (here e) ↦ check_sequences-ok rule.program deny_key sequences (
            subst (λ z. check_sequences rule.program (deny_key, z) ≡ ok tt) (sym e)
              (for_each-ok _ _ v (there (here refl))))
        | there (there (here e)) ↦ check_sequences-ok rule.program only_key sequences (
            subst (λ z. check_sequences rule.program (only_key, z) ≡ ok tt) (sym e)
              (for_each-ok _ _ v (there (there (here refl)))))
        | there (there (there last)) ↦ elim last [ ]
      ]

  -- In a validated rule no pattern of its sequences or option values is a broken regular expression.
  validate-compiles :
      (rule : GuardRule) {pattern : Text}
      → validate compile is_match shlex_split rule ≡ ok tt
      → In pattern (patterns_of rule)
      → regular_expression compile is_match pattern ≢ some none
  unfolding check_patterns check_pattern
  validate-compiles rule {pattern} h i broken =
      let v =
        for_each-ok (check_pattern compile is_match shlex_split rule.program) (patterns_of rule)
          (validate-Validated rule h).patterns i in
      cc (rw (broken, check_pattern) at v)

  verdict :
      (denied is_denied : Bool) (e f : Invalid)
      → (if denied then reject_if (not is_denied) e else reject_if is_denied f) ≡ ok tt
      → is_denied ≡ denied
  verdict true true e f h = refl
  verdict true false e f h = cc
  verdict false true e f h = cc
  verdict false false e f h = refl

  check_example-ok :
      (rule : GuardRule) (example : Text) (denied : Bool)
      → check_example compile is_match shlex_split rule denied example ≡ ok tt
      → (words : List Text) × (shlex_split example ≡ some words)
        × (run_example compile is_match shlex_split rule example denied
              (split_assignments words).0
              (split_assignments words).1
            ≡ ok tt)
  unfolding check_example
  check_example-ok rule example denied h = elim (Option-cases (shlex_split example)) [
    | inl e ↦ absurd (cc (rw (e, check_example) at h))
    | inr (words, e) ↦ (words, e, rw (e, check_example) at h)
  ]

  each_example :
      (rule : GuardRule) {example : Text} (denied : Bool)
      → check_examples compile is_match shlex_split rule ≡ ok tt
      → In example (if denied then entries rule.examples.deny else entries rule.examples.allow)
      → check_example compile is_match shlex_split rule denied example ≡ ok tt
  unfolding check_examples
  each_example rule true h i =
      let (first, _) =
        >>-eq-ok
          (for_each (check_example compile is_match shlex_split rule true)
            (entries rule.examples.deny))
          _ h in
      for_each-ok _ _ first i
  each_example rule false h i =
      let (_, second) =
        >>-eq-ok
          (for_each (check_example compile is_match shlex_split rule true)
            (entries rule.examples.deny))
          _ h in
      for_each-ok _ _ second i

  run_example-ok :
      (rule : GuardRule) (example : Text) (denied : Bool) (assignments command : List Text)
      → run_example compile is_match shlex_split rule example denied assignments command ≡ ok tt
      → (arguments : List Text) × (command ≡ rule.program ∷ arguments)
        × (is_some (
              evaluate compile is_match
                (rule ∷ [])
                arguments
                (filter_map assigned_name assignments))
            ≡ denied)
  unfolding run_example
  run_example-ok rule example denied assignments [] h = cc
  run_example-ok rule example denied assignments (program ∷ arguments) h =
      let is_denied =
        is_some (
          evaluate compile is_match (rule ∷ []) arguments (filter_map assigned_name assignments)) in
      elim (Bool-cases (program == rule.program)) [
        | inr other ↦ absurd (cc (rw other at h))
        | inl same ↦ (
          arguments,
          ap (λ p. p ∷ arguments) (eq_of program rule.program same),
          verdict denied is_denied _ _ (rw same at h),
        )
      ]

  -- The examples of a validated rule hold: a `deny` example starts with the rule's program and the rule
  -- alone denies it, and an `allow` example starts with it and the rule alone lets it run, each in the
  -- environment that its leading assignments name.
  validate-examples :
      (rule : GuardRule) {example : Text}
      → validate compile is_match shlex_split rule ≡ ok tt
      → (denied : Bool)
      → In example (if denied then entries rule.examples.deny else entries rule.examples.allow)
      → (words arguments : List Text) × (shlex_split example ≡ some words)
        × ((split_assignments words).1 ≡ rule.program ∷ arguments)
        × (is_some (
              evaluate compile is_match
                (rule ∷ [])
                arguments
                (filter_map assigned_name (split_assignments words).0))
            ≡ denied)
  validate-examples rule {example} h denied i =
      let (words, e, r) =
        check_example-ok rule example denied
          (each_example rule denied (validate-Validated rule h).examples i) in
      let (arguments, command, verdict) = run_example-ok rule example denied _ _ r in
      (words, arguments, e, command, verdict)
