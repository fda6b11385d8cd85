-- ===== src/Guard/Laws.antt =====
-- crates/kakoi-policy/src/guard.rs: what `evaluate` denies and what it lets run.
use kakoi.Prelude.{
  Bool, true, false, Option, none, some, List, [], ◌∷◌, map, any, any-of, any-false, any-true, find,
  find-none, find_map, find_map-none, find_map-some, ◌∙◌, is_some, list_eq, nat_eq, length, take,
  drop, ltb, ◌≡◌, refl, sym, ap, subst, ◌↔◌, ◌⊎◌, inl, inr, arith, In, Option-cases, Bool-cases,
  All, All-of,
}
use kakoi.Policy.{Text}
use kakoi.Guard.{
  Position, Sequence, words_of, GuardRule, word_matches, prefix_words, prefix, flag_matches,
}
use kakoi.Prelude.Utf8.{to_str}
use kakoi.Guard.Evaluate.{
  Shown, Denial, skipped, separator_at, denied_env, denied_flag, denied_flags, denied_sequence,
  denied_option, denial, applies, outside, outside_only, denied_by, evaluate, covers_some, as_words,
  wildcard_accepts, ◌or_else◌,
}

or_else-none {ℓ} : {A : Type ℓ} (a b : Option A) → (a or_else b) ≡ none → (a ≡ none) × (b ≡ none)
or_else-none none b h = (refl, h)
or_else-none (some a) b h = cc

as_words-none : (o : Option Text) → as_words o ≡ none → o ≡ none
as_words-none none h = refl
as_words-none (some w) h = cc

denied_by-some :
    (rule : GuardRule) (o : Option Shown) {d : Denial}
    → denied_by rule o ≡ some d
    → (d.program ≡ rule.program) × (d.reason ≡ rule.reason) × (o ≡ some d.matched)
denied_by-some rule none h = cc
denied_by-some rule (some x) {d} h =
    let e : record { program = rule.program; matched = x; reason = rule.reason } ≡ d = cc in
    (ap (λ z. z.program) (sym e), ap (λ z. z.reason) (sym e), ap (λ z. some z.matched) e)

denied_env-none :
    (patterns : List Text) (environment : List Text)
    → denied_env (some patterns) environment ≡ none
    → (pattern name : Text) → In pattern patterns
    → In name environment
    → wildcard_accepts pattern name ≡ false
unfolding denied_env
denied_env-none patterns environment h pattern name i m =
    let test : Text → Bool = λ n. any (λ p. wildcard_accepts p n) patterns in
    elim (Option-cases (find test environment)) [
      | inl e ↦ any-false (λ p. wildcard_accepts p name) patterns (find-none test environment e m) i
      | inr (n, e) ↦ absurd (cc (rw (e, denied_env) at h))
    ]

denied_flags-none :
    (flags : List Text) (before : List (Option Text))
    → denied_flags (some flags) before ≡ none
    → (flag w : Text) → In flag flags
    → In (some w) before
    → flag_matches flag w ≡ false
unfolding denied_flags denied_flag
denied_flags-none flags before h flag w i m =
    let missed : denied_flag flags (some w) ≡ none =
      find_map-none (λ z. denied_flag flags z) before h m in
    elim (Option-cases (find (λ f. flag_matches f w) flags)) [
      | inl e ↦ find-none (λ f. flag_matches f w) flags e i
      | inr (n, e) ↦ absurd (cc (rw (e, denied_flag) at missed))
    ]

module _ {Regex : Type 0} (compile : Text → Option Regex) (is_match : Regex → Text → Bool) where
  -- Each position of the sequence accepts the word of the run in its place.
  pub data Covers : Sequence → List (Option Text) → Type 0 where
    end : {rest : List (Option Text)} → Covers [] rest
    next :
        {position : Position} {pattern w : Text} {sequence : Sequence} {rest : List (Option Text)}
        → In pattern (words_of position)
        → word_matches compile is_match pattern w ≡ true
        → Covers sequence rest
        → Covers (position ∷ sequence) (some w ∷ rest)

  Covers-prefix_words :
      {sequence : Sequence} {rest : List (Option Text)}
      → Covers sequence rest
      → (matched : List Text) × (prefix_words compile is_match sequence rest ≡ some matched)
  unfolding prefix_words
  Covers-prefix_words end = ([], refl)
  Covers-prefix_words (next {position} {pattern} {w} {sequence} {rest} m h c) =
      let (matched, e) = Covers-prefix_words c in
      let hit = any-of (λ p. word_matches compile is_match p w) (words_of position) m h in
      (w ∷ matched, rw (hit, e, prefix_words) refl)

  Covers-length :
      {sequence : Sequence} {rest : List (Option Text)}
      → Covers sequence rest
      → ltb (length rest) (length sequence) ≡ false
  Covers-length end = ground arith
  Covers-length (next m h c) = ground (arith, Covers-length c)

  prefix_words-Covers :
      (sequence : Sequence) (rest : List (Option Text)) {matched : List Text}
      → prefix_words compile is_match sequence rest ≡ some matched
      → Covers sequence rest
  unfolding prefix_words
  prefix_words-Covers [] rest h = end
  prefix_words-Covers (position ∷ sequence) [] h = cc
  prefix_words-Covers (position ∷ sequence) (none ∷ rest) h = cc
  prefix_words-Covers (position ∷ sequence) (some w ∷ rest) h =
      elim (Bool-cases (any (λ p. word_matches compile is_match p w) (words_of position))) [
        | inl hit ↦ elim (Option-cases (prefix_words compile is_match sequence rest)) [
          | inl e ↦ absurd (cc (rw (hit, e, prefix_words) at h))
          | inr (more, e) ↦
              let (pattern, m, q) =
                any-true (λ p. word_matches compile is_match p w) (words_of position) hit in
              next m q (prefix_words-Covers sequence rest e)
        ]
        | inr miss ↦ absurd (cc (rw (miss, prefix_words) at h))
      ]

  -- `prefix` finds a match exactly when the sequence covers the front of the words.
  prefix_iff :
      (sequence : Sequence) (rest : List (Option Text))
      → (is_some (prefix compile is_match sequence rest) ≡ true) ↔ Covers sequence rest
  unfolding prefix
  prefix_iff sequence rest = (
    λ h. elim (Bool-cases (ltb (length rest) (length sequence))) [
      | inl short ↦ absurd (cc (rw short at h))
      | inr long ↦ elim (Option-cases (prefix_words compile is_match sequence rest)) [
        | inl e ↦ absurd (cc (rw (long, e) at h))
        | inr (more, e) ↦ prefix_words-Covers sequence rest e
      ]
    ],
    λ c. let (matched, e) = Covers-prefix_words c in rw (Covers-length c, e) refl,
  )

  -- No sequence of the list covers the words when none has a prefix match.
  covers_some-false :
      (sequences : List Sequence) {sequence : Sequence} (rest : List (Option Text))
      → covers_some compile is_match sequences rest ≡ false
      → In sequence sequences
      → ¬ Covers sequence rest
  covers_some-false sequences {sequence} rest h m c =
      let missed = any-false (λ q. is_some (prefix compile is_match q rest)) sequences h m in
      let hit = (prefix_iff sequence rest).1 c in cc

  denied_by-none : (rule : GuardRule) (o : Option Shown) → denied_by rule o ≡ none → o ≡ none
  denied_by-none rule none h = refl
  denied_by-none rule (some x) h = cc

  -- When `evaluate` lets a run start, no rule denies it, and none has it outside its `only`.
  evaluate-none :
      (rules : List GuardRule) (arguments environment : List Text) {rule : GuardRule}
      → evaluate compile is_match rules arguments environment ≡ none
      → In rule rules
      → (denial compile is_match rule arguments (map to_str arguments) environment ≡ none)
        × (outside_only compile is_match rule arguments (map to_str arguments) ≡ none)
  unfolding evaluate
  evaluate-none rules arguments environment {rule} h m =
      let words = map to_str arguments in
      let by_denial : GuardRule → Option Denial =
        λ r. denied_by r (denial compile is_match r arguments words environment) in
      let by_only : GuardRule → Option Denial =
        λ r. denied_by r (outside_only compile is_match r arguments words) in
      let (first, second) = or_else-none (find_map by_denial rules) (find_map by_only rules) h in
      (
        denied_by-none rule _ (find_map-none by_denial rules first m),
        denied_by-none rule _ (find_map-none by_only rules second m),
      )

  -- A rule that denies nothing has no `deny` sequence that covers the words after the skipping, and,
  -- where the rule applies, no denied variable, flag or option value.
  denial-none :
      (rule : GuardRule) (arguments environment : List Text) (words : List (Option Text))
      → denial compile is_match rule arguments words environment ≡ none
      → (denied_sequence compile is_match rule.deny (drop (skipped rule arguments) words) ≡ none)
        × (applies compile is_match rule (drop (skipped rule arguments) words) ≡ true
            → (denied_env rule.deny_env environment ≡ none)
              × (denied_flags rule.deny_flags (take (separator_at arguments) words) ≡ none)
              × (denied_option compile is_match rule.deny_option_values
                    (take (separator_at arguments) words)
                  ≡ none))
  unfolding denial
  denial-none rule arguments environment words h =
      elim (Bool-cases (applies compile is_match rule (drop (skipped rule arguments) words))) [
        | inl yes_a ↦
            let (h1, no_option) = or_else-none _ _ (rw yes_a at h) in
            let (h2, no_flags) = or_else-none _ _ h1 in
            let (no_env, no_deny) = or_else-none _ _ h2 in
            (no_deny, λ _. (no_env, no_flags, no_option))
        | inr no_a ↦ (rw no_a at h, λ y. absurd cc)
      ]

  -- A run that the rules let start has, for no rule, words after the skipped options that a `deny`
  -- sequence of the rule covers.
  pub evaluate-allows_no_denied_sequence :
      (rules : List GuardRule) (arguments environment : List Text) {rule : GuardRule}
      {sequences : List Sequence} {sequence : Sequence}
      → evaluate compile is_match rules arguments environment ≡ none
      → In rule rules
      → rule.deny ≡ some sequences
      → In sequence sequences
      → ¬ Covers sequence (drop (skipped rule arguments) (map to_str arguments))
  unfolding denied_sequence
  evaluate-allows_no_denied_sequence rules arguments environment {rule} {sequences} {sequence} h m d
        i c =
      let rest = drop (skipped rule arguments) (map to_str arguments) in
      let (no_denial, _) = evaluate-none rules arguments environment h m in
      let (no_sequence, _) =
        denial-none rule arguments environment (map to_str arguments) no_denial in
      let missed =
        find_map-none (λ q. prefix compile is_match q rest) sequences
          (as_words-none _
            (subst (λ z. denied_sequence compile is_match z rest ≡ none) d no_sequence))
          i in
      let hit = (prefix_iff sequence rest).1 c in cc

  -- When the rules let a run start, no rule that applies to it has a `deny-env` wildcard that accepts
  -- the name of a variable of its environment.
  evaluate-allows_no_variable :
      (rules : List GuardRule) (arguments environment : List Text) {rule : GuardRule}
      {patterns : List Text} {pattern name : Text}
      → evaluate compile is_match rules arguments environment ≡ none
      → In rule rules
      → applies compile is_match rule (drop (skipped rule arguments) (map to_str arguments)) ≡ true
      → rule.deny_env ≡ some patterns
      → In pattern patterns
      → In name environment
      → wildcard_accepts pattern name ≡ false
  evaluate-allows_no_variable rules arguments environment {rule} {patterns} {pattern} {name} h m a d
        i n =
      let (no_denial, _) = evaluate-none rules arguments environment h m in
      let (_, rest) = denial-none rule arguments environment (map to_str arguments) no_denial in
      let (no_env, _, _) = rest a in
      denied_env-none patterns environment (subst (λ z. denied_env z environment ≡ none) d no_env)
        pattern name i n

  -- When the rules let a run start, no rule that applies to it has a `deny-flags` flag that a word before
  -- the first `--` matches, for a word that is text.
  evaluate-allows_no_flag :
      (rules : List GuardRule) (arguments environment : List Text) {rule : GuardRule}
      {flags : List Text} {flag w : Text}
      → evaluate compile is_match rules arguments environment ≡ none
      → In rule rules
      → applies compile is_match rule (drop (skipped rule arguments) (map to_str arguments)) ≡ true
      → rule.deny_flags ≡ some flags
      → In flag flags
      → In (some w) (take (separator_at arguments) (map to_str arguments))
      → flag_matches flag w ≡ false
  evaluate-allows_no_flag rules arguments environment {rule} {flags} {flag} {w} h m a d i n =
      let before = take (separator_at arguments) (map to_str arguments) in
      let (no_denial, _) = evaluate-none rules arguments environment h m in
      let (_, rest) = denial-none rule arguments environment (map to_str arguments) no_denial in
      let (_, no_flags, _) = rest a in
      denied_flags-none flags before (subst (λ z. denied_flags z before ≡ none) d no_flags) flag w i
        n

  -- When the rules let a run start, every rule with an `only` list that applies to it has a sequence in
  -- that list that covers the words after the skipped options.
  pub evaluate-allows_only :
      (rules : List GuardRule) (arguments environment : List Text) {rule : GuardRule}
      {only : List Sequence}
      → evaluate compile is_match rules arguments environment ≡ none
      → In rule rules
      → rule.only ≡ some only
      → applies compile is_match rule (drop (skipped rule arguments) (map to_str arguments)) ≡ true
      → (sequence : Sequence) × In sequence only
        × Covers sequence (drop (skipped rule arguments) (map to_str arguments))
  unfolding outside
  evaluate-allows_only rules arguments environment {rule} {only} h m o a =
      let rest = drop (skipped rule arguments) (map to_str arguments) in
      let (_, inside) = evaluate-none rules arguments environment h m in
      elim (Bool-cases (covers_some compile is_match only rest)) [
        | inl covered ↦
            let (sequence, i, q) =
              any-true (λ s. is_some (prefix compile is_match s rest)) only covered in
            (sequence, i, (prefix_iff sequence rest).0 q)
        | inr missed ↦
            let inside' : outside compile is_match (some only) rule arguments (map to_str arguments)
                ≡ none =
              subst (λ z. outside compile is_match z rule arguments (map to_str arguments) ≡ none) o
                inside in
            absurd (cc (rw (a, missed) at inside'))
      ]

  -- A denial is by one of the rules, with its program and reason: either the rule itself denies the run,
  -- or no rule does and the run is outside the rule's `only`.
  evaluate-denies :
      (rules : List GuardRule) (arguments environment : List Text) {d : Denial}
      → evaluate compile is_match rules arguments environment ≡ some d
      → (rule : GuardRule) × In rule rules
        × (d.program ≡ rule.program)
        × (d.reason ≡ rule.reason)
        × ((denial compile is_match rule arguments (map to_str arguments) environment
              ≡ some d.matched)
            ⊎ ((outside_only compile is_match rule arguments (map to_str arguments)
                  ≡ some d.matched)
                × All
                    (λ other.
                      denial compile is_match other arguments (map to_str arguments) environment
                      ≡ none)
                    rules))
  unfolding evaluate
  evaluate-denies rules arguments environment {d} h =
      let words = map to_str arguments in
      let by_denial : GuardRule → Option Denial =
        λ r. denied_by r (denial compile is_match r arguments words environment) in
      let by_only : GuardRule → Option Denial =
        λ r. denied_by r (outside_only compile is_match r arguments words) in
      elim (Option-cases (find_map by_denial rules)) [
        | inr (x, e) ↦
            let same : x ≡ d = cc (rw e at h) in
            let (rule, m, q) = find_map-some by_denial rules (e ∙ ap some same) in
            let (p, r, s) = denied_by-some rule _ q in (rule, m, p, r, inl s)
        | inl e ↦
            let (rule, m, q) = find_map-some by_only rules (rw e at h) in
            let (p, r, s) = denied_by-some rule _ q in
            (
              rule,
              m,
              p,
              r,
              inr (
                s,
                All-of _ rules
                    (λ other i. denied_by-none other _ (find_map-none by_denial rules e i)),
              ),
            )
      ]
