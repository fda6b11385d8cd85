-- ===== src/Environment/Inherited.antt =====
-- crates/kakoi-plan/src/isolated_env.rs: which of the host's variables come in.
use kakoi.Prelude.{
  Bool, true, false, not, none, some, List, [], ◌∷◌, get, any, if◌then◌else◌, ok, ◌==◌, eq_of,
  ne_of, nat_eq, list_eq, filter_map, contains, ◌≡◌, ◌≢◌, refl, sym, ◌∙◌, ap, subst, inl, inr,
  Bool-cases, Option-cases, All,
}
use kakoi.Policy.{Text}
use kakoi.Guard.Evaluate.{wildcard_accepts}
use kakoi.Environment.Maps.{
  insert, extend, get-insert, get-insert_other, get-retain, get-retain-none,
}
use kakoi.Environment.{
  Values, EnvMode, inherit, clear, EnvPolicy, SecretFile, pass_one, unset, set_values,
  initial_values, before_secrets, Assembled, assemble_environment,
}
use kakoi.Environment.Laws.{written_later, later_stages-get}
use kakoi.Environment.Secrets.{secret_name, assembled_secrets, apply_secrets-others}

-- The names that the first stage takes from the host.
abbrev pub passes : EnvMode → List Text → Text → Bool
passes inherit pass name = true
passes clear pass name = contains pass name

-- A name that an unset pattern matches.
abbrev pub is_unset : List Text → Text → Bool
is_unset patterns name = any (λ pattern. wildcard_accepts pattern name) patterns

-- A map that already has the host's value keeps it while more names are passed.
passed_stays :
    (name : Text) (pass : List Text) (host m : Values)
    → get name m ≡ get name host
    → get name (extend (filter_map (pass_one host) pass) m) ≡ get name host
unfolding filter_map pass_one extend
passed_stays name [] host m h = h
passed_stays name (first ∷ more) host m h = elim (Option-cases (get first host)) [
  | inl gone ↦
      let skipped : pass_one host first ≡ none = rw (gone, pass_one) refl in
      rw (skipped, filter_map) (passed_stays name more host m h)
  | inr (value, found) ↦
      let taken : pass_one host first ≡ some (first, value) = rw (found, pass_one) refl in
      rw (taken, filter_map, extend)
        (passed_stays name more host (insert first value m) (inserted first value found))
]
  where
    inserted :
        (first value : Text)
        → get first host ≡ some value
        → get name (insert first value m) ≡ get name host
    inserted first value found = elim (Bool-cases (first == name)) [
      | inl same ↦
          subst (λ z. get z (insert first value m) ≡ get z host) (eq_of first name same)
            (get-insert first value m ∙ sym found)
      | inr other ↦ get-insert_other name first value m (λ p. ne_of first name other (sym p)) ∙ h
    ]

passed :
    (name : Text) (pass : List Text) (host m : Values)
    → get name m ≡ none
    → get name (extend (filter_map (pass_one host) pass) m)
      ≡ (if any (λ x. x == name) pass then get name host else none)
unfolding any filter_map pass_one extend
passed name [] host m h = h
passed name (first ∷ more) host m h = elim (Option-cases (get first host)) [
  | inl gone ↦
      let skipped : pass_one host first ≡ none = rw (gone, pass_one) refl in
      elim (Bool-cases (first == name)) [
        | inl same ↦
            let absent : get name host ≡ none =
              subst (λ z. get z host ≡ none) (eq_of first name same) gone in
            rw (skipped, filter_map, same) (passed_stays name more host m (h ∙ sym absent))
        | inr other ↦ rw (skipped, filter_map, other) (passed name more host m h)
      ]
  | inr (value, found) ↦
      let taken : pass_one host first ≡ some (first, value) = rw (found, pass_one) refl in
      let next = insert first value m in
      elim (Bool-cases (first == name)) [
        | inl same ↦
            rw (taken, filter_map, extend, same)
              (passed_stays name more host next (
                subst (λ z. get z next ≡ get z host) (eq_of first name same)
                  (get-insert first value m ∙ sym found)))
        | inr other ↦
            rw (taken, filter_map, extend, other)
              (passed name more host next
                (get-insert_other name first value m (λ p. ne_of first name other (sym p)) ∙ h))
      ]
]

first_stage :
    (name : Text) (mode : EnvMode) (pass : List Text) (host : Values)
    → get name (initial_values mode pass host)
      ≡ (if passes mode pass name then get name host else none)
unfolding initial_values get
first_stage name inherit pass host = refl
first_stage name clear pass host = passed name pass host [] refl

set_values-others :
    (name : Text) (set values : Values)
    → All (λ e. name ≢ e.0) set
    → get name (set_values set values) ≡ get name values
unfolding set_values
set_values-others name [] values h = refl
set_values-others name ((other, value) ∷ more) values h =
    set_values-others name more (insert other value values) h.1
    ∙ get-insert_other name other value values h.0

unset-get :
    (name : Text) (patterns : List Text) (values : Values)
    → get name (unset patterns values) ≡ (if is_unset patterns name then none else get name values)
unfolding unset
unset-get name patterns values = elim (Bool-cases (is_unset patterns name)) [
  | inl out ↦ rw out (get-retain-none name (λ n. not (is_unset patterns n)) values (rw out refl))
  | inr stays ↦ rw stays (get-retain name (λ n. not (is_unset patterns n)) values (rw stays refl))
]

-- When the environment is assembled, a variable that is neither set nor a secret and that no later
-- stage writes is the host's when the mode takes it from the host and no unset pattern matches its
-- name, and is unset otherwise.
pub assemble-inherited :
    (policy : EnvPolicy) (host : Values) (files : List (Text × SecretFile)) (paths : List Text)
    (name : Text) {assembled : Assembled}
    → All (λ e. name ≢ e.0) policy.env_set
    → All (λ s. name ≢ secret_name s) policy.secrets
    → written_later policy.instead_of paths name ≡ false
    → assemble_environment policy host files paths ≡ ok assembled
    → get name assembled.environment.values ≡ (
        if is_unset policy.env_unset name
        then none
        else if passes policy.env_mode policy.env_pass name
        then get name host
        else none)
assemble-inherited policy host files paths name s n w h =
    let (applied, good) = assembled_secrets policy host files paths h in
    let (same, names) = later_stages-get name policy host files paths w good h in
    let start = initial_values policy.env_mode policy.env_pass host in
    same
    ∙ apply_secrets-others name policy.secrets files (before_secrets policy host) n good
    ∙ set_values-others name policy.env_set (unset policy.env_unset start) s
    ∙ unset-get name policy.env_unset start
    ∙ ap (λ z. if is_unset policy.env_unset name then none else z)
        (first_stage name policy.env_mode policy.env_pass host)
