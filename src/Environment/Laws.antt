-- ===== src/Environment/Laws.antt =====
-- crates/kakoi-plan/src/isolated_env.rs: what the variables of the isolation are.
use kakoi.Prelude.{
  ℕ, ◌+◌, Bool, true, false, not, ◌&&◌, ◌||◌, List, [], ◌∷◌, ◌++◌, get, length, ltb, ok, ok_same,
  Result-cases, ◌==◌, ne_of, nat_eq, list_eq, list_beq, ◌≡◌, ◌≢◌, refl, sym, ◌∙◌, ap, inl, inr,
  arith, Bool-cases, Option-cases, ||-false,
}
use kakoi.Policy.{Text, codes}
use kakoi.Guard.Words.{begins_with}
use kakoi.Environment.Maps.{insert, get-insert_other}
use kakoi.Environment.Texts.{decimal}
use kakoi.Environment.{
  Values, EnvPolicy, SecretFile, Applied, apply_secrets, number_entries, apply_instead_of,
  prepend_path, before_secrets, Assembled, assemble_environment, git_count, usize_limit,
}

abbrev pub is_empty {ℓ} : {A : Type ℓ} → List A → Bool
is_empty [] = true
is_empty (x ∷ xs) = false

-- A name that the stages after the secrets may write.
abbrev pub written_later : Values → List Text → Text → Bool
written_later instead_of path_prepend name =
    begins_with (codes "GIT_CONFIG_") name && not (is_empty instead_of)
    || (name == codes "PATH" && not (is_empty path_prepend) || name == codes "KAKOI")

not_first : (x y z : Bool) → (x && not y || z) ≡ false → y ≡ false → x ≡ false
not_first x y z h k = ground arith

prefixed_apart :
    (name rest : Text)
    → begins_with (codes "GIT_CONFIG_") name ≡ false
    → begins_with (codes "GIT_CONFIG_") rest ≡ true
    → name ≢ rest
prefixed_apart name rest h k p = let q = ap (begins_with (codes "GIT_CONFIG_")) p in cc

number_entries-get :
    (name : Text) (number : ℕ) (entries values : Values)
    → begins_with (codes "GIT_CONFIG_") name ≡ false
    → get name (number_entries number entries values) ≡ get name values
unfolding number_entries begins_with
number_entries-get name number [] values h = refl
number_entries-get name number ((original, replacement) ∷ more) values h =
    let key = codes "GIT_CONFIG_KEY_" ++ decimal number in
    let value = codes "GIT_CONFIG_VALUE_" ++ decimal number in
    let text = codes "url." ++ (replacement ++ codes ".insteadof") in
    number_entries-get name (number + 1) more (insert value original (insert key text values)) h
    ∙ get-insert_other name value original (insert key text values)
        (prefixed_apart name value h refl)
    ∙ get-insert_other name key text values (prefixed_apart name key h refl)

instead_of-get :
    (name : Text) (instead_of values : Values) {after : Values}
    → (begins_with (codes "GIT_CONFIG_") name && not (is_empty instead_of)) ≡ false
    → apply_instead_of instead_of values ≡ ok after
    → get name after ≡ get name values
unfolding apply_instead_of begins_with list_beq
instead_of-get name [] values h e = ap (get name) (sym (ok_same e))
instead_of-get name (entry ∷ more) values {after} h e =
    elim (Result-cases (git_count (get (codes "GIT_CONFIG_COUNT") values))) [
      | inl (f, bad) ↦ absurd (cc (rw (bad, apply_instead_of) at e))
      | inr (count, good) ↦ elim (Bool-cases (ltb (count + length (entry ∷ more)) usize_limit)) [
        | inr large ↦ absurd (cc (rw (good, large, apply_instead_of) at e))
        | inl small ↦
            let fresh : begins_with (codes "GIT_CONFIG_") name ≡ false = ground (arith, h) in
            ap (get name) (sym (ok_same (rw (good, small, apply_instead_of) at e)))
            ∙ get-insert_other name (codes "GIT_CONFIG_COUNT") _ _
                (prefixed_apart name (codes "GIT_CONFIG_COUNT") fresh refl)
            ∙ number_entries-get name count (entry ∷ more) values fresh
      ]
    ]

path-get :
    (name : Text) (path_prepend : List Text) (values : Values)
    → (name == codes "PATH" && not (is_empty path_prepend)) ≡ false
    → get name (prepend_path path_prepend values) ≡ get name values
unfolding prepend_path list_beq
path-get name [] values h = refl
path-get name (entry ∷ more) values h =
    let other : (name == codes "PATH") ≡ false = ground (arith, h) in
    elim (Option-cases (get (codes "PATH") values)) [
      | inl gone ↦
          rw (gone, prepend_path)
            (get-insert_other name (codes "PATH") _ values (ne_of name (codes "PATH") other))
      | inr (v, found) ↦
          rw (found, prepend_path)
            (get-insert_other name (codes "PATH") _ values (ne_of name (codes "PATH") other))
    ]

-- The stages after the secrets leave a variable as it is unless they write it.
pub later_stages-get :
    (name : Text) (policy : EnvPolicy) (host : Values) (files : List (Text × SecretFile))
    (path_prepend : List Text) {applied : Applied} {assembled : Assembled}
    → written_later policy.instead_of path_prepend name ≡ false
    → apply_secrets policy.secrets files (before_secrets policy host) ≡ ok applied
    → assemble_environment policy host files path_prepend ≡ ok assembled
    → (get name assembled.environment.values ≡ get name applied.values)
      × (assembled.environment.secret_names ≡ applied.secret_names)
unfolding assemble_environment
later_stages-get name policy host files path_prepend {applied} {assembled} h a e =
    elim (Result-cases (apply_instead_of policy.instead_of applied.values)) [
      | inl (f, bad) ↦ absurd (cc (rw (a, bad, assemble_environment) at e))
      | inr (values, good) ↦
          let same = ok_same (rw (a, good, assemble_environment) at e) in
          let git = begins_with (codes "GIT_CONFIG_") name && not (is_empty policy.instead_of) in
          let path = name == codes "PATH" && not (is_empty path_prepend) in
          let (not_git, rest) = ||-false git (path || name == codes "KAKOI") h in
          let (not_path, not_kakoi) = ||-false path (name == codes "KAKOI") rest in
          (
            ap (λ (z : Assembled). get name z.environment.values) (sym same)
                ∙ get-insert_other name (codes "KAKOI") (codes "1")
                    (prepend_path path_prepend values) (ne_of name (codes "KAKOI") not_kakoi)
                ∙ path-get name path_prepend values not_path
                ∙ instead_of-get name policy.instead_of applied.values not_git good,
            ap (λ (z : Assembled). z.environment.secret_names) (sym same),
          )
    ]
