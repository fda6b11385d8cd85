-- ===== src/Examples/Environment.antt =====
-- The theorems on the environment of the isolation at a small environment.
use kakoi.Prelude.{
  Option, none, List, [], ◌∷◌, ok, ◌≡◌, ◌≢◌, refl, In, here, there, get, if◌then◌else◌, list_beq,
  list_eq, nat_eq, any, all, select,
}
use kakoi.Policy.{Text, codes, home}
use kakoi.Guard.Words.{begins_with}
use kakoi.Environment.{
  Values, inherit, EnvPolicy, SecretFile, bytes, file_of, Assembled, assemble_environment, shown,
  unset, set_values, initial_values, apply_secrets, apply_secret, secret_value, apply_instead_of,
  prepend_path,
}
use kakoi.Environment.Maps.{insert, remove, before}
use kakoi.Environment.Texts.{strip_line_end}
use kakoi.Environment.Secrets.{SecretOutcome, assemble-secret, shown-hides_secret}
use kakoi.Environment.Inherited.{passes, is_unset, assemble-inherited}
use kakoi.Guard.Evaluate.{wildcard_accepts}
use kakoi.Wildcard.{matches, loop, fuel_for}

abbrev token : Text
token = codes "TOKEN"

abbrev lang : Text
lang = codes "LANG"

-- The token is a secret; LANG comes from the host, the key of the agent does not.
abbrev env_policy : EnvPolicy
env_policy = record {
  env_mode = inherit;
  env_pass = [];
  env_set = [];
  env_unset = codes "SSH_*" ∷ [];
  secrets = (token, home (codes "/token")) ∷ [];
  instead_of = [];
}

abbrev host_values : Values
host_values = (lang, codes "C") ∷ (codes "SSH_K", codes "k") ∷ (token, codes "old") ∷ []

abbrev files : List (Text × SecretFile)
files = (token, bytes (b's' ∷ b'3' ∷ b'\n' ∷ [])) ∷ []

abbrev assembled : Assembled
assembled = record {
  environment = record {
    values = (codes "KAKOI", codes "1") ∷ (lang, codes "C") ∷ (token, codes "s3") ∷ [];
    secret_names = token ∷ [];
  };
  warnings = [];
}

runs : assemble_environment env_policy host_values files [] ≡ ok assembled
unfolding assemble_environment apply_secrets apply_secret list_beq secret_value strip_line_end any
    apply_instead_of insert before prepend_path remove select set_values unset initial_values
    wildcard_accepts matches loop fuel_for get all
runs = refl

assemble-secret_example :
    SecretOutcome (file_of (get token files)) (get token assembled.environment.values)
unfolding begins_with list_beq
assemble-secret_example =
    assemble-secret env_policy host_values files [] token (home (codes "/token")) (tt, tt)
      (here refl) refl runs

hidden : In (token, none) (shown assembled.environment)
unfolding shown any list_beq
hidden = there (there (here refl))

read_token : file_of (get token files) ≡ bytes (b's' ∷ b'3' ∷ b'\n' ∷ [])
unfolding get list_beq
read_token = refl

shown-hides_secret_example : ◌≡◌ {A = Option Text} none none
shown-hides_secret_example =
    shown-hides_secret env_policy host_values files [] token (home (codes "/token")) (here refl)
      read_token runs hidden

apart : lang ≢ token
apart p = cc p

assemble-inherited_example : get lang assembled.environment.values ≡ (
    if is_unset (codes "SSH_*" ∷ []) lang
    then none
    else if passes inherit [] lang
    then get lang host_values
    else none)
unfolding begins_with list_beq
assemble-inherited_example =
    assemble-inherited env_policy host_values files [] lang tt (apart, tt) refl runs
