-- ===== src/Environment.antt =====
-- crates/kakoi-plan/src/isolated_env.rs: the environment inside the isolation. A name and a value are
-- lists of bytes; a `BTreeMap` is an association list in the order of its keys (Environment/Maps), and what
-- the code walks is that list.
pub mod Maps
pub mod Texts
pub mod Laws
pub mod Secrets
pub mod Inherited
pub mod Count
pub mod Changes
use kakoi.Prelude.{
  ℕ, ◌+◌, ◌*◌, ◌-◌, ◌^◌, Bool, true, false, not, ◌&&◌, ◌||◌, Option, none, some, List, [], ◌∷◌,
  ◌++◌, map, get, any, all, select, filter_map, length, if◌then◌else◌, eqb, leb, ltb, Result, ok,
  err, Eq, ◌==◌, nat_eq, list_eq,
}
use kakoi.Policy.{Text, codes, PolicyPath}
use kakoi.Ports.{digit, value_of}
use kakoi.Environment.Maps.{insert, remove, retain, extend}
use kakoi.Environment.Texts.{decimal, strip_line_end, join_paths}
use kakoi.Guard.Evaluate.{wildcard_accepts}

abbrev pub Values : Type 0
Values = List (Text × Text)

abbrev pub secret_value_limit : ℕ
secret_value_limit = 64 * 1024

-- `EnvMode` of crates/kakoi-policy/src/policy.rs.
pub data EnvMode : Type 0 where
  inherit clear : EnvMode

-- The fields of the merged policy that the environment is made from.
pub record EnvPolicy : Type 0 where
  pub env_mode : EnvMode
  pub env_pass : List Text
  pub env_set : Values
  pub env_unset : List Text
  pub secrets : List (Text × PolicyPath)
  pub instead_of : Values

pub data SecretFile : Type 0 where
  absent : SecretFile
  bytes : List ℕ → SecretFile
  unreadable : Text → SecretFile
  read_failure : Text → ℕ → SecretFile

pub data EnvError : Type 0 where
  secret_unreadable : Text → PolicyPath → Text → Option ℕ → EnvError
  secret_empty : Text → EnvError
  secret_nul : Text → EnvError
  secret_long : Text → EnvError
  count_not_number : EnvError
  count_too_large : EnvError

-- A passed name with the host's value, if the host has one.
unfoldable pub pass_one : Values → Text → Option (Text × Text)
pass_one host name = elim (get name host) [ none ↦ none | some value ↦ some (name, value) ]

-- The first stage: the host's values, or those that are passed.
unfoldable pub initial_values : EnvMode → List Text → Values → Values
unfolding pass_one extend
initial_values inherit pass host = host
initial_values clear pass host = extend (filter_map (pass_one host) pass) []

-- `unset`
unfoldable pub unset : List Text → Values → Values
unset patterns values =
    retain (λ name. not (any (λ pattern. wildcard_accepts pattern name) patterns)) values

-- The loop over `env_set`.
unfoldable pub set_values : Values → Values → Values
set_values [] values = values
set_values ((name, value) ∷ more) values = set_values more (insert name value values)

-- `secret_value`
unfoldable pub secret_value : Text → List ℕ → Result EnvError Text
secret_value name content =
    let value = strip_line_end content in
    if value == []
    then err (secret_empty name)
    else if any (λ b. eqb b 0) value
    then err (secret_nul name)
    else if ltb secret_value_limit (length value)
    then err (secret_long name)
    else ok value

-- What `apply_secrets` has made so far; a warning is the name and the path of an absent file.
pub record Applied : Type 0 where
  pub values : Values
  pub secret_names : List Text
  pub warnings : List (Text × PolicyPath)

-- `secrets.get(name).unwrap_or(&SecretFile::Absent)`
abbrev pub file_of : Option SecretFile → SecretFile
file_of none = absent
file_of (some file) = file

-- The body of the loop of `apply_secrets`.
unfoldable pub apply_secret : Text → PolicyPath → SecretFile → Applied → Result EnvError Applied
apply_secret name path absent state = ok (record state {
  values = remove name state.values;
  warnings = state.warnings ++ ((name, path) ∷ []);
})
apply_secret name path (bytes content) state = elim (secret_value name content) [
  | err e ↦ err e
  | ok value ↦ ok (record state {
    values = insert name value (remove name state.values);
    secret_names = name ∷ state.secret_names;
  })
]
apply_secret name path (unreadable reason) state = err (secret_unreadable name path reason none)
apply_secret name path (read_failure reason cause) state =
    err (secret_unreadable name path reason (some cause))

unfoldable pub apply_secrets :
    List (Text × PolicyPath) → List (Text × SecretFile) → Applied → Result EnvError Applied
unfolding get
apply_secrets [] files state = ok state
apply_secrets ((name, path) ∷ more) files state =
    elim (apply_secret name path (file_of (get name files)) state) [
      | err e ↦ err e
      | ok next ↦ apply_secrets more files next
    ]

abbrev pub usize_limit : ℕ
usize_limit = 2 ^ 64

-- A text that `GIT_CONFIG_COUNT` may hold.
unfoldable pub parse_count : Text → Result EnvError ℕ
parse_count text =
    if not (text == []) && (all digit text && ltb (value_of 0 text) usize_limit)
    then ok (value_of 0 text)
    else err count_not_number

unfoldable pub git_count : Option Text → Result EnvError ℕ
git_count none = ok 0
git_count (some text) = parse_count text

-- The loop over `instead_of`, with the number of the next entry.
unfoldable pub number_entries : ℕ → Values → Values → Values
number_entries number [] values = values
number_entries number ((original, replacement) ∷ more) values = number_entries (number + 1) more (
    insert (codes "GIT_CONFIG_VALUE_" ++ decimal number) original (
      insert (codes "GIT_CONFIG_KEY_" ++ decimal number)
        (codes "url." ++ (replacement ++ codes ".insteadof")) values))

-- `apply_instead_of`
unfoldable pub apply_instead_of : Values → Values → Result EnvError Values
apply_instead_of [] values = ok values
apply_instead_of (entry ∷ more) values = elim (git_count (get (codes "GIT_CONFIG_COUNT") values)) [
  | err e ↦ err e
  | ok count ↦
      if ltb (count + length (entry ∷ more)) usize_limit
      then ok (
          insert (codes "GIT_CONFIG_COUNT") (decimal (count + length (entry ∷ more)))
            (number_entries count (entry ∷ more) values))
      else err count_too_large
]

-- `prepend_path`; the entries are the bytes of paths.
unfoldable pub prepend_path : List Text → Values → Values
prepend_path [] values = values
prepend_path (entry ∷ more) values = elim (get (codes "PATH") values) [
  | none ↦ insert (codes "PATH") (join_paths (entry ∷ more)) values
  | some existing ↦
      insert (codes "PATH") (join_paths (entry ∷ more) ++ (codes ":" ++ existing)) values
]

pub record Environment : Type 0 where
  pub values : Values
  pub secret_names : List Text

pub record Assembled : Type 0 where
  pub environment : Environment
  pub warnings : List (Text × PolicyPath)

-- The stages before the secrets.
abbrev pub before_secrets : EnvPolicy → Values → Applied
before_secrets policy host = record {
  values =
      set_values policy.env_set
        (unset policy.env_unset (initial_values policy.env_mode policy.env_pass host));
  secret_names = [];
  warnings = [];
}

-- `assemble_environment`
unfoldable pub assemble_environment :
    EnvPolicy → Values → List (Text × SecretFile) → List Text → Result EnvError Assembled
assemble_environment policy host files path_prepend =
    elim (apply_secrets policy.secrets files (before_secrets policy host)) [
      | err e ↦ err e
      | ok applied ↦ elim (apply_instead_of policy.instead_of applied.values) [
        | err e ↦ err e
        | ok values ↦ ok (record {
          environment = record {
            values = insert (codes "KAKOI") (codes "1") (prepend_path path_prepend values);
            secret_names = applied.secret_names;
          };
          warnings = applied.warnings;
        })
      ]
    ]

-- `Environment::shown`
unfoldable pub shown : Environment → List (Text × Option Text)
shown environment =
    map
      (λ entry.
        (entry.0, if any (λ n. n == entry.0) environment.secret_names then none else some entry.1))
      environment.values

-- `Environment::put_first_on_path`
unfoldable put_first_on_path : Text → Environment → Environment
put_first_on_path entry environment = elim (get (codes "PATH") environment.values) [
  | none ↦ environment
  | some path ↦ record environment {
    values = insert (codes "PATH") (entry ++ (codes ":" ++ path)) environment.values;
  }
]
