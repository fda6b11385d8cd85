-- ===== src/Environment/Changes.antt =====
-- crates/kakoi-plan/src/isolated_env.rs: how the environment of the isolation differs from the host's.
-- The bytes of a value stay as they are; their lossy reading as text is left to the display.
use kakoi.Prelude.{
  ℕ, suc, ◌+◌, Bool, true, false, not, Option, none, some, List, [], ◌∷◌, ◌++◌, map, get, select,
  is_some, if◌then◌else◌, ◌==◌, nat_eq, list_eq, length, length-append, ◌≡◌, ◌∙◌, arith, Bool-cases,
  inl, inr,
}
use kakoi.Policy.{Text, codes}
use kakoi.Network.Name.{strip_suffix}
use kakoi.Environment.{EnvMode, inherit, clear, Values, Environment, shown}

-- A value as it is shown: whole, or what is in front of the host's value of a name.
pub data ShownValue : Type 0 where
  whole : Text → ShownValue
  in_front : Text → Text → ShownValue

pub record EnvironmentChanges : Type 0 where
  pub inherited : Bool
  pub kept : ℕ
  pub unset : List Text
  pub set : List (Text × ShownValue)
  pub secrets : List Text

-- The part of a value in front of `:` and the host's value.
unfoldable value_in_front : Text → Text → Option Text
unfolding strip_suffix
value_in_front before value = elim (strip_suffix before value) [
  | none ↦ none
  | some prefix ↦ strip_suffix (codes ":") prefix
]

unfoldable shown_change : Text → Option Text → Text → ShownValue
unfolding value_in_front
shown_change name none value = whole value
shown_change name (some []) value = whole value
shown_change name (some (b ∷ before)) value = elim (value_in_front (b ∷ before) value) [
  | none ↦ whole value
  | some prefix ↦ in_front prefix name
]

-- A value that the host has as well.
abbrev same_before : Option Text → Text → Bool
same_before none value = false
same_before (some before) value = before == value

-- The body of the loop over the variables shown.
unfoldable change_one : Values → Text × Option Text → EnvironmentChanges → EnvironmentChanges
unfolding shown_change get
change_one host (name, none) changes = record changes { secrets = changes.secrets ++ (name ∷ []) }
change_one host (name, some value) changes =
    let before = get name host in
    if same_before before value
    then record changes { kept = changes.kept + 1 }
    else record changes { set = changes.set ++ ((name, shown_change name before value) ∷ []) }

unfoldable change_all : Values → List (Text × Option Text) → EnvironmentChanges → EnvironmentChanges
unfolding change_one
change_all host [] changes = changes
change_all host (entry ∷ entries) changes = change_all host entries (change_one host entry changes)

abbrev is_inherited : EnvMode → Bool
is_inherited inherit = true
is_inherited clear = false

abbrev no_changes : Bool → EnvironmentChanges
no_changes inherited = record {
  inherited = inherited;
  kept = 0;
  unset = [];
  set = [];
  secrets = [];
}

-- `environment_changes`
unfoldable environment_changes : EnvMode → Values → Environment → EnvironmentChanges
unfolding shown change_all get
environment_changes mode host environment =
    let changes = change_all host (shown environment) (no_changes (is_inherited mode)) in
    if is_inherited mode
    then record changes {
      unset =
          select (λ name. not (is_some (get name environment.values)))
            (map (λ entry. entry.0) host);
    }
    else changes

-- The variables of the isolation that the changes tell of.
abbrev told : EnvironmentChanges → ℕ
told changes = changes.kept + (length changes.set + length changes.secrets)

change_one-told :
    (host : Values) (entry : Text × Option Text) (changes : EnvironmentChanges)
    → told (change_one host entry changes) ≡ suc (told changes)
unfolding change_one
change_one-told host (name, none) changes = omega (arith, length-append changes.secrets (name ∷ []))
change_one-told host (name, some value) changes =
    let new : Text × ShownValue = (name, shown_change name (get name host) value) in
    elim (Bool-cases (same_before (get name host) value)) [
      | inl same ↦ rw same (omega arith)
      | inr other ↦ rw other (omega (arith, length-append changes.set (new ∷ [])))
    ]

change_all-told :
    (host : Values) (entries : List (Text × Option Text)) (changes : EnvironmentChanges)
    → told (change_all host entries changes) ≡ length entries + told changes
unfolding change_all
change_all-told host [] changes = omega arith
change_all-told host (entry ∷ entries) changes =
    let next = change_all-told host entries (change_one host entry changes) in
    next ∙ omega (arith, change_one-told host entry changes)

-- Every variable of the isolation is counted once: it is kept, set or a secret.
environment_changes-told :
    (mode : EnvMode) (host : Values) (environment : Environment)
    → told (environment_changes mode host environment) ≡ length (shown environment)
unfolding environment_changes
environment_changes-told inherit host environment =
    change_all-told host (shown environment) (no_changes true) ∙ omega arith
environment_changes-told clear host environment =
    change_all-told host (shown environment) (no_changes false) ∙ omega arith
