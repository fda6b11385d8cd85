-- ===== src/Placement.antt =====
-- crates/kakoi-plan/src/placement.rs: its types, what a resolution references, and the two checks that
-- `check_placement` is made of in the child modules.
pub mod Reference
pub mod Protected
pub mod Written
pub mod Check
pub mod Origins
use kakoi.Prelude.{
  ◌≡◌, Option, none, some, List, [], ◌∷◌, ◌++◌, map, Bool, true, false, select, filter_map, ◌==◌,
  list_eq, if◌then◌else◌, not, is_some,
}
use kakoi.Paths.{FilePath, Name, name_eq}
use kakoi.Policy.{
  Text, Variable, workspace, worktree, git_common_dir, config_dir, PolicyPath, absolute, home,
  variable, LayerOrigin, profile, built_in_default, policy_file, command_line, Directive,
  writes_to_host, display,
}
use kakoi.Mounts.{
  Expansion, expansion_path, ExpandedItem, ExpandedPath, ExpandedPolicy, Variables, ResolvedItem,
}

pub record ProtectedPaths : Type 0 where
  pub policy_files : List FilePath
  pub config_dir : FilePath
  pub secrets : List (Text × FilePath)
  pub path_prepend : List FilePath
  pub shared_files : Option FilePath

abbrev pub option_list : Option FilePath → List FilePath
option_list none = []
option_list (some p) = p ∷ []

-- `ProtectedPaths::paths`
unfoldable pub protected_list : ProtectedPaths → List FilePath
protected_list p =
    p.policy_files
    ++ (p.config_dir
        ∷ (map (λ (name, q). q) p.secrets ++ (p.path_prepend ++ option_list p.shared_files)))

origin_file : LayerOrigin → Option FilePath
origin_file (profile p) = some p
origin_file (policy_file p) = some p
origin_file built_in_default = none
origin_file command_line = none

secret_path : Text × Expansion → Option (Text × FilePath)
unfolding expansion_path
secret_path (name, expansion) = elim (expansion_path expansion) [
  | none ↦ none
  | some p ↦ some (name, p)
]

unfoldable protected_paths : ExpandedPolicy → List LayerOrigin → FilePath → ProtectedPaths
unfolding origin_file secret_path expansion_path filter_map
protected_paths expanded layers place = record {
  policy_files = filter_map origin_file layers;
  config_dir = place;
  secrets = filter_map secret_path expanded.secrets;
  path_prepend = filter_map (λ (e : ExpandedPath). expansion_path e.path) expanded.path_prepend;
  shared_files = none;
}

pub record WrittenItem : Type 0 where
  pub directive : Directive
  pub origin : LayerOrigin
  pub written : Text
  pub variable : Option Variable
  pub path : FilePath

-- `derived_from_workspace`
unfoldable pub derived_from_workspace : Option Variable → Bool
derived_from_workspace (some workspace) = true
derived_from_workspace (some worktree) = true
derived_from_workspace (some git_common_dir) = true
derived_from_workspace (some config_dir) = false
derived_from_workspace none = false

-- `WrittenItem::inherits_from_workspace`
unfoldable pub inherits_from_workspace : WrittenItem → Bool
unfolding derived_from_workspace
inherits_from_workspace item = derived_from_workspace item.variable

-- `variable_of`
unfoldable pub variable_of : PolicyPath → Option Variable
variable_of (variable v rest) = some v
variable_of (absolute p) = none
variable_of (home rest) = none

pub record WrittenPaths : Type 0 where
  pub items : List WrittenItem
  pub workspace : Option FilePath

written_item : ExpandedItem → Option WrittenItem
unfolding expansion_path variable_of display
written_item item = elim (expansion_path item.path) [
  | none ↦ none
  | some p ↦ some (record {
    directive = item.directive;
    origin = item.origin;
    written = display item.written;
    variable = variable_of item.written;
    path = p;
  })
]

unfoldable written_paths : ExpandedPolicy → Option FilePath → WrittenPaths
unfolding written_item filter_map
written_paths expanded given = record {
  items = filter_map written_item expanded.mounts;
  workspace = given;
}

-- The items whose writes reach the host.
unfoldable pub writable_items : List ResolvedItem → List ResolvedItem
unfolding select writes_to_host
writable_items items = select (λ item. writes_to_host item.directive) items

-- The `--workspace` given, unless its real path is the current directory.
unfoldable pub workspace_under_check : WrittenPaths → Variables → FilePath → Option FilePath
workspace_under_check written variables current_dir =
    if variables.workspace == current_dir then none else written.workspace
