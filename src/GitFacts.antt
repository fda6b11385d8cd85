-- ===== src/GitFacts.antt =====
-- crates/kakoi-plan/src/variables.rs: the policy variables, from what git left on disk, and `PathState` of
-- crates/kakoi-plan/src/environment.rs. What a link resolves to is a fact that is given.
pub mod Laws
use kakoi.Prelude.{
  ℕ, Bool, true, false, not, ◌&&◌, Option, none, some, List, [], ◌∷◌, ◌++◌, find, if◌then◌else◌,
  Result, ok, err, Eq, ◌==◌, nat_eq, list_eq, option_eq, option_beq,
}
use kakoi.Paths.{FilePath, Name, name_eq, join, name_beq}
use kakoi.Mounts.{Variables, RealEntry, missing, directory, not_directory}

pub data GitEntry : Type 0 where
  absent_entry directory_entry file_entry symlink_entry other_entry : GitEntry

pub record Ancestor : Type 0 where
  pub path : FilePath
  pub dot_git : GitEntry

pub data Reference : Type 0 where
  absent_reference unresolvable : Reference
  resolved : FilePath → Reference

pub record GitFileLinks : Type 0 where
  pub gitdir : Option FilePath
  pub commondir : Reference
  pub back_link : Option FilePath
  pub core_worktree : Option FilePath
  pub common_head : GitEntry

pub record WorkspaceFacts : Type 0 where
  pub workspace : RealEntry
  pub ancestors : List Ancestor
  pub links : Option GitFileLinks

pub data PathState : Type 0 where
  absent_path broken : PathState
  directory_path : FilePath → PathState
  not_directory_path : FilePath → PathState

pub data VariablesError : Type 0 where
  config_has_no_real_path : VariablesError
  config_not_directory : FilePath → VariablesError
  workspace_not_directory : FilePath → VariablesError
  workspace_missing : VariablesError
  git_file_unreadable gitdir_missing not_linked_back no_regular_head not_submodule
        commondir_names_nothing :
      FilePath → VariablesError

-- The `.git` of a worktree.
abbrev pub is_marker : GitEntry → Bool
is_marker directory_entry = true
is_marker file_entry = true
is_marker _ = false

unfoldable pub worktree_marker : List Ancestor → Option Ancestor
worktree_marker ancestors = find (λ ancestor. is_marker ancestor.dot_git) ancestors

-- The bytes of `.git` and `worktrees`.
abbrev pub dot_git_name : Name
dot_git_name = record { first = b'.'; more = b'g' ∷ b'i' ∷ b't' ∷ [] }

abbrev pub worktrees_name : Name
worktrees_name = record {
  first = b'w';
  more = b'o' ∷ b'r' ∷ b'k' ∷ b't' ∷ b'r' ∷ b'e' ∷ b'e' ∷ b's' ∷ [];
}

-- `Path::parent`
unfoldable pub parent_of : FilePath → Option FilePath
parent_of [] = none
parent_of (x ∷ []) = some []
parent_of (x ∷ y ∷ path) = elim (parent_of (y ∷ path)) [ none ↦ none | some up ↦ some (x ∷ up) ]

abbrev pub is_file : GitEntry → Bool
is_file file_entry = true
is_file _ = false

-- The two checks on a linked worktree, and its `HEAD`.
unfoldable pub linked_dir :
    FilePath → FilePath → GitFileLinks → FilePath → Result VariablesError FilePath
unfolding parent_of option_beq join name_beq
linked_dir worktree gitdir links common =
    if not (
      parent_of gitdir == some (join common worktrees_name)
      && links.back_link == some (join worktree dot_git_name))
    then err (not_linked_back worktree)
    else if is_file links.common_head
    then ok common
    else err (no_regular_head worktree)

unfoldable pub common_dir_of :
    FilePath → FilePath → GitFileLinks → Reference → Result VariablesError FilePath
unfolding linked_dir option_beq
common_dir_of worktree gitdir links (resolved common) = linked_dir worktree gitdir links common
common_dir_of worktree gitdir links absent_reference =
    if links.core_worktree == some worktree then ok gitdir else err (not_submodule worktree)
common_dir_of worktree gitdir links unresolvable = err (commondir_names_nothing worktree)

-- `verified_common_dir`
unfoldable pub verified_common_dir : FilePath → Option GitFileLinks → Result VariablesError FilePath
unfolding common_dir_of
verified_common_dir worktree none = err (git_file_unreadable worktree)
verified_common_dir worktree (some links) = elim links.gitdir [
  | none ↦ err (gitdir_missing worktree)
  | some gitdir ↦ common_dir_of worktree gitdir links links.commondir
]

-- The configuration directory.
unfoldable pub config_value : PathState → Result VariablesError (Option FilePath)
config_value absent_path = ok none
config_value (directory_path path) = ok (some path)
config_value broken = err config_has_no_real_path
config_value (not_directory_path path) = err (config_not_directory path)

unfoldable pub workspace_value : RealEntry → Result VariablesError FilePath
workspace_value (directory path) = ok path
workspace_value (not_directory path) = err (workspace_not_directory path)
workspace_value missing = err workspace_missing

-- The shared `.git` of a marker.
unfoldable pub common_dir_value :
    Option Ancestor → Option GitFileLinks → Result VariablesError (Option FilePath)
unfolding verified_common_dir join
common_dir_value none links = ok none
common_dir_value (some marker) links = elim marker.dot_git [
  | directory_entry ↦ ok (some (join marker.path dot_git_name))
  | _ ↦ elim (verified_common_dir marker.path links) [ err e ↦ err e | ok path ↦ ok (some path) ]
]

-- `map_or(workspace, |marker| marker.path)`
abbrev pub worktree_of : FilePath → Option Ancestor → FilePath
worktree_of workspace none = workspace
worktree_of workspace (some marker) = marker.path

unfoldable pub derive_variables : PathState → WorkspaceFacts → Result VariablesError Variables
unfolding config_value workspace_value common_dir_value worktree_marker
derive_variables config_dir facts = elim (config_value config_dir) [
  | err e ↦ err e
  | ok config ↦ elim (workspace_value facts.workspace) [
    | err e ↦ err e
    | ok workspace ↦ elim (common_dir_value (worktree_marker facts.ancestors) facts.links) [
      | err e ↦ err e
      | ok common ↦ ok (record {
        workspace = workspace;
        worktree = worktree_of workspace (worktree_marker facts.ancestors);
        git_common_dir = common;
        config_dir = config;
      })
    ]
  ]
]
