-- ===== src/Examples/Facts.antt =====
-- The theorems on written paths, the mount list and what git left, at small inputs.
use kakoi.Prelude.{none, some, [], ◌∷◌, ok, ◌≡◌, refl, In, find, option_beq, option_eq, list_beq}
use kakoi.Paths.{FilePath, Name, name_beq, join}
use kakoi.Policy.{codes, display}
use kakoi.Policy.{absolute}
use kakoi.Prelude.Utf8.{utf8}
use kakoi.Guard.Words.{begins_with}
use kakoi.Policy.Parse.{path_from, path_from-display}
use kakoi.MountList.{unescape}
use kakoi.MountList.Laws.{escape, unescape-escape}
use kakoi.Mounts.{Variables, directory}
use kakoi.GitFacts.{
  Ancestor, GitFileLinks, WorkspaceFacts, absent_path, file_entry, resolved, derive_variables,
  dot_git_name, worktrees_name, config_value, workspace_value, common_dir_value, worktree_marker,
  verified_common_dir, common_dir_of, linked_dir, parent_of,
}
use kakoi.GitFacts.Laws.{CommonDir, derive_variables-CommonDir}

abbrev src_name : Name
src_name = record { first = b's'; more = b'r' ∷ b'c' ∷ [] }

path_from-display_example :
    path_from (display (absolute (codes "/srv//x"))) ≡ ok (absolute (codes "/srv//x"))
unfolding begins_with utf8
path_from-display_example = path_from-display (absolute (codes "/srv//x")) (refl, refl)

unescape-escape_example : unescape (escape (codes "/my dir\\x")) ≡ codes "/my dir\\x"
unescape-escape_example = unescape-escape (codes "/my dir\\x")

-- A linked worktree `/w` of the shared `/src`.
abbrev tree : FilePath
tree = record { first = b'w'; more = [] } ∷ []

abbrev git_dir : FilePath
git_dir = src_name ∷ worktrees_name ∷ record { first = b'a'; more = [] } ∷ []

abbrev links : GitFileLinks
links = record {
  gitdir = some git_dir;
  commondir = resolved (src_name ∷ []);
  back_link = some (record { first = b'w'; more = [] } ∷ dot_git_name ∷ []);
  core_worktree = none;
  common_head = file_entry;
}

abbrev marker : Ancestor
marker = record { path = tree; dot_git = file_entry }

abbrev facts : WorkspaceFacts
facts = record { workspace = directory tree; ancestors = marker ∷ []; links = some links }

abbrev variables : Variables
variables = record {
  workspace = tree;
  worktree = tree;
  git_common_dir = some (src_name ∷ []);
  config_dir = none;
}

derived : derive_variables absent_path facts ≡ ok variables
unfolding derive_variables config_value workspace_value common_dir_value worktree_marker find
    verified_common_dir common_dir_of linked_dir parent_of option_beq option_eq list_beq name_beq
    join
derived = refl

derive_variables-CommonDir_example :
    (found : Ancestor) × In found (marker ∷ [])
    × (tree ≡ found.path)
    × CommonDir found.path (some links) found.dot_git (src_name ∷ [])
derive_variables-CommonDir_example = derive_variables-CommonDir absent_path facts derived refl
