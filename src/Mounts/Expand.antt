-- ===== src/Mounts/Expand.antt =====
-- `expand`, `expand_policy` and `skipped_paths` of crates/kakoi-plan/src/mounts.rs.
use kakoi.Prelude.{Option, none, some, List, ◌++◌, map, filter_map}
use kakoi.Paths.{FilePath}
use kakoi.Policy.{
  Text, Variable, workspace, worktree, git_common_dir, config_dir, PolicyPath, absolute, home,
  variable, components, display, Policy,
}
use kakoi.Mounts.{
  Variables, Expansion, path, valueless, ExpandedPolicy, MountFacts, entry, missing, directory,
  not_directory, SkipReason, no_value, does_not_exist,
}

-- The value of a variable, if it has one.
abbrev pub value : Variables → Variable → Option FilePath
value variables workspace = some variables.workspace
value variables worktree = some variables.worktree
value variables git_common_dir = variables.git_common_dir
value variables config_dir = variables.config_dir

unfoldable pub expand : PolicyPath → Variables → FilePath → Expansion
unfolding components
expand (absolute text) variables home_dir = path (components text)
expand (home rest) variables home_dir = path (home_dir ++ components rest)
expand (variable v rest) variables home_dir = elim (value variables v) [
  | some base ↦ path (base ++ components rest)
  | none ↦ valueless v
]

unfoldable pub expand_policy : Policy → Variables → FilePath → ExpandedPolicy
unfolding expand
expand_policy policy variables home_dir = record {
  mounts =
      map
        (λ item. record {
          directive = item.directive;
          written = item.path;
          origin = item.origin;
          path = expand item.path variables home_dir;
        })
        policy.mounts;
  scans =
      map
        (λ scan. record {
          written = scan.root;
          root = expand scan.root variables home_dir;
          names = scan.names;
          exclude = scan.exclude;
          prune = scan.prune;
        })
        policy.scan;
  hide_mounts =
      map
        (λ hide. record {
          written = hide.under;
          under = expand hide.under variables home_dir;
          fstype = hide.fstype;
        })
        policy.hide_mounts;
  secrets = map (λ (name, p). (name, expand p variables home_dir)) policy.secrets;
  path_prepend =
      map (λ entry. record { written = entry; path = expand entry variables home_dir })
        policy.path_prepend;
}

pub data SkippedRole : Type 0 where
  scan_root hide_mounts_under path_prepend : SkippedRole

pub record SkippedPath : Type 0 where
  pub role : SkippedRole
  pub written : Text
  pub reason : SkipReason

-- Why one path-taking value is skipped, if it is.
skip_reason : MountFacts → Expansion → Option SkipReason
unfolding entry
skip_reason facts (valueless v) = some (no_value v)
skip_reason facts (path p) = elim (entry facts p) [
  | missing ↦ some does_not_exist
  | directory _ ↦ none
  | not_directory _ ↦ none
]

skipped_path : MountFacts → SkippedRole × PolicyPath × Expansion → Option SkippedPath
unfolding skip_reason display
skipped_path facts (role, written, expansion) = elim (skip_reason facts expansion) [
  | none ↦ none
  | some reason ↦ some (record { role = role; written = display written; reason = reason })
]

unfoldable skipped_paths : ExpandedPolicy → MountFacts → List SkippedPath
unfolding skipped_path filter_map
skipped_paths expanded facts = filter_map (skipped_path facts) (
    map (λ s. (scan_root, s.written, s.root)) expanded.scans
    ++ (map (λ h. (hide_mounts_under, h.written, h.under)) expanded.hide_mounts
        ++ map (λ e. (path_prepend, e.written, e.path)) expanded.path_prepend))
