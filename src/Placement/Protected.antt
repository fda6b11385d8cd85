-- ===== src/Placement/Protected.antt =====
-- `check_prefixes`, `check_nothing_writable_inside` and `check_protected_paths` of
-- crates/kakoi-plan/src/placement.rs.
pub mod Prefixes
pub mod Laws
use kakoi.Prelude.{
  ◌≡◌, Option, none, some, List, [], ◌∷◌, ◌++◌, Bool, true, false, ◌||◌, find, Result, ok, err,
  ◌>>=◌, ◌>>◌, for_each,
}
use kakoi.Paths.{FilePath, starts_with, ancestors}
use kakoi.Policy.{Text, Directive}
use kakoi.Diagnostic.{
  Diagnostic, Role, path_error, inside_writable, link_inside_writable, directory_inside_writable,
  writable_inside,
}
use kakoi.Mounts.{MountFacts, entry, entry_path, traversed_links, visited_directories, ResolvedItem}
use kakoi.Mounts.Resolve.{identity}
use kakoi.Placement.{ProtectedPaths}
use kakoi.Placement.Reference.{holder}

module _ (path : FilePath) (role : Role) (writable : List ResolvedItem) (facts : MountFacts) where
  check_prefix : FilePath → Result Diagnostic (Unit {0})
  unfolding entry_path entry holder
  check_prefix prefix = elim (entry_path (entry facts prefix)) [
    | none ↦ ok tt
    | some real ↦ elim (holder writable real) [
      | none ↦ ok tt
      | some item ↦ err (path_error (inside_writable path role item.directive item.real))
    ]
  ]

  check_link : FilePath → Result Diagnostic (Unit {0})
  unfolding holder
  check_link link = elim (holder writable link) [
    | none ↦ ok tt
    | some item ↦ err (path_error (link_inside_writable link role path item.directive item.real))
  ]

  check_directory : FilePath → Result Diagnostic (Unit {0})
  unfolding holder
  check_directory directory = elim (holder writable directory) [
    | none ↦ ok tt
    | some item ↦
        err (path_error (directory_inside_writable directory role path item.directive item.real))
  ]

  unfoldable pub check_prefixes : Result Diagnostic (Unit {0})
  unfolding check_prefix check_link check_directory for_each ancestors traversed_links
      visited_directories
  check_prefixes = do
    for_each check_prefix (ancestors path)
    for_each check_link (traversed_links facts path)
    for_each check_directory (visited_directories facts path)

module _ (place : FilePath) (role : Role) (writable : List ResolvedItem) (facts : MountFacts) where
  unfoldable pub check_nothing_writable_inside : Result Diagnostic (Unit {0})
  unfolding entry identity starts_with find
  check_nothing_writable_inside =
      let real = identity (entry facts place) place in
      elim (find (λ item. starts_with item.real real || starts_with item.real place) writable) [
        | some item ↦ err (path_error (writable_inside item.directive item.real role place))
        | none ↦ ok tt
      ]

check_shared_files : Option FilePath → List ResolvedItem → MountFacts → Result Diagnostic (Unit {0})
unfolding check_prefixes check_nothing_writable_inside
check_shared_files none writable facts = ok tt
check_shared_files (some place) writable facts = do
  check_prefixes place Role.shared_files writable facts
  check_nothing_writable_inside place Role.shared_files writable facts

unfoldable pub check_protected_paths :
    ProtectedPaths → List ResolvedItem → MountFacts → Result Diagnostic (Unit {0})
unfolding check_prefixes check_nothing_writable_inside check_shared_files for_each
check_protected_paths protected writable facts = do
  for_each (λ path. check_prefixes path Role.policy_file writable facts) protected.policy_files
  check_prefixes protected.config_dir Role.config_dir writable facts
  check_nothing_writable_inside protected.config_dir Role.config_dir writable facts
  for_each (λ (s : Text × FilePath). check_prefixes s.1 (Role.secret s.0) writable facts)
      protected.secrets
  for_each (λ path. check_prefixes path Role.path_prepend writable facts) protected.path_prepend
  check_shared_files protected.shared_files writable facts
