-- ===== src/Placement/Origins.antt =====
-- `check_origins` and `swappable_ro_items` of crates/kakoi-plan/src/placement.rs: the checks that run on
-- the written items before anything is generated.
pub mod Laws
use kakoi.Prelude.{
  ◌≡◌, Option, none, some, List, [], ◌∷◌, ◌++◌, map, Bool, true, false, ◌&&◌, not, any, select,
  is_some, ◌==◌, list_eq, option_eq, if◌then◌else◌, Result, ok, err, for_each,
}
use kakoi.Paths.{FilePath, Name, name_eq, starts_with}
use kakoi.Policy.{PolicyPath, Directive, ro, directive_eq, display}
use kakoi.Diagnostic.{Diagnostic, Role, path_error, origin_follows_link, origin_redirected}
use kakoi.Mounts.{
  Expansion, expansion_path, ExpandedPolicy, Variables, MountFacts, entry, entry_path, ResolvedItem,
  ResolvedMounts,
}
use kakoi.Placement.{
  WrittenItem, WrittenPaths, inherits_from_workspace, derived_from_workspace, variable_of,
  writable_items, workspace_under_check,
}
use kakoi.Placement.Reference.{referenced_writable, root_items, link_inside_writable}

-- A scan `root` or a `hide-mounts` `under`.
pub record Origin : Type 0 where
  pub role : Role
  pub form : PolicyPath
  pub expansion : Expansion

unfoldable pub origins : ExpandedPolicy → List Origin
origins expanded =
    map (λ scan. record { role = Role.scan_root; form = scan.written; expansion = scan.root })
      expanded.scans
    ++ map
        (λ hide. record {
          role = Role.hide_mounts_under;
          form = hide.written;
          expansion = hide.under;
        })
        expanded.hide_mounts

-- The path of an origin and what is there, when it resolves.
unfoldable pub resolved_origin : MountFacts → Origin → Option (FilePath × FilePath)
unfolding expansion_path entry entry_path
resolved_origin facts o = elim (expansion_path o.expansion) [
  | none ↦ none
  | some path ↦ elim (entry_path (entry facts path)) [ none ↦ none | some real ↦ some (path, real) ]
]

module _ (writable roots : List ResolvedItem) (workspace : Option FilePath)
    (facts : MountFacts) where
  -- The mount point of a writable item that lies in a root item.
  unfoldable pub is_anchored : FilePath → Bool
  unfolding any starts_with
  is_anchored real =
      any (λ root. starts_with real root.real) roots && any (λ item. item.real == real) writable

  check_redirection : Origin → FilePath → FilePath → Result Diagnostic (Unit {0})
  unfolding referenced_writable derived_from_workspace variable_of is_anchored display
  check_redirection o path real =
      elim (referenced_writable path (derived_from_workspace (variable_of o.form)) workspace
        writable facts) [
          | none ↦ ok tt
          | some reference ↦
              if is_anchored real
              then ok tt
              else err (
                  path_error (
                    origin_redirected o.role (display o.form) path real reference.item.directive
                      reference.item.real reference.inherited))
        ]

  unfoldable pub check_origin : Origin → Result Diagnostic (Unit {0})
  unfolding resolved_origin link_inside_writable check_redirection display
  check_origin o = elim (resolved_origin facts o) [
    | none ↦ ok tt
    | some (path, real) ↦ elim (link_inside_writable path writable facts) [
      | some (link, holder) ↦ err (
          path_error
            (origin_follows_link o.role (display o.form) path link holder.directive holder.real))
      | none ↦ check_redirection o path real
    ]
  ]

unfoldable pub check_origins :
    ExpandedPolicy
    → ResolvedMounts
    → WrittenPaths
    → Variables
    → FilePath
    → MountFacts
    → Result Diagnostic (Unit {0})
unfolding writable_items workspace_under_check root_items check_origin origins for_each
check_origins expanded before_generation written variables current_dir facts =
    let writable = writable_items before_generation.items in
    let workspace = workspace_under_check written variables current_dir in
    for_each (check_origin writable (root_items written workspace writable facts) workspace facts)
      (origins expanded)

-- A written form of the item that referenced something inside a writable item.
unfoldable is_swappable :
    WrittenPaths → Option FilePath → List ResolvedItem → MountFacts → ResolvedItem → Bool
unfolding any select entry entry_path referenced_writable inherits_from_workspace option_eq
is_swappable written workspace writable facts item =
    any
      (λ (form : WrittenItem).
        is_some
          (referenced_writable form.path (inherits_from_workspace form) workspace writable facts))
      (select (λ (form : WrittenItem). entry_path (entry facts form.path) == some item.real)
        (select (λ (form : WrittenItem). form.directive == ro) written.items))

unfoldable swappable_ro_items :
    ResolvedMounts → WrittenPaths → Variables → FilePath → MountFacts → List FilePath
unfolding writable_items workspace_under_check select is_swappable
swappable_ro_items before_generation written variables current_dir facts =
    let writable = writable_items before_generation.items in
    let workspace = workspace_under_check written variables current_dir in
    map (λ item. item.real)
      (select (is_swappable written workspace writable facts)
        (select (λ item. item.directive == ro) before_generation.items))
