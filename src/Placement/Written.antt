-- ===== src/Placement/Written.antt =====
-- `check_written_paths` of crates/kakoi-plan/src/placement.rs and the rules it applies to each written
-- item and to the `--workspace`.
pub mod Laws
pub mod Partner
pub mod Outcome
use kakoi.Prelude.{
  ◌≡◌, Option, none, some, List, [], ◌∷◌, ◌++◌, Bool, true, false, ◌&&◌, ◌||◌, not, find, rfind,
  find_map, any, all, ◌==◌, list_eq, if◌then◌else◌, Result, ok, err, ◌>>=◌, ◌>>◌, for_each,
  check_if, sort_by,
}
use kakoi.Paths.{FilePath, Name, name_eq, starts_with, ancestors, byte_le}
use kakoi.Policy.{
  Text, LayerOrigin, origin_eq, Directive, rw_dir, rw_file, rw_copy, ro, hide, directive_eq,
}
use kakoi.Diagnostic.{
  Diagnostic, Role, path_error, redirected, exposed, hide_follows_link, workspace_redirected,
}
use kakoi.Mounts.{Variables, MountFacts, entry, entry_path, traversed_links, ResolvedItem}
use kakoi.Mounts.Resolve.{identity}
use kakoi.Placement.{
  WrittenItem, WrittenPaths, inherits_from_workspace, writable_items, workspace_under_check,
}
use kakoi.Placement.Reference.{
  Reference, consulted_writable, referenced_writable, writable_forms_of, root_items,
  link_inside_writable,
}

unfoldable pub check_hide_links :
    Role → WrittenItem → List ResolvedItem → MountFacts → Result Diagnostic (Unit {0})
unfolding link_inside_writable
check_hide_links role item writable facts = elim (link_inside_writable item.path writable facts) [
  | some (link, holder) ↦
      err (path_error (hide_follows_link role link holder.directive holder.real))
  | none ↦ ok tt
]

-- Whether `real` is a root item or inside one.
unfoldable pub inside_root : FilePath → List ResolvedItem → Bool
unfolding any starts_with
inside_root real roots = any (λ root. starts_with real root.real) roots

unfoldable pub check_landing :
    Role → Option Reference → FilePath → List ResolvedItem → Result Diagnostic (Unit {0})
unfolding inside_root
check_landing role none real roots = ok tt
check_landing role (some reference) real roots =
    if inside_root real roots
    then ok tt
    else err (
        path_error
          (redirected role real reference.item.directive reference.item.real reference.inherited))

-- The exposing pairs.
unfoldable pub exposes : Directive → Directive → Bool
exposes rw_dir partner = partner == hide || partner == ro || partner == rw_copy
exposes rw_file partner = partner == hide || partner == ro || partner == rw_copy
exposes ro partner = partner == hide
exposes rw_copy partner = partner == hide
exposes hide partner = false

abbrev pub Partner : Type 0
Partner = Directive × Text × FilePath

-- The last item of a lower layer with the identity `real`.
unfoldable pub identical_partner :
    WrittenItem → FilePath → List WrittenItem → MountFacts → Option Partner
unfolding rfind entry identity
identical_partner item real lower facts =
    elim (rfind
      (λ (other : WrittenItem).
        not (other.origin == item.origin) && (identity (entry facts other.path) other.path == real))
      lower) [ none ↦ none | some other ↦ some (other.directive, other.written, other.path) ]

-- `Path::ancestors` without the path itself.
abbrev pub proper_ancestors : FilePath → List FilePath
proper_ancestors path = elim (ancestors path) [ [] ↦ [] | _ ∷ rest ↦ rest ]

-- The item in force at the innermost proper ancestor that has one.
unfoldable pub over_partner : FilePath → List ResolvedItem → Option Partner
unfolding find_map find ancestors
over_partner real in_force =
    elim (find_map (λ ancestor. find (λ (other : ResolvedItem). other.real == ancestor) in_force)
      (proper_ancestors real)) [
        | none ↦ none
        | some other ↦ some (other.directive, other.written, other.real)
      ]

abbrev partner_list : Option Partner → List Partner
partner_list none = []
partner_list (some p) = p ∷ []

unfoldable pub exposing_partner :
    WrittenItem → FilePath → List WrittenItem → List ResolvedItem → MountFacts → Option Partner
unfolding identical_partner over_partner exposes find
exposing_partner item real lower in_force facts =
    find (λ (p : Partner). exposes item.directive p.0)
      (partner_list (identical_partner item real lower facts)
        ++ partner_list (over_partner real in_force))

unfoldable pub check_replacement :
    Role
    → WrittenItem
    → Option Reference
    → FilePath
    → List WrittenItem
    → List ResolvedItem
    → MountFacts
    → Result Diagnostic (Unit {0})
unfolding exposing_partner
check_replacement role item none real lower in_force facts = ok tt
check_replacement role item (some reference) real lower in_force facts =
    elim (exposing_partner item real lower in_force facts) [
      | some (directive, written, path) ↦
          err (path_error (exposed role real directive written path))
      | none ↦ ok tt
    ]

-- A root item over the workspace none of whose forms was expanded from the workspace.
unfoldable anchors_workspace : FilePath → WrittenPaths → MountFacts → ResolvedItem → Bool
unfolding starts_with writable_forms_of inherits_from_workspace all
anchors_workspace real written facts root =
    starts_with real root.real
    && all (λ form. not (inherits_from_workspace form)) (writable_forms_of root written facts)

unfoldable check_workspace_links :
    FilePath
    → FilePath
    → List ResolvedItem
    → WrittenPaths
    → MountFacts
    → Result Diagnostic (Unit {0})
unfolding traversed_links anchors_workspace any
check_workspace_links workspace real roots written facts = elim (traversed_links facts workspace) [
  | [] ↦ ok tt
  | link ∷ _ ↦
      if any (anchors_workspace real written facts) roots
      then ok tt
      else err (path_error (workspace_redirected workspace real link))
]

-- A written item that resolved, with the written items before it.
pub record Landed : Type 0 where
  pub lower : List WrittenItem
  pub item : WrittenItem
  pub real : FilePath

unfoldable pub landed_from : MountFacts → List WrittenItem → List WrittenItem → List Landed
unfolding entry entry_path
landed_from facts lower [] = []
landed_from facts lower (item ∷ items) =
    let rest = landed_from facts (lower ++ (item ∷ [])) items in
    elim (entry_path (entry facts item.path)) [
      | none ↦ rest
      | some real ↦ record { lower = lower; item = item; real = real } ∷ rest
    ]

abbrev pub landed_le : Landed → Landed → Bool
landed_le a b = byte_le a.real b.real

-- The written items that resolve, in byte order of their real paths.
unfoldable pub landed_items : WrittenPaths → MountFacts → List Landed
unfolding landed_from sort_by byte_le
landed_items written facts = sort_by landed_le (landed_from facts [] written.items)

abbrev pub held_to_landing : Directive → Bool
held_to_landing directive = not (directive == ro || directive == rw_copy)

module _ (in_force roots : List ResolvedItem) (workspace : Option FilePath)
    (facts : MountFacts) where
  abbrev pub item_reference : Landed → Option Reference
  item_reference l =
      referenced_writable l.item.path (inherits_from_workspace l.item) workspace
        (writable_items in_force) facts

  abbrev pub item_role : Landed → Role
  item_role l = Role.item l.item.directive l.item.written l.item.path

  -- The checks on one written item.
  unfoldable pub check_landed : Landed → Result Diagnostic (Unit {0})
  unfolding check_hide_links check_landing check_replacement referenced_writable
      inherits_from_workspace writable_items
  check_landed l = do
    check_if (l.item.directive == hide)
        (check_hide_links (item_role l) l.item (writable_items in_force) facts)
    check_if (held_to_landing l.item.directive)
        (check_landing (item_role l) (item_reference l) l.real roots)
    check_replacement (item_role l) l.item (item_reference l) l.real l.lower in_force facts

-- The rules for the `--workspace` under check.
check_workspace :
    Option FilePath
    → FilePath
    → WrittenPaths
    → List ResolvedItem
    → List ResolvedItem
    → MountFacts
    → Result Diagnostic (Unit {0})
unfolding consulted_writable check_landing check_workspace_links
check_workspace none real written writable roots facts = ok tt
check_workspace (some given) real written writable roots facts = do
  check_landing (Role.workspace given)
      (elim (consulted_writable given writable facts) [
        | none ↦ none
        | some item ↦ some (record { item = item; inherited = false })
      ])
      real roots
  check_workspace_links given real roots written facts

unfoldable pub check_written_paths :
    WrittenPaths
    → List ResolvedItem
    → Variables
    → FilePath
    → MountFacts
    → Result Diagnostic (Unit {0})
unfolding writable_items workspace_under_check root_items landed_items check_landed check_workspace
    for_each
check_written_paths written in_force variables current_dir facts =
    let writable = writable_items in_force in
    let workspace = workspace_under_check written variables current_dir in
    let roots = root_items written workspace writable facts in
    for_each (check_landed in_force roots workspace facts) (landed_items written facts)
    >> check_workspace workspace variables.workspace written writable roots facts
