-- ===== src/Placement/Reference.antt =====
-- What the resolution of a path references (crates/kakoi-plan/src/placement.rs): the writable item it
-- passes through, and the root items, which nothing writable could redirect.
pub mod Laws
use kakoi.Prelude.{
  Option, none, some, List, ◌++◌, Bool, true, false, ◌&&◌, not, find, find_map, select, all,
  is_some, ◌==◌, list_eq, option_eq,
}
use kakoi.Paths.{FilePath, name_eq, starts_with}
use kakoi.Policy.{writes_to_host}
use kakoi.Mounts.{MountFacts, entry, entry_path, traversed_links, visited_directories, ResolvedItem}
use kakoi.Placement.{WrittenItem, WrittenPaths, inherits_from_workspace}

pub record Reference : Type 0 where
  pub item : ResolvedItem
  pub inherited : Bool

-- The writable item that holds a place.
unfoldable pub holder : List ResolvedItem → FilePath → Option ResolvedItem
unfolding find starts_with
holder writable place = find (λ item. starts_with place item.real) writable

unfoldable pub consulted_writable : FilePath → List ResolvedItem → MountFacts → Option ResolvedItem
unfolding holder find_map traversed_links visited_directories
consulted_writable given writable facts =
    find_map (holder writable) (traversed_links facts given ++ visited_directories facts given)

-- What the resolution of the `--workspace` consulted, for a path that inherits it.
inherited_writable : Bool → Option FilePath → List ResolvedItem → MountFacts → Option Reference
unfolding consulted_writable
inherited_writable false workspace writable facts = none
inherited_writable true none writable facts = none
inherited_writable true (some given) writable facts =
    elim (consulted_writable given writable facts) [
      | none ↦ none
      | some item ↦ some (record { item = item; inherited = true })
    ]

unfoldable pub referenced_writable :
    FilePath → Bool → Option FilePath → List ResolvedItem → MountFacts → Option Reference
unfolding inherited_writable consulted_writable
referenced_writable path inherits workspace writable facts =
    elim (consulted_writable path writable facts) [
      | some item ↦ some (record { item = item; inherited = false })
      | none ↦ inherited_writable inherits workspace writable facts
    ]

unfoldable pub writable_forms_of : ResolvedItem → WrittenPaths → MountFacts → List WrittenItem
unfolding select writes_to_host entry entry_path option_eq
writable_forms_of item written facts =
    select
      (λ form.
        writes_to_host form.directive && (entry_path (entry facts form.path) == some item.real))
      written.items

-- No written writable form of the item referenced anything inside a writable item.
unfoldable is_root :
    WrittenPaths → Option FilePath → List ResolvedItem → MountFacts → ResolvedItem → Bool
unfolding writable_forms_of referenced_writable inherits_from_workspace all
is_root written workspace writable facts item =
    all
      (λ form. not (
        is_some
          (referenced_writable form.path (inherits_from_workspace form) workspace writable facts)))
      (writable_forms_of item written facts)

unfoldable pub root_items :
    WrittenPaths → Option FilePath → List ResolvedItem → MountFacts → List ResolvedItem
unfolding is_root select
root_items written workspace writable facts =
    select (is_root written workspace writable facts) writable

unfoldable pub held_link : List ResolvedItem → FilePath → Option (FilePath × ResolvedItem)
unfolding holder
held_link writable link = elim (holder writable link) [
  | none ↦ none
  | some item ↦ some (link, item)
]

-- The first link the resolution followed that sits inside a writable item, with that item.
unfoldable pub link_inside_writable :
    FilePath → List ResolvedItem → MountFacts → Option (FilePath × ResolvedItem)
unfolding find_map held_link traversed_links
link_inside_writable path writable facts =
    find_map (held_link writable) (traversed_links facts path)
