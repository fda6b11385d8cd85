-- ===== src/Placement/Check.antt =====
-- The other checks of crates/kakoi-plan/src/placement.rs, and `check_placement`, which runs them all in
-- the order of the diagnostics.
pub mod Laws
pub mod Targets
use kakoi.Prelude.{
  ◌≡◌, Option, none, some, List, [], ◌∷◌, ◌++◌, Bool, true, false, ◌&&◌, ◌||◌, not, find, any, ◌==◌,
  list_eq, if◌then◌else◌, Result, ok, err, ◌>>=◌, ◌>>◌,
}
use kakoi.Paths.{FilePath, Name, name_eq, starts_with, ancestors}
use kakoi.Policy.{Text, Directive, rw_dir, hide, directive_eq}
use kakoi.Diagnostic.{
  Diagnostic, WorkPlace, worktree, workspace, path_error, fixed_target, too_wide,
  work_place_too_wide, current_dir_hidden,
}
use kakoi.Mounts.{Variables, MountFacts, ResolvedItem, ResolvedMounts}
use kakoi.Mounts.Covering.{covering_item}
use kakoi.Placement.{ProtectedPaths, WrittenPaths, writable_items}
use kakoi.Placement.Protected.{check_protected_paths}
use kakoi.Placement.Written.{check_written_paths}

abbrev pub dev : Name
dev = record { first = b'd'; more = b'e' ∷ b'v' ∷ [] }

abbrev pub proc : Name
proc = record { first = b'p'; more = b'r' ∷ b'o' ∷ b'c' ∷ [] }

-- `/`, `/dev` and `/proc` and what lies under the last two.
unfoldable pub is_fixed_target : FilePath → Bool
unfolding starts_with
is_fixed_target real = real == [] || starts_with real (dev ∷ []) || starts_with real (proc ∷ [])

unfoldable pub check_fixed_targets : List ResolvedItem → Result Diagnostic (Unit {0})
unfolding is_fixed_target find
check_fixed_targets items = elim (find (λ (item : ResolvedItem). is_fixed_target item.real) items) [
  | some item ↦ err (path_error (fixed_target item.directive item.written item.real))
  | none ↦ ok tt
]

unfoldable pub is_or_ancestor_of : FilePath → FilePath → Bool
unfolding any ancestors
is_or_ancestor_of candidate path =
    candidate == [] || any (λ ancestor. ancestor == candidate) (ancestors path)

unfoldable pub check_width : List ResolvedItem → FilePath → Result Diagnostic (Unit {0})
unfolding is_or_ancestor_of find
check_width writable home = elim (find (λ item. is_or_ancestor_of item.real home) writable) [
  | some item ↦ err (path_error (too_wide item.directive item.real))
  | none ↦ ok tt
]

unfoldable pub check_work_place : Variables → FilePath → Result Diagnostic (Unit {0})
unfolding is_or_ancestor_of
check_work_place variables home =
    if is_or_ancestor_of variables.worktree home
    then err (path_error (work_place_too_wide worktree variables.worktree))
    else if is_or_ancestor_of variables.workspace home
    then err (path_error (work_place_too_wide workspace variables.workspace))
    else ok tt

unfoldable pub check_current_dir : List ResolvedItem → FilePath → Result Diagnostic (Unit {0})
unfolding covering_item
check_current_dir items current_dir = elim (covering_item items current_dir) [
  | none ↦ ok tt
  | some item ↦
      if item.directive == hide
      then err (path_error (current_dir_hidden current_dir item.real))
      else ok tt
]

pub data Warning : Type 0 where
  no_rw_covers : FilePath → FilePath → Warning

unfoldable covers_work_place : Variables → ResolvedItem → Bool
unfolding starts_with
covers_work_place variables item =
    item.directive == rw_dir
    && (starts_with variables.workspace item.real || starts_with variables.worktree item.real)

-- The list holds one warning at most, an `Option` in the code that `into_iter().collect()` makes a list.
unfoldable work_place_warning : List ResolvedItem → Variables → List Warning
unfolding covers_work_place any
work_place_warning items variables =
    if any (covers_work_place variables) items
    then []
    else no_rw_covers variables.workspace variables.worktree ∷ []

unfoldable pub check_placement :
    ResolvedMounts
    → ProtectedPaths
    → WrittenPaths
    → Variables
    → FilePath
    → FilePath
    → MountFacts
    → Result Diagnostic (List Warning)
unfolding writable_items check_protected_paths check_written_paths check_fixed_targets check_width
    check_work_place check_current_dir work_place_warning
check_placement resolved protected written variables home current_dir facts = do
  check_protected_paths protected (writable_items resolved.items) facts
  check_written_paths written resolved.items variables current_dir facts
  check_fixed_targets resolved.items
  check_width (writable_items resolved.items) home
  check_work_place variables home
  check_current_dir resolved.items current_dir
  ok (work_place_warning resolved.items variables)
