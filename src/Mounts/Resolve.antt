-- ===== src/Mounts/Resolve.antt =====
-- `resolve_written` of crates/kakoi-plan/src/mounts.rs: the loop over the written items is a fold
-- whose state holds the merged candidates, the conflicts and the skipped items.
pub mod Laws
pub mod Uppermost
pub mod Topmost
use kakoi.Prelude.{
  ◌≡◌, Option, none, some, List, [], ◌∷◌, ◌++◌, Bool, true, false, find, ◌==◌, list_eq,
  if◌then◌else◌, Result, ok, err, sort_by, is_some,
}
use kakoi.Paths.{FilePath, name_eq, byte_le}
use kakoi.Policy.{
  Text, LayerOrigin, profile, built_in_default, policy_file, command_line, origin_eq, Directive,
  directive_eq, display,
}
use kakoi.Diagnostic.{Diagnostic, Kind, Problem, conflicting_directives}
use kakoi.Mounts.{
  RealEntry, entry_path, Expansion, path, valueless, ExpandedItem, ExpandedPolicy, MountFacts,
  entry, EntryKind, ItemOrigin, written_by, ResolvedItem, SkippedItem, no_value, does_not_exist,
  ResolvedMounts, real_and_kind,
}

-- A written item with its identity: the real path when something exists, else the expanded path.
pub record Candidate : Type 0 where
  pub directive : Directive
  pub written : Text
  pub origin : LayerOrigin
  pub key : FilePath
  pub entry : RealEntry

pub record Merging : Type 0 where
  pub merged : List Candidate
  pub conflicts : List (FilePath × Diagnostic)
  pub skipped : List SkippedItem

unfoldable pub identity : RealEntry → FilePath → FilePath
unfolding entry_path
identity found p = elim (entry_path found) [ some real ↦ real | none ↦ p ]

unfoldable pub candidate : MountFacts → ExpandedItem → FilePath → Candidate
unfolding entry display identity
candidate facts item p = record {
  directive = item.directive;
  written = display item.written;
  origin = item.origin;
  key = identity (entry facts p) p;
  entry = entry facts p;
}

-- The first existing candidate of the same identity is replaced by one of another layer, and kept
-- before one of its own layer; a new identity goes to the end.
unfoldable pub place : Candidate → List Candidate → List Candidate
place c [] = c ∷ []
place c (x ∷ xs) =
    if x.key == c.key then (if x.origin == c.origin then x else c) ∷ xs else x ∷ place c xs

conflict_kind : LayerOrigin → Kind
conflict_kind command_line = Kind.usage
conflict_kind _ = Kind.policy

-- Two directives of one layer for one identity.
unfoldable pub conflict : Candidate → List Candidate → List (FilePath × Diagnostic)
unfolding conflict_kind find
conflict c merged = elim (find (λ x. x.key == c.key) merged) [
  | none ↦ []
  | some x ↦
      if x.origin == c.origin
      then (if x.directive == c.directive
          then []
          else (
            c.key,
            record {
              kind = conflict_kind c.origin;
              problem = conflicting_directives x.written c.written c.key;
            },
          )
            ∷ [])
      else []
]

-- One round of the loop.
unfoldable pub merge_item : MountFacts → Merging → ExpandedItem → Merging
unfolding candidate place conflict display
merge_item facts s item = elim item.path [
  | valueless v ↦ record s {
    skipped =
        s.skipped
        ++ (record {
          directive = item.directive;
          written = display item.written;
          origin = item.origin;
          reason = no_value v;
        }
            ∷ []);
  }
  | path p ↦ record s {
    merged = place (candidate facts item p) s.merged;
    conflicts = s.conflicts ++ conflict (candidate facts item p) s.merged;
  }
]

unfoldable pub merge_items : MountFacts → Merging → List ExpandedItem → Merging
unfolding merge_item
merge_items facts s [] = s
merge_items facts s (item ∷ items) = merge_items facts (merge_item facts s item) items

-- `min_by` keeps the first of equal elements.
first_conflict : FilePath × Diagnostic → List (FilePath × Diagnostic) → Diagnostic
first_conflict best [] = best.1
first_conflict best (c ∷ cs) = first_conflict (if byte_le best.0 c.0 then best else c) cs

unfoldable pub resolved_items : List Candidate → List ResolvedItem
unfolding real_and_kind
resolved_items [] = []
resolved_items (c ∷ cs) =
    let rest = resolved_items cs in
    elim (real_and_kind c.entry) [
      | none ↦ rest
      | some (real, kind) ↦
          record {
            directive = c.directive;
            real = real;
            kind = kind;
            origin = written_by c.origin;
            written = c.written;
          }
          ∷ rest
    ]

missing_items : List Candidate → List SkippedItem
unfolding real_and_kind
missing_items [] = []
missing_items (c ∷ cs) =
    let rest = missing_items cs in
    elim (real_and_kind c.entry) [
      | none ↦
          record {
            directive = c.directive;
            written = c.written;
            origin = c.origin;
            reason = does_not_exist;
          }
          ∷ rest
      | some _ ↦ rest
    ]

-- The order of the applied items.
abbrev pub item_le : ResolvedItem → ResolvedItem → Bool
item_le a b = byte_le a.real b.real

unfoldable pub finish : Merging → Result Diagnostic ResolvedMounts
unfolding first_conflict resolved_items missing_items sort_by byte_le
finish s = elim s.conflicts [
  | c ∷ cs ↦ err (first_conflict c cs)
  | [] ↦ ok (record {
    items = sort_by item_le (resolved_items s.merged);
    skipped = s.skipped ++ missing_items s.merged;
    left_visible = [];
  })
]

unfoldable pub resolve_written : ExpandedPolicy → MountFacts → Result Diagnostic ResolvedMounts
unfolding merge_items finish
resolve_written expanded facts =
    finish
      (merge_items facts (record { merged = []; conflicts = []; skipped = [] }) expanded.mounts)
