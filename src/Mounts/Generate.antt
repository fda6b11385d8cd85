-- ===== src/Mounts/Generate.antt =====
-- `generate` of crates/kakoi-plan/src/mounts.rs with its three generators. Of a layer only the
-- origin is read, so the layers are the list of their origins.
pub mod Laws
pub mod Hidden
pub mod Scan
pub mod Outcome
use kakoi.Prelude.{
  ◌≡◌, Option, none, some, List, [], ◌∷◌, ◌++◌, map, Bool, true, false, ◌&&◌, ◌||◌, not, find,
  select, filter_map, contains, ◌==◌, list_eq, nat_eq, option_eq, if◌then◌else◌, Result, ok, err,
  ◌>>=◌, ◌>>◌, sort_by, for_each, any,
}
use kakoi.Paths.{FilePath, Name, name_eq, byte_le, starts_with, join, bytes}
use kakoi.Policy.{
  Text, LayerOrigin, profile, built_in_default, policy_file, command_line, Directive, rw_dir,
  rw_file, rw_copy, ro, hide, directive_eq, directive_beq,
}
use kakoi.Diagnostic.{
  Diagnostic, path_error, scan_into_swappable, mount_list_unreadable, needs_directory, needs_file,
}
use kakoi.Mounts.{
  RealEntry, missing, directory, not_directory, entry_path, Variables, expansion_path,
  ExpandedHideMounts, ExpandedPolicy, Expansion, ScanHit, Mount, MountFacts, entry, EntryKind,
  directory_kind, not_directory_kind, ItemOrigin, ResolvedItem, LeftVisible, ResolvedMounts,
  real_and_kind,
}
use kakoi.Mounts.Resolve.{item_le, identity}

pub data PolicySource : Type 0 where
  file : FilePath → PolicySource
  built_in : PolicySource

policy_source : MountFacts → LayerOrigin → Option PolicySource
unfolding identity entry
policy_source facts (profile p) = some (file (identity (entry facts p) p))
policy_source facts (policy_file p) = some (file (identity (entry facts p) p))
policy_source facts built_in_default = some built_in
policy_source facts command_line = none

unfoldable policy_sources : List LayerOrigin → MountFacts → List PolicySource
unfolding policy_source filter_map
policy_sources layers facts = filter_map (policy_source facts) layers

-- `PolicySource::path`
source_path : PolicySource → Option FilePath
source_path (file p) = some p
source_path built_in = none

unfoldable pub policy_files : List LayerOrigin → MountFacts → List FilePath
unfolding policy_sources source_path filter_map
policy_files layers facts = filter_map source_path (policy_sources layers facts)

-- `generated_hide`
unfoldable pub generated_hide : FilePath → ItemOrigin → RealEntry → Option ResolvedItem
unfolding real_and_kind bytes
generated_hide written origin found = elim (real_and_kind found) [
  | none ↦ none
  | some (real, kind) ↦ some (record {
    directive = hide;
    real = real;
    kind = kind;
    origin = origin;
    written = bytes written;
  })
]

abbrev pub option_list {ℓ} : {A : Type ℓ} → Option A → List A
option_list none = []
option_list (some a) = a ∷ []

pub record Scanned : Type 0 where
  pub hidden : List ResolvedItem
  pub left_visible : List LeftVisible

-- The `ro` items around the target of a hit that is a link.
unfoldable pub containing_ro : List ResolvedItem → ScanHit → FilePath → List ResolvedItem
unfolding select starts_with directive_beq
containing_ro written hit real =
    select (λ item. hit.is_link && starts_with real item.real)
      (select (λ item. item.directive == ro) written)

module _ (written : List ResolvedItem) (sources swappable_ro : List FilePath) where
  -- A hit that is not a directory and not a policy file.
  scan_file : ScanHit → FilePath → Scanned → Result Diagnostic Scanned
  unfolding containing_ro generated_hide find any
  scan_file hit real scanned =
      elim (find (λ item. contains swappable_ro item.real) (containing_ro written hit real)) [
        | some item ↦
            err (path_error (scan_into_swappable hit.found_at real item.written item.real))
        | none ↦ elim (containing_ro written hit real) [
          | item ∷ _ ↦ ok (record scanned {
            left_visible =
                scanned.left_visible
                ++ (record {
                  link = hit.found_at;
                  target = real;
                  ro_written = item.written;
                  ro_real = item.real;
                }
                    ∷ []);
          })
          | [] ↦ ok (record scanned {
            hidden =
                scanned.hidden
                ++ option_list (generated_hide hit.found_at ItemOrigin.scan hit.target);
          })
        ]
      ]

  unfoldable pub scan_hit : ScanHit → Scanned → Result Diagnostic Scanned
  unfolding scan_file any
  scan_hit hit scanned = elim hit.target [
    | missing ↦ ok scanned
    | directory _ ↦ ok scanned
    | not_directory real ↦ if contains sources real then ok scanned else scan_file hit real scanned
  ]

  unfoldable pub scan_loop : List ScanHit → Scanned → Result Diagnostic Scanned
  unfolding scan_hit
  scan_loop [] scanned = ok scanned
  scan_loop (hit ∷ hits) scanned = elim (scan_hit hit scanned) [
    | ok next ↦ scan_loop hits next
    | err e ↦ err e
  ]

abbrev pub hit_le : ScanHit → ScanHit → Bool
hit_le a b = byte_le a.found_at b.found_at

unfoldable pub scan_items :
    List ResolvedItem → List LayerOrigin → MountFacts → List FilePath → Result Diagnostic Scanned
unfolding policy_files scan_loop sort_by byte_le
scan_items written layers facts swappable_ro =
    scan_loop written (policy_files layers facts) swappable_ro (sort_by hit_le facts.scan_hits)
      (record { hidden = []; left_visible = [] })

-- The places the user chose to work in.
unfoldable work_places : Variables → List (Option FilePath)
work_places variables =
    some variables.workspace ∷ some variables.worktree ∷ variables.git_common_dir ∷ []

unfoldable pub is_hidden_mount : Variables → ExpandedHideMounts → FilePath → Mount → Bool
unfolding work_places starts_with any option_eq
is_hidden_mount variables hide_mounts under mount =
    starts_with mount.target under
    && contains hide_mounts.fstype mount.fstype
    && not (contains (work_places variables) (some mount.target))

module _ (variables : Variables) (facts : MountFacts) where
  unfoldable pub hidden_mounts : ExpandedHideMounts → FilePath → List Mount → List ResolvedItem
  unfolding is_hidden_mount generated_hide entry
  hidden_mounts hide_mounts under [] = []
  hidden_mounts hide_mounts under (mount ∷ mounts) =
      let rest = hidden_mounts hide_mounts under mounts in
      if is_hidden_mount variables hide_mounts under mount
      then option_list
          (generated_hide mount.target ItemOrigin.hide_mounts (entry facts mount.target))
        ++ rest
      else rest

  -- The real path of an `under`, when it has a value and something is there.
  unfoldable pub under_real : ExpandedHideMounts → Option FilePath
  unfolding expansion_path entry_path entry
  under_real hide_mounts = elim (expansion_path hide_mounts.under) [
    | none ↦ none
    | some under ↦ entry_path (entry facts under)
  ]

  unfoldable pub hide_mounts_loop : List ExpandedHideMounts → List ResolvedItem
  unfolding hidden_mounts under_real
  hide_mounts_loop [] = []
  hide_mounts_loop (hide_mounts ∷ more) =
      let rest = hide_mounts_loop more in
      elim (under_real hide_mounts) [
        | none ↦ rest
        | some under ↦ hidden_mounts hide_mounts under facts.mounts ++ rest
      ]

abbrev is_nil {ℓ} : {A : Type ℓ} → List A → Bool
is_nil [] = true
is_nil (_ ∷ _) = false

unfoldable pub hide_mounts_items :
    ExpandedPolicy → Variables → MountFacts → Result Diagnostic (List ResolvedItem)
unfolding hide_mounts_loop
hide_mounts_items expanded variables facts =
    if facts.mount_list_unreadable && not (is_nil expanded.hide_mounts)
    then err (path_error mount_list_unreadable)
    else ok (hide_mounts_loop variables facts expanded.hide_mounts)

secret_hide : MountFacts → Text × Expansion → Option ResolvedItem
unfolding expansion_path generated_hide entry
secret_hide facts (name, expansion) = elim (expansion_path expansion) [
  | none ↦ none
  | some p ↦ generated_hide p (ItemOrigin.secret_file name) (entry facts p)
]

-- The name `secrets`.
abbrev pub secrets_name : Name
secrets_name = record { first = b's'; more = b'e' ∷ b'c' ∷ b'r' ∷ b'e' ∷ b't' ∷ b's' ∷ [] }

config_secrets_hide : MountFacts → FilePath → Option ResolvedItem
unfolding generated_hide entry join
config_secrets_hide facts config_dir =
    let place = join config_dir secrets_name in
    generated_hide place ItemOrigin.config_secrets (entry facts place)

unfoldable pub secret_items : ExpandedPolicy → Variables → MountFacts → List ResolvedItem
unfolding secret_hide config_secrets_hide filter_map
secret_items expanded variables facts =
    filter_map (secret_hide facts) expanded.secrets ++ elim variables.config_dir [
      | none ↦ []
      | some config_dir ↦ option_list (config_secrets_hide facts config_dir)
    ]

-- A generated item replaces the item at its real path, or goes to the end.
unfoldable pub put_item : ResolvedItem → List ResolvedItem → List ResolvedItem
put_item g [] = g ∷ []
put_item g (x ∷ xs) = if x.real == g.real then g ∷ xs else x ∷ put_item g xs

unfoldable pub put_items : List ResolvedItem → List ResolvedItem → List ResolvedItem
unfolding put_item
put_items items [] = items
put_items items (g ∷ gs) = put_items (put_item g items) gs

unfoldable pub check_kind : ResolvedItem → Result Diagnostic (Unit {0})
check_kind item = elim item.directive [
  | rw_dir ↦ elim item.kind [
    | not_directory_kind ↦ err (path_error (needs_directory item.written item.real))
    | directory_kind ↦ ok tt
  ]
  | rw_file ↦ elim item.kind [
    | directory_kind ↦ err (path_error (needs_file item.written item.real))
    | not_directory_kind ↦ ok tt
  ]
  | _ ↦ ok tt
]

-- `check_kinds`
unfoldable pub check_kinds : List ResolvedItem → Result Diagnostic (Unit {0})
unfolding check_kind for_each
check_kinds items = for_each check_kind items

-- The items after the generated ones are put in and the order is restored.
unfoldable pub merged_items : List ResolvedItem → List ResolvedItem → List ResolvedItem
unfolding put_items sort_by byte_le
merged_items items generated = sort_by item_le (put_items items generated)

unfoldable pub generate :
    ResolvedMounts
    → ExpandedPolicy
    → List LayerOrigin
    → Variables
    → MountFacts
    → List FilePath
    → Result Diagnostic ResolvedMounts
unfolding scan_items hide_mounts_items secret_items merged_items check_kinds
generate written expanded layers variables facts swappable_ro = do
  scanned ← scan_items written.items layers facts swappable_ro
  mounts ← hide_mounts_items expanded variables facts
  let items =
      merged_items written.items
        (scanned.hidden ++ (mounts ++ secret_items expanded variables facts))
  check_kinds items
  ok (record { items = items; skipped = written.skipped; left_visible = scanned.left_visible })
