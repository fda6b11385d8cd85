-- ===== src/Mounts.antt =====
-- crates/kakoi-plan/src/mounts.rs, its types, and `RealEntry` of environment.rs and `Variables` of
-- variables.rs. The maps of `MountFacts` are association lists.
pub mod Expand
pub mod Resolve
pub mod Generate
pub mod Covering
use kakoi.Prelude.{◌≡◌, Bool, Option, none, some, List, [], ◌∷◌, get, Eq, list_eq}
use kakoi.Paths.{FilePath, Name, name_eq}
use kakoi.Policy.{Text, Variable, PolicyPath, LayerOrigin, Directive}

-- What the outer layer found behind a path.
pub data RealEntry : Type 0 where
  missing : RealEntry
  directory : FilePath → RealEntry
  not_directory : FilePath → RealEntry

-- `RealEntry::path`
unfoldable pub entry_path : RealEntry → Option FilePath
entry_path missing = none
entry_path (directory p) = some p
entry_path (not_directory p) = some p

pub record Variables : Type 0 where
  pub workspace : FilePath
  pub worktree : FilePath
  pub git_common_dir : Option FilePath
  pub config_dir : Option FilePath

pub data Expansion : Type 0 where
  path : FilePath → Expansion
  valueless : Variable → Expansion

-- `Expansion::path`
unfoldable pub expansion_path : Expansion → Option FilePath
expansion_path (path p) = some p
expansion_path (valueless v) = none

pub record ExpandedItem : Type 0 where
  pub directive : Directive
  pub written : PolicyPath
  pub origin : LayerOrigin
  pub path : Expansion

pub record ExpandedPath : Type 0 where
  pub written : PolicyPath
  pub path : Expansion

pub record ExpandedScan : Type 0 where
  pub written : PolicyPath
  pub root : Expansion
  pub names : List Text
  pub exclude : List Text
  pub prune : List Text

pub record ExpandedHideMounts : Type 0 where
  pub written : PolicyPath
  pub under : Expansion
  pub fstype : List Text

pub record ExpandedPolicy : Type 0 where
  pub mounts : List ExpandedItem
  pub scans : List ExpandedScan
  pub hide_mounts : List ExpandedHideMounts
  pub secrets : List (Text × Expansion)
  pub path_prepend : List ExpandedPath

pub record ScanHit : Type 0 where
  pub found_at : FilePath
  pub target : RealEntry
  pub is_link : Bool

pub record Mount : Type 0 where
  pub target : FilePath
  pub fstype : Text

pub record MountFacts : Type 0 where
  pub paths : List (FilePath × RealEntry)
  pub links : List (FilePath × List FilePath)
  pub directories : List (FilePath × List FilePath)
  pub scan_hits : List ScanHit
  pub mounts : List Mount
  pub mount_list_unreadable : Bool

abbrev pub or_missing : Option RealEntry → RealEntry
or_missing none = missing
or_missing (some e) = e

abbrev or_nil : Option (List FilePath) → List FilePath
or_nil none = []
or_nil (some l) = l

-- `MountFacts::entry`
unfoldable pub entry : MountFacts → FilePath → RealEntry
unfolding get
entry facts p = or_missing (get p facts.paths)

-- `MountFacts::traversed_links`
unfoldable pub traversed_links : MountFacts → FilePath → List FilePath
unfolding get
traversed_links facts p = or_nil (get p facts.links)

-- `MountFacts::visited_directories`
unfoldable pub visited_directories : MountFacts → FilePath → List FilePath
unfolding get
visited_directories facts p = or_nil (get p facts.directories)

pub data EntryKind : Type 0 where
  directory_kind not_directory_kind : EntryKind

pub data ItemOrigin : Type 0 where
  written_by : LayerOrigin → ItemOrigin
  scan hide_mounts config_secrets : ItemOrigin
  secret_file : Text → ItemOrigin

pub record ResolvedItem : Type 0 where
  pub directive : Directive
  pub real : FilePath
  pub kind : EntryKind
  pub origin : ItemOrigin
  pub written : Text

pub data SkipReason : Type 0 where
  no_value : Variable → SkipReason
  does_not_exist : SkipReason

pub record SkippedItem : Type 0 where
  pub directive : Directive
  pub written : Text
  pub origin : LayerOrigin
  pub reason : SkipReason

pub record LeftVisible : Type 0 where
  pub link : FilePath
  pub target : FilePath
  pub ro_written : Text
  pub ro_real : FilePath

-- `not_shown` is filled by the listed mode alone, which is not modelled.
pub record ResolvedMounts : Type 0 where
  pub items : List ResolvedItem
  pub skipped : List SkippedItem
  pub left_visible : List LeftVisible

-- `real_and_kind`
unfoldable pub real_and_kind : RealEntry → Option (FilePath × EntryKind)
real_and_kind missing = none
real_and_kind (directory real) = some (real, directory_kind)
real_and_kind (not_directory real) = some (real, not_directory_kind)
