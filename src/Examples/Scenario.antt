-- ===== src/Examples/Scenario.antt =====
-- A session: a writable work place with a writable directory inside it, a hidden file, a secret, and a
-- mount to hide.
use kakoi.Prelude.{ℕ, none, some, [], ◌∷◌, false, Result, ok, err}
use kakoi.Paths.{FilePath, Name, bytes}
use kakoi.Policy.{codes, absolute, command_line, Directive, rw_dir, hide}
use kakoi.Mounts.{
  directory, not_directory, path, ExpandedItem, ExpandedPolicy, ExpandedHideMounts, Variables,
  MountFacts, ScanHit, Mount, ResolvedMounts,
}
use kakoi.Mounts.Resolve.{resolve_written}
use kakoi.Mounts.Generate.{generate}
use kakoi.Placement.{ProtectedPaths, WrittenPaths, WrittenItem}

abbrev pub name : ℕ → Name
name b = record { first = b; more = [] }

abbrev secrets_dir : Name
secrets_dir = record { first = b's'; more = codes "ecrets" }

abbrev pub home_dir : FilePath
home_dir = name b'h' ∷ name b'u' ∷ []

abbrev pub work : FilePath
work = name b'h' ∷ name b'u' ∷ name b'w' ∷ []

abbrev pub sub : FilePath
sub = name b'h' ∷ name b'u' ∷ name b'w' ∷ name b's' ∷ []

abbrev pub env_file : FilePath
env_file = name b'h' ∷ name b'u' ∷ name b'w' ∷ name b'e' ∷ []

abbrev pub found_file : FilePath
found_file = name b'h' ∷ name b'u' ∷ name b'w' ∷ name b's' ∷ name b'f' ∷ []

abbrev mount_point : FilePath
mount_point = name b'h' ∷ name b'u' ∷ name b'w' ∷ name b's' ∷ name b'm' ∷ []

abbrev pub key_file : FilePath
key_file = name b'h' ∷ name b'u' ∷ name b'k' ∷ []

abbrev pub config : FilePath
config = name b'h' ∷ name b'u' ∷ name b'c' ∷ []

abbrev pub config_secrets : FilePath
config_secrets = name b'h' ∷ name b'u' ∷ name b'c' ∷ secrets_dir ∷ []

abbrev pub outer_link : FilePath
outer_link = name b'h' ∷ name b'l' ∷ []

abbrev pub expanded_item : Directive → FilePath → ExpandedItem
expanded_item directive p = record {
  directive = directive;
  written = absolute (bytes p);
  origin = command_line;
  path = path p;
}

abbrev pub hide_fuse : ExpandedHideMounts
hide_fuse = record { written = absolute (bytes sub); under = path sub; fstype = codes "fuse" ∷ [] }

abbrev pub expanded : ExpandedPolicy
expanded = record {
  mounts = expanded_item rw_dir work ∷ expanded_item rw_dir sub ∷ expanded_item hide env_file ∷ [];
  scans = [];
  hide_mounts = hide_fuse ∷ [];
  secrets = (codes "k", path key_file) ∷ [];
  path_prepend = [];
}

abbrev pub hit : ScanHit
hit = record { found_at = found_file; target = not_directory found_file; is_link = false }

abbrev fuse_mount : Mount
fuse_mount = record { target = mount_point; fstype = codes "fuse" }

abbrev pub facts : MountFacts
facts = record {
  paths =
      (work, directory work)
      ∷ (sub, directory sub)
      ∷ (env_file, not_directory env_file)
      ∷ (key_file, not_directory key_file)
      ∷ (config, directory config)
      ∷ (config_secrets, directory config_secrets)
      ∷ (mount_point, directory mount_point)
      ∷ (found_file, not_directory found_file)
      ∷ [];
  links = (sub, outer_link ∷ []) ∷ (env_file, outer_link ∷ []) ∷ [];
  directories = (sub, work ∷ []) ∷ (env_file, work ∷ []) ∷ [];
  scan_hits = hit ∷ [];
  mounts = fuse_mount ∷ [];
  mount_list_unreadable = false;
}

abbrev pub variables : Variables
variables = record {
  workspace = work;
  worktree = work;
  git_common_dir = none;
  config_dir = some config;
}

abbrev no_mounts : ResolvedMounts
no_mounts = record { items = []; skipped = []; left_visible = [] }

abbrev pub mounts_or_none : {E : Type 0} → Result E ResolvedMounts → ResolvedMounts
mounts_or_none (ok r) = r
mounts_or_none (err e) = no_mounts

unfoldable pub resolved : ResolvedMounts
unfolding resolve_written
resolved = mounts_or_none (resolve_written expanded facts)

unfoldable pub generated : ResolvedMounts
unfolding resolved generate
generated = mounts_or_none (generate resolved expanded [] variables facts [])

abbrev pub protected : ProtectedPaths
protected = record {
  policy_files = [];
  config_dir = config;
  secrets = (codes "k", key_file) ∷ [];
  path_prepend = [];
  shared_files = none;
}

abbrev pub written_one : Directive → FilePath → WrittenItem
written_one directive p = record {
  directive = directive;
  origin = command_line;
  written = bytes p;
  variable = none;
  path = p;
}

abbrev pub written : WrittenPaths
written = record {
  items = written_one rw_dir work ∷ written_one rw_dir sub ∷ written_one hide env_file ∷ [];
  workspace = none;
}
