-- ===== src/Layers/CommandLine/Laws.antt =====
-- What the command line hides stays hidden, from the layers to the items of the isolation: `merge` of
-- crates/kakoi-policy/src/layers.rs, `expand_policy`, `resolve_written` and `generate` of
-- crates/kakoi-plan/src/mounts.rs.
use kakoi.Prelude.{List}
use kakoi.Paths.{FilePath}
use kakoi.Policy.{Policy, PolicyPath, MountItem, command_line, hide}
use kakoi.Mounts.{Variables, ExpandedItem}
use kakoi.Mounts.Expand.{expand}
use kakoi.Layers.{MergedPolicy}

-- The fields of the merged policy that name paths.
abbrev pub paths_of : MergedPolicy → Policy
paths_of policy = record {
  mounts = policy.mounts;
  scan = policy.scan;
  hide_mounts = policy.hide_mounts;
  path_prepend = policy.path_prepend;
  secrets = policy.secrets;
}

-- A written item of the command line that hides a path.
abbrev hide_item : PolicyPath → MountItem
hide_item p = record { directive = hide; path = p; origin = command_line }

-- The expanded form of a written item.
abbrev expanded_item : Variables → FilePath → MountItem → ExpandedItem
expanded_item variables home_dir item = record {
  directive = item.directive;
  written = item.path;
  origin = item.origin;
  path = expand item.path variables home_dir;
}
