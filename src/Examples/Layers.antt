-- ===== src/Examples/Layers.antt =====
-- The theorems on the merge of the layers at two layers.
use kakoi.Prelude.{
  true, false, none, some, List, [], ◌∷◌, ok, ◌≡◌, refl, find, for_each, list_beq, option_beq, any,
  all, get, option_eq,
}
use kakoi.Policy.{codes, home, built_in_default, command_line, hide, rw_dir, MountItem}
use kakoi.Environment.{inherit, clear}
use kakoi.Environment.Maps.{extend, insert}
use kakoi.Network.Limits.{
  LimitOverrides, default_limits, apply, validate_limits, validate_deadlines, check_bound,
  is_present,
}
use kakoi.Network.Publish.{merge_publications, merge_entries}
use kakoi.Network.Upstream.{validate_upstreams}
use kakoi.Network.Destination.Equality.{bool_beq}
use kakoi.Layers.{host, filtered, PolicyFile, Layer, MergedPolicy, validate_grace, list_mode_beq}
use kakoi.Layers.Merge.{
  merge, merge_layers, merge_layer, merged_with, first_policy, check_merged, check_network,
  strictest_mode, writes_settings, add_rules,
}
use kakoi.Layers.Merge.Checked.{IsPolicy, merge-IsPolicy, Ranged, merge-Ranged}
use kakoi.Layers.Merge.Fields.{Uppermost, merge-Uppermost}
use kakoi.Paths.{bytes}
use kakoi.Policy.{absolute}
use kakoi.Mounts.{ResolvedMounts, ExpandedPolicy}
use kakoi.Mounts.Expand.{expand_policy}
use kakoi.Mounts.Resolve.{resolve_written}
use kakoi.Mounts.Generate.{generate}
use kakoi.Layers.CommandLine.{LayerSelection}
use kakoi.Layers.CommandLine.Laws.{paths_of}
use kakoi.Examples.Scenario.{variables, home_dir, work, mounts_or_none}
use kakoi.Examples.Links.{link, link_facts}

abbrev no_overrides : LimitOverrides
no_overrides = record {
  udp_idle_timeout_seconds = none;
  dns_zero_ttl_grace_milliseconds = none;
  dns_server_timeout_seconds = none;
  dns_resolution_timeout_seconds = none;
  dns_max_cname_hops = none;
  dns_max_upstream_queries = none;
  dns_max_concurrent_resolutions = none;
  dns_max_waiters_per_resolution = none;
  dns_failure_cache_seconds = none;
  recovery_attempt_timeout_seconds = none;
}

abbrev default_file : PolicyFile
default_file = record {
  mounts = record {
    mode = none;
    system = none;
    rw = [];
    rw_file = [];
    rw_copy = [];
    ro = [];
    hide = home (codes "/.ssh") ∷ [];
    scan = [];
    hide_mounts = [];
  };
  network = record {
    mode = some filtered;
    publish = [];
    allow = [];
    limits = record no_overrides { dns_max_cname_hops = some 8 };
    dns_upstream = [];
    allow_nested_filtered = none;
    settings_present = true;
  };
  process = record { shutdown_grace_seconds = none };
  env = record { mode = some inherit; pass = []; set = []; unset = []; path_prepend = [] };
  secrets = [];
  git = record { instead_of = [] };
  commands = record { mode = none; allow = []; guard = [] };
}

abbrev upper_file : PolicyFile
upper_file = record default_file {
  mounts = record default_file.mounts { rw = home (codes "/src") ∷ []; hide = [] };
  network = record default_file.network {
    mode = none;
    limits = no_overrides;
    settings_present = false;
  };
  process = record { shutdown_grace_seconds = some 9 };
  env = record default_file.env { mode = some clear };
}

abbrev lowest : Layer
lowest = record { origin = built_in_default; policy = default_file }

abbrev layers : List Layer
layers = lowest ∷ record { origin = command_line; policy = upper_file } ∷ []

abbrev hidden_keys : MountItem
hidden_keys = record { directive = hide; path = home (codes "/.ssh"); origin = built_in_default }

abbrev policy : MergedPolicy
policy = record {
  mounts_mode = host;
  mounts_system = true;
  mounts =
      hidden_keys
      ∷ record { directive = rw_dir; path = home (codes "/src"); origin = command_line }
      ∷ [];
  scan = [];
  hide_mounts = [];
  network_mode = filtered;
  network_settings_present = true;
  network_publish = [];
  network_allow = [];
  network_limits = record default_limits { dns_max_cname_hops = 8 };
  dns_upstream = [];
  shutdown_grace_seconds = 9;
  allow_nested_filtered = false;
  env_mode = clear;
  env_pass = [];
  env_set = [];
  env_unset = [];
  path_prepend = [];
  secrets = [];
  instead_of = [];
  commands_mode = host;
  commands_allow = [];
  guards = [];
}

merged : merge layers ≡ ok policy
unfolding merge merge_layers merge_layer merged_with first_policy check_merged check_network
    strictest_mode writes_settings add_rules extend insert validate_grace list_mode_beq
    merge_publications merge_entries validate_upstreams apply validate_limits validate_deadlines
    check_bound is_present for_each find any all option_beq option_eq list_beq bool_beq get
merged = refl

merge-IsPolicy_example : IsPolicy policy
merge-IsPolicy_example = merge-IsPolicy layers merged

merge-Ranged_example : Ranged policy
merge-Ranged_example = merge-Ranged layers merged

merge-Uppermost_example : Uppermost layers policy
merge-Uppermost_example = merge-Uppermost layers merged

-- The command line makes the work place writable and hides a file inside it, through a link.
abbrev selection : LayerSelection
selection = record {
  profile = codes "default";
  policy_file = none;
  rw = bytes work ∷ [];
  hide = bytes link ∷ [];
}

abbrev selected : MergedPolicy
selected = record policy {
  mounts =
      hidden_keys
      ∷ record { directive = rw_dir; path = absolute (bytes work); origin = command_line }
      ∷ record { directive = hide; path = absolute (bytes link); origin = command_line }
      ∷ [];
  shutdown_grace_seconds = 5;
  env_mode = inherit;
}

abbrev expanded : ExpandedPolicy
expanded = expand_policy (paths_of selected) variables home_dir

unfoldable resolved : ResolvedMounts
unfolding resolve_written
resolved = mounts_or_none (resolve_written expanded link_facts)

unfoldable generated : ResolvedMounts
unfolding resolved generate
generated = mounts_or_none (generate resolved expanded [] variables link_facts [])
