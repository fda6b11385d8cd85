-- ===== src/Layers/CommandLine.antt =====
-- crates/kakoi-policy/src/layers.rs: the layer that the command line gives.
pub mod Laws
use kakoi.Prelude.{none, Option, List, [], map, false}
use kakoi.Paths.{FilePath}
use kakoi.Policy.{Text, absolute, command_line}
use kakoi.Network.Limits.{LimitOverrides}
use kakoi.Layers.{PolicyFile, Layer}

-- The paths of `rw` and `hide` are absolute already, and kept as they are written.
pub record LayerSelection : Type 0 where
  pub profile : Text
  pub policy_file : Option FilePath
  pub rw : List Text
  pub hide : List Text

-- The default of every override.
abbrev pub no_overrides : LimitOverrides
no_overrides = record {
  udp_idle_timeout_seconds = none;
  dns_zero_ttl_grace_milliseconds = none;
  dns_server_timeout_seconds = none;
  dns_resolution_timeout_seconds = none;
  dns_max_cname_hops = none;
  dns_max_upstream_queries = none;
  dns_max_concurrent_resolutions = none;
  dns_max_waiters_per_resolution = none;
  dns_failure_cache_seconds = none;
  recovery_attempt_timeout_seconds = none;
}

-- `PolicyFile::default` with the `rw` and `hide` paths of the command line.
abbrev pub selected_file : LayerSelection → PolicyFile
selected_file selection = record {
  mounts = record {
    mode = none;
    system = none;
    rw = map absolute selection.rw;
    rw_file = [];
    rw_copy = [];
    ro = [];
    hide = map absolute selection.hide;
    scan = [];
    hide_mounts = [];
  };
  network = record {
    mode = none;
    publish = [];
    allow = [];
    limits = no_overrides;
    dns_upstream = [];
    allow_nested_filtered = none;
    settings_present = false;
  };
  process = record { shutdown_grace_seconds = none };
  env = record { mode = none; pass = []; set = []; unset = []; path_prepend = [] };
  secrets = [];
  git = record { instead_of = [] };
  commands = record { mode = none; allow = []; guard = [] };
}

-- `Layer::command_line`
abbrev pub command_line_layer : LayerSelection → Layer
command_line_layer selection = record { origin = command_line; policy = selected_file selection }
