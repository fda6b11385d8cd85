-- ===== src/Layers/Merge.antt =====
-- crates/kakoi-policy/src/layers.rs: `merge`, `check_merged` and `strictest_mode`.
pub mod Laws
pub mod Fields
pub mod Checked
use kakoi.Prelude.{
  ℕ, Bool, true, false, not, ◌&&◌, ◌||◌, Option, none, some, List, [], ◌∷◌, ◌++◌, map, any, all,
  find, get, is_some, if◌then◌else◌, Result, ok, err, Eq, ◌==◌, nat_eq, list_eq, option_eq, pair_eq,
  option_beq, list_beq, ◌≡◌, ◌↔◌, refl, arith,
}
use kakoi.Policy.{
  Text, PolicyPath, MountItem, Directive, rw_dir, rw_file, rw_copy, ro, hide, LayerOrigin,
}
use kakoi.Ports.{PortRange}
use kakoi.Guard.{GuardRule}
use kakoi.Environment.{EnvMode, inherit, clear, Values}
use kakoi.Environment.Maps.{insert, extend}
use kakoi.Network.{Protocol, protocol_beq}
use kakoi.Network.Name.{DnsPattern}
use kakoi.Network.Address.{IpNetwork}
use kakoi.Network.Destination.{Destination, dns, address, host_loopback, Allow}
use kakoi.Network.Destination.Equality.{allow_eq, allow_beq, bool_eq, bool_beq}
use kakoi.Network.Limits.{NetworkLimits, default_limits, apply, validate_deadlines, is_present}
use kakoi.Network.Publish.{merge_publications}
use kakoi.Network.Upstream.{validate_upstreams}
use kakoi.Net.Leases.{ip_beq}
use kakoi.Layers.{
  ListMode, host, listed, list_mode_eq, list_mode_beq, NetworkMode, filtered, host_network,
  no_network, PolicyFile, Layer, GuardEntry, MergedPolicy, MergeError, mode_not_written,
  system_has_no_effect, commands_have_no_effect, pass_has_no_effect, set_and_secret,
  interface_not_supported, bad_limits, bad_publication, bad_upstreams, validate_grace,
}

-- `strictest_mode`
unfoldable pub strictest_mode : List (Option ListMode) → ListMode
unfolding option_beq
strictest_mode written = if any (λ mode. mode == some listed) written then listed else host

abbrev pub is_empty {ℓ} : {A : Type ℓ} → List A → Bool
is_empty [] = true
is_empty (x ∷ xs) = false

-- A layer that writes a setting of the filtered network.
unfoldable pub writes_settings : PolicyFile → Bool
unfolding is_present
writes_settings file =
    is_some file.process.shutdown_grace_seconds
    || (file.network.settings_present
        || (not (is_empty file.network.allow)
            || (not (is_empty file.network.dns_upstream)
                || (not (is_empty file.network.publish) || is_present file.network.limits))))

-- `Option::unwrap_or`, which is how the scalars of the upper layer are taken.
abbrev pub or_lower {ℓ} : {A : Type ℓ} → Option A → A → A
or_lower none lower = lower
or_lower (some upper) lower = upper

-- The items of one directive.
abbrev pub items_of : Layer → Directive → List PolicyPath → List MountItem
items_of layer d paths =
    map (λ path. record { directive = d; path = path; origin = layer.origin }) paths

-- The mount items of one layer.
abbrev pub layer_items : Layer → List MountItem
layer_items layer =
    items_of layer rw_dir layer.policy.mounts.rw
    ++ (items_of layer rw_file layer.policy.mounts.rw_file
        ++ (items_of layer rw_copy layer.policy.mounts.rw_copy
            ++ (items_of layer ro layer.policy.mounts.ro
                ++ items_of layer hide layer.policy.mounts.hide)))

-- The loop over `network.allow`: a rule that is there is not added again.
unfoldable pub add_rules : List Allow → List Allow → List Allow
unfolding allow_beq
add_rules [] rules = rules
add_rules (rule ∷ more) rules =
    add_rules more (if any (λ r. r == rule) rules then rules else rules ++ (rule ∷ []))

-- The policy that the loop starts from.
unfoldable pub first_policy : List Layer → MergedPolicy
unfolding strictest_mode writes_settings option_beq bool_beq
first_policy layers = record {
  mounts_mode = strictest_mode (map (λ layer. layer.policy.mounts.mode) layers);
  mounts_system = all (λ layer. not (layer.policy.mounts.system == some false)) layers;
  mounts = [];
  scan = [];
  hide_mounts = [];
  network_mode = host_network;
  network_settings_present = any (λ layer. writes_settings layer.policy) layers;
  network_publish = [];
  network_allow = [];
  network_limits = default_limits;
  dns_upstream = [];
  shutdown_grace_seconds = 5;
  allow_nested_filtered = false;
  env_mode = inherit;
  env_pass = [];
  env_set = [];
  env_unset = [];
  path_prepend = [];
  secrets = [];
  instead_of = [];
  commands_mode = strictest_mode (map (λ layer. layer.policy.commands.mode) layers);
  commands_allow = [];
  guards = [];
}

-- The body of the loop, once the process table and the limits are valid.
unfoldable pub merged_with : Layer → NetworkLimits → MergedPolicy → MergedPolicy
unfolding extend add_rules
merged_with layer limits policy =
    let file = layer.policy in
    record policy {
      shutdown_grace_seconds =
          or_lower file.process.shutdown_grace_seconds policy.shutdown_grace_seconds;
      mounts = policy.mounts ++ layer_items layer;
      scan = policy.scan ++ file.mounts.scan;
      hide_mounts = policy.hide_mounts ++ file.mounts.hide_mounts;
      network_mode = or_lower file.network.mode policy.network_mode;
      allow_nested_filtered =
          or_lower file.network.allow_nested_filtered policy.allow_nested_filtered;
      network_publish = policy.network_publish ++ file.network.publish;
      dns_upstream = policy.dns_upstream ++ file.network.dns_upstream;
      network_limits = limits;
      network_allow = add_rules file.network.allow policy.network_allow;
      env_mode = or_lower file.env.mode policy.env_mode;
      env_pass = policy.env_pass ++ file.env.pass;
      env_set = extend file.env.set policy.env_set;
      env_unset = policy.env_unset ++ file.env.unset;
      path_prepend = file.env.path_prepend ++ policy.path_prepend;
      secrets = extend file.secrets policy.secrets;
      instead_of = extend file.git.instead_of policy.instead_of;
      commands_allow = policy.commands_allow ++ file.commands.allow;
      guards =
          policy.guards
          ++ map (λ rule. record { rule = rule; origin = layer.origin }) file.commands.guard;
    }

unfoldable pub merge_layer : Layer → MergedPolicy → Result MergeError MergedPolicy
unfolding validate_grace merged_with
merge_layer layer policy = elim (validate_grace layer.policy.process.shutdown_grace_seconds) [
  | err e ↦ err e
  | ok _ ↦ elim (apply layer.policy.network.limits policy.network_limits) [
    | err e ↦ err (bad_limits e)
    | ok limits ↦ ok (merged_with layer limits policy)
  ]
]

unfoldable pub merge_layers : List Layer → MergedPolicy → Result MergeError MergedPolicy
unfolding merge_layer
merge_layers [] policy = ok policy
merge_layers (layer ∷ layers) policy = elim (merge_layer layer policy) [
  | err e ↦ err e
  | ok next ↦ merge_layers layers next
]

-- A destination with a host interface.
abbrev pub names_interface : Destination → Bool
names_interface (dns pattern) = false
names_interface (host_loopback family) = false
names_interface (address network interface) = is_some interface

abbrev pub is_filtered : NetworkMode → Bool
is_filtered filtered = true
is_filtered host_network = false
is_filtered no_network = false

abbrev pub is_inherit : EnvMode → Bool
is_inherit inherit = true
is_inherit clear = false

-- The last three checks, which replace the publications by their merged form.
unfoldable pub check_network : MergedPolicy → Result MergeError MergedPolicy
check_network policy = elim (merge_publications policy.network_publish) [
  | err e ↦ err (bad_publication e)
  | ok publish ↦ elim (validate_deadlines policy.network_limits) [
    | err e ↦ err (bad_limits e)
    | ok _ ↦ elim (validate_upstreams policy.dns_upstream) [
      | err e ↦ err (bad_upstreams e)
      | ok _ ↦ ok (record policy { network_publish = publish })
    ]
  ]
]

-- `check_merged`
unfoldable pub check_merged : MergedPolicy → Result MergeError MergedPolicy
unfolding check_network
check_merged policy =
    let checked = check_network policy in
    if not (policy.mounts_mode == listed) && not policy.mounts_system
    then err system_has_no_effect
    else if not (policy.commands_mode == listed) && not (is_empty policy.commands_allow)
    then err commands_have_no_effect
    else if is_inherit policy.env_mode && not (is_empty policy.env_pass)
    then err pass_has_no_effect
    else elim (find (λ entry. is_some (get entry.0 policy.secrets)) policy.env_set) [
      | some entry ↦ err (set_and_secret entry.0)
      | none ↦
          if is_filtered policy.network_mode
            && any (λ rule. names_interface rule.destination) policy.network_allow
          then err interface_not_supported
          else checked
    ]

-- `merge`, the layers lowest first.
unfoldable pub merge : List Layer → Result MergeError MergedPolicy
unfolding writes_settings merge_layers first_policy check_merged
merge layers =
    if any (λ layer. writes_settings layer.policy) layers
      && not (any (λ layer. is_some layer.policy.network.mode) layers)
    then err mode_not_written
    else elim (merge_layers layers (first_policy layers)) [
      | err e ↦ err e
      | ok policy ↦ check_merged policy
    ]
