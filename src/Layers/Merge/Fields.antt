-- ===== src/Layers/Merge/Fields.antt =====
-- crates/kakoi-policy/src/layers.rs: how each field of the merged policy comes from the layers.
use mathlib.Core.List.{append-nil}
use kakoi.Prelude.{
  false, Option, some, List, [], ◌∷◌, ◌++◌, map, any-of, ok, ◌==◌, eq_refl, option_eq, option_beq,
  ◌≡◌, refl, sym, ◌∙◌, ap, subst, In, here, there, In-append_left, In-append_right, In-map,
}
use kakoi.Policy.{MountItem, PolicyPath, rw_dir, rw_file, rw_copy, ro, hide}
use kakoi.Environment.{inherit}
use kakoi.Network.Limits.{NetworkLimits}
use kakoi.Network.Publish.{FixedPublication}
use kakoi.Layers.{ListMode, listed, list_mode_eq, host_network, Layer, MergedPolicy}
use kakoi.Layers.Merge.{
  or_lower, strictest_mode, items_of, layer_items, first_policy, merged_with, merge,
}
use kakoi.Layers.Merge.Laws.{
  fold_layers, fold_field, last_written, in_order, upper_first, fold_or_lower, fold_append,
  fold_prepend, fold_same, merge_runs,
}
use kakoi.Layers.Merge.Checked.{check_merged-IsPolicy}

-- A field that the loop changes by `step` and that the last checks keep.
merged_field {ℓ} :
    {A : Type ℓ} (field : MergedPolicy → A) (step : Layer → A → A)
    → ((layer : Layer) (limits : NetworkLimits) (policy : MergedPolicy)
        → field (merged_with layer limits policy) ≡ step layer (field policy))
    → ((policy : MergedPolicy) (publish : List FixedPublication)
        → field (record policy { network_publish = publish }) ≡ field policy)
    → (layers : List Layer) {policy : MergedPolicy} → merge layers ≡ ok policy
    → field policy ≡ fold_layers step layers (field (first_policy layers))
merged_field field step each keeps layers h =
    let (merged, run, checked) = merge_runs layers h in
    let network = (check_merged-IsPolicy merged checked).1 in
    ap field (sym network.same)
    ∙ keeps merged network.publish
    ∙ fold_field field step each layers (first_policy layers) run

-- The scalars of a policy, each by what the last layer that writes it writes.
pub record Uppermost (layers : List Layer) (p : MergedPolicy) : Type 0 where
  pub network_mode :
      p.network_mode ≡ or_lower (last_written (λ l. l.policy.network.mode) layers) host_network
  pub nested :
      p.allow_nested_filtered
      ≡ or_lower (last_written (λ l. l.policy.network.allow_nested_filtered) layers) false
  pub env_mode : p.env_mode ≡ or_lower (last_written (λ l. l.policy.env.mode) layers) inherit
  pub grace :
      p.shutdown_grace_seconds
      ≡ or_lower (last_written (λ l. l.policy.process.shutdown_grace_seconds) layers) 5

-- When the layers merge, the network mode, the leave for a nested filtered network, the environment's
-- mode and the grace time are each what the uppermost layer that writes it says, or the default when
-- none does.
pub merge-Uppermost :
    (layers : List Layer) {policy : MergedPolicy}
    → merge layers ≡ ok policy
    → Uppermost layers policy
unfolding first_policy merged_with
merge-Uppermost layers h = record {
  network_mode =
      merged_field (λ p. p.network_mode) (λ l a. or_lower l.policy.network.mode a) (λ l n p. refl)
        (λ p n. refl) layers h
      ∙ fold_or_lower (λ l. l.policy.network.mode) layers host_network;
  nested =
      merged_field (λ p. p.allow_nested_filtered)
        (λ l a. or_lower l.policy.network.allow_nested_filtered a) (λ l n p. refl) (λ p n. refl)
        layers h
      ∙ fold_or_lower (λ l. l.policy.network.allow_nested_filtered) layers false;
  env_mode =
      merged_field (λ p. p.env_mode) (λ l a. or_lower l.policy.env.mode a) (λ l n p. refl)
        (λ p n. refl) layers h
      ∙ fold_or_lower (λ l. l.policy.env.mode) layers inherit;
  grace =
      merged_field (λ p. p.shutdown_grace_seconds)
        (λ l a. or_lower l.policy.process.shutdown_grace_seconds a) (λ l n p. refl) (λ p n. refl)
        layers h
      ∙ fold_or_lower (λ l. l.policy.process.shutdown_grace_seconds) layers 5;
}

-- The lists of a policy, put together from the layers.
pub record Concatenated (layers : List Layer) (p : MergedPolicy) : Type 0 where
  pub mounts : p.mounts ≡ in_order layer_items layers
  pub env_pass : p.env_pass ≡ in_order (λ l. l.policy.env.pass) layers
  pub env_unset : p.env_unset ≡ in_order (λ l. l.policy.env.unset) layers
  pub commands_allow : p.commands_allow ≡ in_order (λ l. l.policy.commands.allow) layers
  pub servers : p.dns_upstream ≡ in_order (λ l. l.policy.network.dns_upstream) layers
  pub path_prepend : p.path_prepend ≡ upper_first (λ l. l.policy.env.path_prepend) layers

-- When the layers merge, the lists of the layers follow each other, the lowest layer's first, but the
-- paths put in front of `PATH` have the uppermost layer's first.
pub merge-Concatenated :
    (layers : List Layer) {policy : MergedPolicy}
    → merge layers ≡ ok policy
    → Concatenated layers policy
unfolding first_policy merged_with
merge-Concatenated layers h = record {
  mounts =
      merged_field (λ p. p.mounts) (λ l a. a ++ layer_items l) (λ l n p. refl) (λ p n. refl) layers
        h
      ∙ fold_append layer_items layers [];
  env_pass =
      merged_field (λ p. p.env_pass) (λ l a. a ++ l.policy.env.pass) (λ l n p. refl) (λ p n. refl)
        layers h
      ∙ fold_append (λ l. l.policy.env.pass) layers [];
  env_unset =
      merged_field (λ p. p.env_unset) (λ l a. a ++ l.policy.env.unset) (λ l n p. refl) (λ p n. refl)
        layers h
      ∙ fold_append (λ l. l.policy.env.unset) layers [];
  commands_allow =
      merged_field (λ p. p.commands_allow) (λ l a. a ++ l.policy.commands.allow) (λ l n p. refl)
        (λ p n. refl) layers h
      ∙ fold_append (λ l. l.policy.commands.allow) layers [];
  servers =
      merged_field (λ p. p.dns_upstream) (λ l a. a ++ l.policy.network.dns_upstream) (λ l n p. refl)
        (λ p n. refl) layers h
      ∙ fold_append (λ l. l.policy.network.dns_upstream) layers [];
  path_prepend =
      merged_field (λ p. p.path_prepend) (λ l a. l.policy.env.path_prepend ++ a) (λ l n p. refl)
        (λ p n. refl) layers h
      ∙ fold_prepend (λ l. l.policy.env.path_prepend) layers []
      ∙ append-nil (upper_first (λ l. l.policy.env.path_prepend) layers);
}

In-in_order {ℓ} :
    {A : Type ℓ} (f : Layer → List A) {a : A} {layer : Layer} (layers : List Layer)
    → In layer layers
    → In a (f layer)
    → In a (in_order f layers)
In-in_order f [] m i = elim m [ ]
In-in_order f {a} (l ∷ layers) (here same) i =
    In-append_left (f l) (in_order f layers) (subst (λ z. In a (f z)) same i)
In-in_order f (l ∷ layers) (there m) i =
    In-append_right (f l) (in_order f layers) (In-in_order f layers m i)

In-last {ℓ} :
    {A : Type ℓ} (a b c d e : List A) {x : A} → In x e → In x (a ++ (b ++ (c ++ (d ++ e))))
In-last a b c d e m =
    In-append_right a (b ++ (c ++ (d ++ e)))
      (In-append_right b (c ++ (d ++ e)) (In-append_right c (d ++ e) (In-append_right d e m)))

-- When the layers merge, a path that any layer hides is hidden by the policy, as an item of that
-- layer, whatever the layers above and below it write.
pub merge-keeps_hide :
    (layers : List Layer) (layer : Layer) (path : PolicyPath) {policy : MergedPolicy}
    → In layer layers
    → In path layer.policy.mounts.hide
    → merge layers ≡ ok policy
    → In (record { directive = hide; path = path; origin = layer.origin }) policy.mounts
merge-keeps_hide layers layer path {policy} m i h =
    let item : PolicyPath → MountItem =
      λ p. record { directive = hide; path = p; origin = layer.origin } in
    let table = layer.policy.mounts in
    let own : In (item path) (layer_items layer) =
      In-last (items_of layer rw_dir table.rw) (items_of layer rw_file table.rw_file)
        (items_of layer rw_copy table.rw_copy) (items_of layer ro table.ro)
        (items_of layer hide table.hide) (In-map item table.hide i) in
    subst (In (item path)) (sym (merge-Concatenated layers h).mounts)
      (In-in_order layer_items layers m own)

strict :
    (f : Layer → Option ListMode) (layer : Layer) (layers : List Layer)
    → In layer layers
    → f layer ≡ some listed
    → strictest_mode (map f layers) ≡ listed
unfolding strictest_mode option_beq
strict f layer layers m w =
    let there : In (some listed) (map f layers) =
      subst (λ z. In z (map f layers)) w (In-map f layers m) in
    rw (any-of (λ mode. mode == some listed) (map f layers) there (eq_refl (some listed))) refl

-- When the layers merge and some layer writes the mode `listed` for the mounts, that is the mode of
-- the policy: no layer loosens it.
merge-strictest :
    (layers : List Layer) (layer : Layer) {policy : MergedPolicy}
    → In layer layers
    → layer.policy.mounts.mode ≡ some listed
    → merge layers ≡ ok policy
    → policy.mounts_mode ≡ listed
unfolding first_policy merged_with
merge-strictest layers layer m w h =
    merged_field (λ p. p.mounts_mode) (λ l a. a) (λ l n p. refl) (λ p n. refl) layers h
    ∙ fold_same layers (strictest_mode (map (λ l. l.policy.mounts.mode) layers))
    ∙ strict (λ l. l.policy.mounts.mode) layer layers m w

-- The same for the commands.
merge-strictest_commands :
    (layers : List Layer) (layer : Layer) {policy : MergedPolicy}
    → In layer layers
    → layer.policy.commands.mode ≡ some listed
    → merge layers ≡ ok policy
    → policy.commands_mode ≡ listed
unfolding first_policy merged_with
merge-strictest_commands layers layer m w h =
    merged_field (λ p. p.commands_mode) (λ l a. a) (λ l n p. refl) (λ p n. refl) layers h
    ∙ fold_same layers (strictest_mode (map (λ l. l.policy.commands.mode) layers))
    ∙ strict (λ l. l.policy.commands.mode) layer layers m w
