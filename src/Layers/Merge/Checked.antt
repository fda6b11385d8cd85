-- ===== src/Layers/Merge/Checked.antt =====
-- crates/kakoi-policy/src/layers.rs: what `check_merged` lets through.
use kakoi.Prelude.{
  ℕ, ◌≤◌, Bool, false, not, ◌&&◌, Option, none, some, List, [], ◌∷◌, any, find, find-none, get,
  is_some, ok, ok_same, Result-cases, Bool-cases, Option-cases, ◌==◌, nat_eq, list_eq, ◌≡◌, refl,
  subst, inl, inr, arith, All, All-of, Distinct,
}
use kakoi.Policy.{Text, PolicyPath}
use kakoi.Network.Limits.{NetworkLimits, validate_deadlines}
use kakoi.Network.Limits.Laws.{InRange, default_limits-InRange, apply-InRange, Between}
use kakoi.Network.Publish.{FixedPublication, inside_end, host_end, merge_publications}
use kakoi.Network.Publish.Laws.{merge_publications-Merged}
use kakoi.Network.Upstream.{validate_upstreams, validate_upstreams-uniform}
use kakoi.Layers.{Layer, listed, list_mode_eq, MergedPolicy, validate_grace}
use kakoi.Layers.Merge.{
  is_empty, or_lower, names_interface, is_filtered, is_inherit, first_policy, merged_with,
  merge_layer, merge_layers, check_network, check_merged, merge,
}
use kakoi.Layers.Merge.Laws.{merge_layer-Round, merge_runs}

-- A policy that no rule of the merged policy forbids.
pub record IsPolicy (p : MergedPolicy) : Type 0 where
  pub system_effect : (not (p.mounts_mode == listed) && not p.mounts_system) ≡ false
  pub commands_effect : (not (p.commands_mode == listed) && not (is_empty p.commands_allow)) ≡ false
  pub pass_effect : (is_inherit p.env_mode && not (is_empty p.env_pass)) ≡ false
  pub set_apart : All (λ e. get e.0 p.secrets ≡ none) p.env_set
  pub no_interface :
      (is_filtered p.network_mode && any (λ rule. names_interface rule.destination) p.network_allow)
      ≡ false
  pub ends_apart : Distinct inside_end p.network_publish
  pub hosts_apart : Distinct host_end p.network_publish
  pub deadlines :
      p.network_limits.dns_server_timeout_seconds ≤ p.network_limits.dns_resolution_timeout_seconds
  pub servers_alike : (kind : Bool) × All (λ u. is_some u.tls_name ≡ kind) p.dns_upstream

-- The publications, the deadlines and the servers.
pub record NetworkChecked (q p : MergedPolicy) : Type 0 where
  pub publish : List FixedPublication
  pub merged : merge_publications q.network_publish ≡ ok publish
  pub deadlines : validate_deadlines q.network_limits ≡ ok tt
  pub servers : validate_upstreams q.dns_upstream ≡ ok tt
  pub same : record q { network_publish = publish } ≡ p

network-checked :
    (q : MergedPolicy) {p : MergedPolicy} → check_network q ≡ ok p → NetworkChecked q p
unfolding check_network
network-checked q h = elim (Result-cases (merge_publications q.network_publish)) [
  | inl (e, bad) ↦ absurd (cc (rw (bad, check_network) at h))
  | inr (publish, good) ↦ elim (Result-cases (validate_deadlines q.network_limits)) [
    | inl (e, late) ↦ absurd (cc (rw (good, late, check_network) at h))
    | inr (u, timely) ↦ elim (Result-cases (validate_upstreams q.dns_upstream)) [
      | inl (e, mixed) ↦ absurd (cc (rw (good, timely, mixed, check_network) at h))
      | inr (v, alike) ↦ record {
        publish = publish;
        merged = good;
        deadlines = timely;
        servers = alike;
        same = ok_same (rw (good, timely, alike, check_network) at h);
      }
    ]
  ]
]

timely-le :
    (limits : NetworkLimits)
    → validate_deadlines limits ≡ ok tt
    → limits.dns_server_timeout_seconds ≤ limits.dns_resolution_timeout_seconds
unfolding validate_deadlines
timely-le limits h = ground (arith, h)

unsecret :
    (secrets : List (Text × PolicyPath)) (set : List (Text × Text))
    → find (λ entry. is_some (get entry.0 secrets)) set ≡ none
    → All (λ e. get e.0 secrets ≡ none) set
unsecret secrets set h = All-of _ set (λ e m. absent (get e.0 secrets) (find-none _ set h m))
  where
    absent : (o : Option PolicyPath) → is_some o ≡ false → o ≡ none
    absent none h = refl
    absent (some p) h = absurd (cc h)

pub check_merged-IsPolicy :
    (q : MergedPolicy) {p : MergedPolicy} → check_merged q ≡ ok p → IsPolicy p × NetworkChecked q p
unfolding check_merged
check_merged-IsPolicy q {p} h =
    let a = not (q.mounts_mode == listed) && not q.mounts_system in
    let b = not (q.commands_mode == listed) && not (is_empty q.commands_allow) in
    let c = is_inherit q.env_mode && not (is_empty q.env_pass) in
    let d =
      is_filtered q.network_mode
      && any (λ rule. names_interface rule.destination) q.network_allow in
    elim (Bool-cases a) [
      | inl x ↦ absurd (cc (rw (x, check_merged) at h))
      | inr na ↦ elim (Bool-cases b) [
        | inl x ↦ absurd (cc (rw (na, x, check_merged) at h))
        | inr nb ↦ elim (Bool-cases c) [
          | inl x ↦ absurd (cc (rw (na, nb, x, check_merged) at h))
          | inr nc ↦
              elim (Option-cases (find (λ entry. is_some (get entry.0 q.secrets)) q.env_set)) [
                | inr (entry, x) ↦ absurd (cc (rw (na, nb, nc, x, check_merged) at h))
                | inl free ↦ elim (Bool-cases d) [
                  | inl x ↦ absurd (cc (rw (na, nb, nc, free, x, check_merged) at h))
                  | inr nd ↦
                      built na nb nc free nd
                        (network-checked q (rw (na, nb, nc, free, nd, check_merged) at h))
                ]
              ]
        ]
      ]
    ]
  where
    built :
        (not (q.mounts_mode == listed) && not q.mounts_system) ≡ false
        → (not (q.commands_mode == listed) && not (is_empty q.commands_allow)) ≡ false
        → (is_inherit q.env_mode && not (is_empty q.env_pass)) ≡ false
        → find (λ entry. is_some (get entry.0 q.secrets)) q.env_set ≡ none
        → (is_filtered q.network_mode
            && any (λ rule. names_interface rule.destination) q.network_allow)
          ≡ false
        → NetworkChecked q p
        → IsPolicy p × NetworkChecked q p
    built na nb nc free nd checked =
        let ends = merge_publications-Merged q.network_publish checked.merged in
        (
          subst IsPolicy checked.same (record {
            system_effect = na;
            commands_effect = nb;
            pass_effect = nc;
            set_apart = unsecret q.secrets q.env_set free;
            no_interface = nd;
            ends_apart = ends.apart;
            hosts_apart = ends.hosts_apart;
            deadlines = timely-le q.network_limits checked.deadlines;
            servers_alike = (validate_upstreams-uniform q.dns_upstream).0 checked.servers;
          }),
          checked,
        )

-- When the layers merge, the policy passes every rule on merged policies: an item that has no effect
-- is refused, no name is both set and a secret, a filtered network has no destination with a host
-- interface, no two publications share an end, the timeout of one server is at most that of a whole
-- resolution, and the servers all use TLS or none does.
pub merge-IsPolicy :
    (layers : List Layer) {policy : MergedPolicy} → merge layers ≡ ok policy → IsPolicy policy
merge-IsPolicy layers h =
    let (merged, run, checked) = merge_runs layers h in (check_merged-IsPolicy merged checked).0

-- The limits and the grace time are in their ranges.
abbrev pub Ranged : MergedPolicy → Type 0
Ranged p = InRange p.network_limits × Between 1 300 p.shutdown_grace_seconds

graced :
    (o : Option ℕ) (n : ℕ)
    → validate_grace o ≡ ok tt
    → Between 1 300 n
    → Between 1 300 (or_lower o n)
unfolding validate_grace
graced none n h b = b
graced (some m) n h b = ground (arith, h)

merge_layers-Ranged :
    (layers : List Layer) (policy : MergedPolicy) {final : MergedPolicy}
    → Ranged policy
    → merge_layers layers policy ≡ ok final
    → Ranged final
unfolding merge_layers merged_with
merge_layers-Ranged [] policy r h = subst Ranged (ok_same h) r
merge_layers-Ranged (layer ∷ layers) policy r h = elim (Result-cases (merge_layer layer policy)) [
  | inl (e, bad) ↦ absurd (cc (rw (bad, merge_layers) at h))
  | inr (next, good) ↦
      let round = merge_layer-Round layer policy good in
      let now : Ranged next = subst Ranged round.made (
        apply-InRange layer.policy.network.limits policy.network_limits r.0 round.applied,
        graced layer.policy.process.shutdown_grace_seconds policy.shutdown_grace_seconds round.grace
            r.1,
      ) in
      merge_layers-Ranged layers next now (rw (good, merge_layers) at h)
]

-- When the layers merge, every limit of the policy and its grace time are in their ranges, whatever
-- the layers write.
pub merge-Ranged :
    (layers : List Layer) {policy : MergedPolicy} → merge layers ≡ ok policy → Ranged policy
unfolding first_policy
merge-Ranged layers h =
    let (merged, run, checked) = merge_runs layers h in
    let network = (check_merged-IsPolicy merged checked).1 in
    let ranged =
      merge_layers-Ranged layers (first_policy layers)
        (default_limits-InRange, (omega arith, omega arith)) run in
    subst Ranged network.same ranged
