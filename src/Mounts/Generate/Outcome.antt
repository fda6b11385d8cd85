-- ===== src/Mounts/Generate/Outcome.antt =====
-- What a successful `generate` guarantees of its result.
use kakoi.Prelude.{
  ◌≡◌, sym, ◌∙◌, ap, subst, some, List, [], ◌++◌, true, ok, >>=-eq-ok, In, All, sort_by, arith,
  In-append_left, In-append_right, In-filter_map, All-append, for_each-ok, list_eq,
}
use kakoi.Paths.{FilePath, name_eq, join}
use kakoi.Policy.{Text, LayerOrigin, rw_dir, rw_file, hide}
use kakoi.Mounts.{
  Variables, path, ExpandedHideMounts, ExpandedPolicy, Mount, MountFacts, entry, EntryKind,
  directory_kind, not_directory_kind, ItemOrigin, ResolvedItem, ResolvedMounts, real_and_kind,
  expansion_path,
}
use kakoi.Mounts.Covering.{hidden}
use kakoi.Mounts.Resolve.{resolve_written}
use kakoi.Mounts.Resolve.Laws.{resolve_written-ordered}
use kakoi.Mounts.Generate.{
  Scanned, scan_items, hit_le, hide_mounts_items, hide_mounts_loop, under_real, is_hidden_mount,
  secret_items, secret_hide, config_secrets_hide, secrets_name, check_kind, check_kinds,
  merged_items, generate, policy_files,
}
use kakoi.Mounts.Generate.Laws.{IsHide, merged_items-hidden, merged_items-keeps_hidden}
use kakoi.Mounts.Generate.Hidden.{
  secret_items-All, hide_mounts_loop-All, In-hide_mounts_loop, generated_hide-some, In-option_list,
}
use kakoi.Mounts.Generate.Scan.{scan_loop-Extends}

-- A run of `generate` that succeeded, after the written items were resolved.
record IsGenerated (expanded : ExpandedPolicy) (layers : List LayerOrigin) (variables : Variables)
    (facts : MountFacts) (swappable_ro : List FilePath) (w r : ResolvedMounts) : Type 0 where
  scanned : Scanned
  scan : scan_items w.items layers facts swappable_ro ≡ ok scanned
  kinds : check_kinds r.items ≡ ok tt
  items :
      r.items
      ≡ merged_items w.items (
          scanned.hidden
          ++ (hide_mounts_loop variables facts expanded.hide_mounts
              ++ secret_items expanded variables facts))

module _ (expanded : ExpandedPolicy) (layers : List LayerOrigin) (variables : Variables)
    (facts : MountFacts) (swappable_ro : List FilePath) (w : ResolvedMounts)
    {r : ResolvedMounts} where
  generate-ok :
      generate w expanded layers variables facts swappable_ro ≡ ok r
      → IsGenerated expanded layers variables facts swappable_ro w r
  unfolding generate hide_mounts_items
  generate-ok h =
      let (scanned, e, h') = >>=-eq-ok (scan_items w.items layers facts swappable_ro) _ h in
      let (mounts, f, k) = >>=-eq-ok (hide_mounts_items expanded variables facts) _ h' in
      let (checked, g, l) =
        >>=-eq-ok
          (check_kinds (
            merged_items w.items
              (scanned.hidden ++ (mounts ++ secret_items expanded variables facts))))
          _ k in
      let read : mounts ≡ hide_mounts_loop variables facts expanded.hide_mounts = ground arith in
      let items : r.items
          ≡ merged_items w.items
              (scanned.hidden ++ (mounts ++ secret_items expanded variables facts)) =
        ground arith in
      record {
        scanned = scanned;
        scan = e;
        kinds = rw items g;
        items =
            items
            ∙ ap
                (λ m.
                  merged_items w.items
                    (scanned.hidden ++ (m ++ secret_items expanded variables facts)))
                read;
      }

  module _ (resolved : resolve_written expanded facts ≡ ok w)
      (run : generate w expanded layers variables facts swappable_ro ≡ ok r) where
    abbrev v : IsGenerated expanded layers variables facts swappable_ro w r
    v = generate-ok run

    abbrev generated : List ResolvedItem
    generated =
        v.scanned.hidden
        ++ (hide_mounts_loop variables facts expanded.hide_mounts
            ++ secret_items expanded variables facts)

    scanned-All : All IsHide v.scanned.hidden
    unfolding scan_items
    scanned-All =
        let (more, grown, h) =
          scan_loop-Extends w.items (policy_files layers facts) swappable_ro
            (sort_by hit_le facts.scan_hits) (record { hidden = []; left_visible = [] }) v.scanned
            v.scan in
        subst (All IsHide) (sym grown) h

    generated-All : All IsHide generated
    generated-All = All-append IsHide v.scanned.hidden _ scanned-All (
        All-append IsHide (hide_mounts_loop variables facts expanded.hide_mounts) _
          (hide_mounts_loop-All variables facts expanded.hide_mounts)
          (secret_items-All expanded variables facts))

    -- Each generated item is hidden at its place.
    generated-hidden :
        (real : FilePath)
        → (g : ResolvedItem) × In g generated × (g.real ≡ real)
        → hidden real r.items ≡ true
    generated-hidden real (g, m, e) =
        subst (λ z. hidden real z ≡ true) (sym v.items)
          (subst (λ z. hidden z (merged_items w.items generated) ≡ true) e
            (merged_items-hidden w.items generated
              (resolve_written-ordered expanded facts resolved).1 generated-All m))

  -- After `resolve_written` and `generate` succeed, the place of a resolved `hide` item is hidden.
  pub generate-keeps_hidden :
      (x : ResolvedItem)
      → resolve_written expanded facts ≡ ok w
      → generate w expanded layers variables facts swappable_ro ≡ ok r
      → In x w.items
      → x.directive ≡ hide
      → hidden x.real r.items ≡ true
  generate-keeps_hidden x resolved run m k =
      subst (λ z. hidden x.real z ≡ true) (sym (v resolved run).items)
        (merged_items-keeps_hidden w.items (generated resolved run)
          (resolve_written-ordered expanded facts resolved).1 (generated-All resolved run) m k)

  -- After `resolve_written` and `generate` succeed, each secret file that exists is hidden: the item in
  -- force at its real path is a `hide`.
  pub generate-hides_secret :
      (name : Text) (p : FilePath) {real : FilePath} {kind : EntryKind}
      → resolve_written expanded facts ≡ ok w
      → generate w expanded layers variables facts swappable_ro ≡ ok r
      → In (name, path p) expanded.secrets
      → real_and_kind (entry facts p) ≡ some (real, kind)
      → hidden real r.items ≡ true
  unfolding secret_items secret_hide expansion_path
  generate-hides_secret name p {real} resolved run m k =
      let (g, e, q) = generated_hide-some p (ItemOrigin.secret_file name) (entry facts p) k in
      generated-hidden resolved run real (
        g,
        In-append_right (v resolved run).scanned.hidden _ (
            In-append_right (hide_mounts_loop variables facts expanded.hide_mounts) _
              (In-append_left _ _ (In-filter_map (secret_hide facts) expanded.secrets m e))),
        q,
      )

  -- After `resolve_written` and `generate` succeed, the `secrets/` directory of the configuration
  -- directory is hidden where it exists.
  generate-hides_config_secrets :
      (config_dir : FilePath) {real : FilePath} {kind : EntryKind}
      → resolve_written expanded facts ≡ ok w
      → generate w expanded layers variables facts swappable_ro ≡ ok r
      → variables.config_dir ≡ some config_dir
      → real_and_kind (entry facts (join config_dir secrets_name)) ≡ some (real, kind)
      → hidden real r.items ≡ true
  unfolding secret_items config_secrets_hide
  generate-hides_config_secrets config_dir {real} resolved run c k =
      let place : FilePath = join config_dir secrets_name in
      let (g, e, q) = generated_hide-some place ItemOrigin.config_secrets (entry facts place) k in
      generated-hidden resolved run real (
        g,
        In-append_right (v resolved run).scanned.hidden _ (
            In-append_right (hide_mounts_loop variables facts expanded.hide_mounts) _
              (rw (c, secret_items) (In-append_right _ _ (In-option_list e)))),
        q,
      )

  -- After `resolve_written` and `generate` succeed, each mount that a `hide-mounts` entry selects (under
  -- its `under`, of a listed type, not a work place) is hidden at its real path.
  generate-hides_mount :
      (h : ExpandedHideMounts) (m : Mount) {under real : FilePath} {kind : EntryKind}
      → resolve_written expanded facts ≡ ok w
      → generate w expanded layers variables facts swappable_ro ≡ ok r
      → In h expanded.hide_mounts
      → under_real variables facts h ≡ some under
      → In m facts.mounts
      → is_hidden_mount variables h under m ≡ true
      → real_and_kind (entry facts m.target) ≡ some (real, kind)
      → hidden real r.items ≡ true
  generate-hides_mount h m {real} resolved run ih u im sel k =
      let (g, mg, q) = In-hide_mounts_loop variables facts expanded.hide_mounts ih u im sel k in
      generated-hidden resolved run real
        (g, In-append_right (v resolved run).scanned.hidden _ (In-append_left _ _ mg), q)

  -- After `generate` succeeds, no `rw` item is something other than a directory, and no `rw-file` item
  -- is a directory.
  generate-kinds :
      (item : ResolvedItem)
      → generate w expanded layers variables facts swappable_ro ≡ ok r
      → In item r.items
      → (¬ ((item.directive ≡ rw_dir) × (item.kind ≡ not_directory_kind)))
        × (¬ ((item.directive ≡ rw_file) × (item.kind ≡ directory_kind)))
  unfolding check_kinds check_kind
  generate-kinds item run m =
      let checked : check_kind item ≡ ok tt =
        for_each-ok check_kind r.items (generate-ok run).kinds m in
      (λ (d, k). absurd (ground arith), λ (d, k). absurd (ground arith))
