-- ===== src/Placement/Origins/Laws.antt =====
-- The guarantees of an accepting `check_origins`.
use kakoi.Prelude.{
  ◌≡◌, Option, some, List, true, false, any, any-true, ok, for_each-ok, In, Option-cases,
  Bool-cases, inl, inr, arith, ◌==◌, list_eq, eq_of, &&-true, ◌⊎◌, refl, map, In-append_left,
  In-append_right, In-map,
}
use kakoi.Paths.{FilePath, name_eq, starts_with}
use kakoi.Diagnostic.{Role}
use kakoi.Mounts.{
  path, expansion_path, ExpandedScan, ExpandedHideMounts, entry, entry_path, ExpandedPolicy,
  Variables, MountFacts, ResolvedItem, ResolvedMounts, traversed_links,
}
use kakoi.Placement.{
  WrittenPaths, derived_from_workspace, variable_of, writable_items, workspace_under_check,
}
use kakoi.Placement.Reference.{Reference, referenced_writable, root_items, link_inside_writable}
use kakoi.Placement.Reference.Laws.{IsWritable, In-writable_items}
use kakoi.Placement.Written.Laws.{link_inside_writable-none}
use kakoi.Placement.Origins.{
  Origin, origins, resolved_origin, is_anchored, check_redirection, check_origin, check_origins,
}

module _ (writable roots : List ResolvedItem) (workspace : Option FilePath)
    (facts : MountFacts) where
  is_anchored-true :
      (real : FilePath)
      → is_anchored writable roots workspace facts real ≡ true
      → ((root : ResolvedItem) × In root roots × (starts_with real root.real ≡ true))
        × ((w : ResolvedItem) × In w writable × (w.real ≡ real))
  unfolding is_anchored
  is_anchored-true real h =
      let (a, b) = &&-true (any (λ (root : ResolvedItem). starts_with real root.real) roots) _ h in
      let (w, m, e) = any-true (λ (w : ResolvedItem). w.real == real) writable b in
      (
        any-true (λ (root : ResolvedItem). starts_with real root.real) roots a,
        (w, m, eq_of w.real real e),
      )

  check_origin-links :
      (o : Origin) (given_path real link : FilePath) (w : ResolvedItem)
      → check_origin writable roots workspace facts o ≡ ok tt
      → resolved_origin facts o ≡ some (given_path, real)
      → In link (traversed_links facts given_path)
      → In w writable
      → starts_with link w.real ≡ false
  unfolding check_origin
  check_origin-links o given_path real link w h e l m =
      elim (Option-cases (link_inside_writable given_path writable facts)) [
        | inl free ↦ link_inside_writable-none given_path writable facts free l m
        | inr (held, q) ↦ absurd (ground arith)
      ]

  check_origin-anchored :
      (o : Origin) (given_path real : FilePath) (r : Reference)
      → check_origin writable roots workspace facts o ≡ ok tt
      → resolved_origin facts o ≡ some (given_path, real)
      → referenced_writable given_path
          (derived_from_workspace (variable_of o.form))
          workspace
          writable
          facts
        ≡ some r
      → is_anchored writable roots workspace facts real ≡ true
  unfolding check_origin check_redirection
  check_origin-anchored o given_path real r h e f =
      elim (Bool-cases (is_anchored writable roots workspace facts real)) [
        | inl anchored ↦ anchored
        | inr loose ↦ elim (Option-cases (link_inside_writable given_path writable facts)) [
          | inl free ↦ absurd (ground arith)
          | inr (held, q) ↦ absurd (ground arith)
        ]
      ]

-- The path of a scan `root` or of a `hide-mounts` `under`.
abbrev pub IsOriginPath : ExpandedPolicy → FilePath → Type 0
IsOriginPath expanded p =
    ((scan : ExpandedScan) × In scan expanded.scans × (scan.root ≡ path p))
    ⊎ ((hide : ExpandedHideMounts) × In hide expanded.hide_mounts × (hide.under ≡ path p))

abbrev scan_origin : ExpandedScan → Origin
scan_origin scan = record { role = Role.scan_root; form = scan.written; expansion = scan.root }

abbrev hide_origin : ExpandedHideMounts → Origin
hide_origin hide = record {
  role = Role.hide_mounts_under;
  form = hide.written;
  expansion = hide.under;
}

module _ (expanded : ExpandedPolicy) (before_generation : ResolvedMounts) (written : WrittenPaths)
    (variables : Variables) (current_dir : FilePath) (facts : MountFacts) where
  abbrev writable : List ResolvedItem
  writable = writable_items before_generation.items

  abbrev given : Option FilePath
  given = workspace_under_check written variables current_dir

  check_origins-ok :
      (o : Origin)
      → check_origins expanded before_generation written variables current_dir facts ≡ ok tt
      → In o (origins expanded)
      → check_origin writable (root_items written given writable facts) given facts o ≡ ok tt
  unfolding check_origins
  check_origins-ok o h m =
      for_each-ok (check_origin writable (root_items written given writable facts) given facts)
        (origins expanded) h m

  origins-path :
      (p real : FilePath)
      → IsOriginPath expanded p
      → entry_path (entry facts p) ≡ some real
      → (o : Origin) × In o (origins expanded) × (resolved_origin facts o ≡ some (p, real))
  unfolding origins resolved_origin expansion_path
  origins-path p real (inl (scan, m, h)) e = (
    scan_origin scan,
    In-append_left (map scan_origin expanded.scans) (map hide_origin expanded.hide_mounts)
        (In-map scan_origin expanded.scans m),
    rw (h, expansion_path, e) refl,
  )
  origins-path p real (inr (hide, m, h)) e = (
    hide_origin hide,
    In-append_right (map scan_origin expanded.scans) (map hide_origin expanded.hide_mounts)
        (In-map hide_origin expanded.hide_mounts m),
    rw (h, expansion_path, e) refl,
  )

  -- When `check_origins` accepts, the resolution of every scan root and of every `hide-mounts` `under`
  -- whose path resolves follows no symbolic link inside an `rw` or `rw-file` item in force.
  pub check_origins-links :
      (p real link : FilePath) (w : ResolvedItem)
      → check_origins expanded before_generation written variables current_dir facts ≡ ok tt
      → IsOriginPath expanded p
      → entry_path (entry facts p) ≡ some real
      → In link (traversed_links facts p)
      → In w before_generation.items
      → IsWritable w.directive
      → starts_with link w.real ≡ false
  check_origins-links p real link w h u e l i d =
      let (o, m, r) = origins-path p real u e in
      check_origin-links writable (root_items written given writable facts) given facts o p real
        link w (check_origins-ok o h m) r l (In-writable_items before_generation.items i d)

  -- When `check_origins` accepts, a scan root or `hide-mounts` `under` that resolves and whose
  -- resolution references a writable item is the mount point of a writable item and lies in a root item.
  check_origins-anchored :
      (o : Origin) (given_path real : FilePath) (r : Reference)
      → check_origins expanded before_generation written variables current_dir facts ≡ ok tt
      → In o (origins expanded)
      → resolved_origin facts o ≡ some (given_path, real)
      → referenced_writable given_path
          (derived_from_workspace (variable_of o.form))
          (workspace_under_check written variables current_dir)
          (writable_items before_generation.items)
          facts
        ≡ some r
      → ((root : ResolvedItem) × In root (
            root_items written
              (workspace_under_check written variables current_dir)
              (writable_items before_generation.items)
              facts)
          × (starts_with real root.real ≡ true))
        × ((w : ResolvedItem) × In w (writable_items before_generation.items) × (w.real ≡ real))
  check_origins-anchored o given_path real r h m e f =
      let roots : List ResolvedItem = root_items written given writable facts in
      is_anchored-true writable roots given facts real (
        check_origin-anchored writable roots given facts o given_path real r
          (check_origins-ok o h m) e f)
