-- ===== src/Placement/Check/Laws.antt =====
-- The guarantees of an accepting `check_placement`.
use kakoi.Prelude.{
  ◌⊎◌, ◌≡◌, some, List, true, false, ok, >>-eq-ok, In, inl, inr, list_eq, In-select,
}
use kakoi.Paths.{FilePath, name_eq, starts_with}
use kakoi.Policy.{directive_eq, writes_to_host}
use kakoi.Mounts.{Variables, MountFacts, entry, ResolvedItem, ResolvedMounts}
use kakoi.Mounts.Resolve.{identity}
use kakoi.Placement.{ProtectedPaths, WrittenPaths, writable_items, protected_list}
use kakoi.Placement.Protected.{check_protected_paths}
use kakoi.Placement.Protected.Prefixes.{ConsultsNothingIn}
use kakoi.Placement.Protected.Laws.{
  check_protected_paths_sound, config_dir_sound, shared_files_inside_sound,
}
use kakoi.Placement.Written.{check_written_paths}
use kakoi.Placement.Check.{
  check_fixed_targets, check_width, check_work_place, check_current_dir, Warning, check_placement,
}

module _ (resolved : ResolvedMounts) (protected : ProtectedPaths) (written : WrittenPaths)
    (variables : Variables) (home current_dir : FilePath) (facts : MountFacts) where
  abbrev Accepts : List Warning → Type 0
  Accepts warnings =
      check_placement resolved protected written variables home current_dir facts ≡ ok warnings

  -- The checks that an accepting run has passed.
  pub record IsPlaced : Type 0 where
    pub protects : check_protected_paths protected (writable_items resolved.items) facts ≡ ok tt
    pub lands : check_written_paths written resolved.items variables current_dir facts ≡ ok tt
    pub fixed : check_fixed_targets resolved.items ≡ ok tt
    pub narrow : check_width (writable_items resolved.items) home ≡ ok tt
    pub work_place : check_work_place variables home ≡ ok tt
    pub visible : check_current_dir resolved.items current_dir ≡ ok tt

  pub check_placement-ok : (warnings : List Warning) → Accepts warnings → IsPlaced
  unfolding check_placement
  check_placement-ok warnings h =
      let (a, h₁) =
        >>-eq-ok (check_protected_paths protected (writable_items resolved.items) facts) _ h in
      let (b, h₂) =
        >>-eq-ok (check_written_paths written resolved.items variables current_dir facts) _ h₁ in
      let (c, h₃) = >>-eq-ok (check_fixed_targets resolved.items) _ h₂ in
      let (d, h₄) = >>-eq-ok (check_width (writable_items resolved.items) home) _ h₃ in
      let (e, h₅) = >>-eq-ok (check_work_place variables home) _ h₄ in
      let (f, _) = >>-eq-ok (check_current_dir resolved.items current_dir) _ h₅ in
      record { protects = a; lands = b; fixed = c; narrow = d; work_place = e; visible = f }

  -- When `check_placement` accepts, nothing that resolving a protected path consults (a policy file, the
  -- configuration directory, a secret file, a `path-prepend` entry, the shared file place) lies inside an
  -- item whose writes reach the host: no existing prefix, no symbolic link and no directory on the way.
  pub check_placement-protects :
      (warnings : List Warning) (p : FilePath) (item : ResolvedItem)
      → check_placement resolved protected written variables home current_dir facts ≡ ok warnings
      → In p (protected_list protected)
      → In item resolved.items
      → writes_to_host item.directive ≡ true
      → ConsultsNothingIn facts p item
  unfolding writable_items
  check_placement-protects warnings p item h i m w =
      check_protected_paths_sound protected (writable_items resolved.items) facts item
        (check_placement-ok warnings h).protects
        (In-select (λ (z : ResolvedItem). writes_to_host z.directive) resolved.items m w) p i

  -- When `check_placement` accepts, no item whose writes reach the host lies in the configuration
  -- directory, nor in the shared file place where the launch uses one, by their written or real paths.
  pub check_placement-nothing_inside :
      (warnings : List Warning) (item : ResolvedItem) (place : FilePath)
      → check_placement resolved protected written variables home current_dir facts ≡ ok warnings
      → In item resolved.items
      → writes_to_host item.directive ≡ true
      → (place ≡ protected.config_dir) ⊎ (protected.shared_files ≡ some place)
      → (starts_with item.real (identity (entry facts place) place) ≡ false)
        × (starts_with item.real place ≡ false)
  unfolding writable_items
  check_placement-nothing_inside warnings item place h m w which =
      let p : IsPlaced = check_placement-ok warnings h in
      let mw = In-select (λ (z : ResolvedItem). writes_to_host z.directive) resolved.items m w in
      elim which [
        | inl e ↦
            rw e
              (config_dir_sound protected (writable_items resolved.items) facts item p.protects mw)
        | inr e ↦
            shared_files_inside_sound protected (writable_items resolved.items) facts item
              p.protects mw place e
      ]
