-- ===== src/Placement/Check/Targets.antt =====
-- The guarantees of an accepting `check_placement` on where items stand.
use kakoi.Prelude.{
  ◌≡◌, ◌≢◌, List, [], ◌∷◌, true, false, ◌||◌, find, find-none, any-false, ok, In, Option-cases,
  Bool-cases, inl, inr, arith, ◌==◌, list_eq, eq_refl, ne_of, ||-false, In-select,
}
use kakoi.Paths.{FilePath, name_eq, starts_with, ancestors}
use kakoi.Paths.Prefixes.{In-ancestors}
use kakoi.Policy.{hide, directive_eq, writes_to_host}
use kakoi.Mounts.{Variables, MountFacts, ResolvedItem, ResolvedMounts}
use kakoi.Mounts.Covering.{covering_item, hidden}
use kakoi.Placement.{ProtectedPaths, WrittenPaths, writable_items}
use kakoi.Placement.Check.{
  dev, proc, is_fixed_target, check_fixed_targets, is_or_ancestor_of, check_width, check_work_place,
  check_current_dir, Warning, check_placement,
}
use kakoi.Placement.Check.Laws.{IsPlaced, check_placement-ok}

is_fixed_target-false :
    (real : FilePath)
    → is_fixed_target real ≡ false
    → (real ≢ []) × (starts_with real (dev ∷ []) ≡ false) × (starts_with real (proc ∷ []) ≡ false)
unfolding is_fixed_target
is_fixed_target-false real h =
    let (front, p) = ||-false (real == [] || starts_with real (dev ∷ [])) _ h in
    let (root, d) = ||-false (real == []) _ front in (ne_of real [] root, d, p)

check_fixed_targets-ok :
    (items : List ResolvedItem) {item : ResolvedItem}
    → check_fixed_targets items ≡ ok tt
    → In item items
    → is_fixed_target item.real ≡ false
unfolding check_fixed_targets
check_fixed_targets-ok items h m =
    elim (Option-cases (find (λ (i : ResolvedItem). is_fixed_target i.real) items)) [
      | inl e ↦ find-none (λ i. is_fixed_target i.real) items e m
      | inr (other, e) ↦ absurd (ground arith)
    ]

-- A place that is neither `/`, nor the path, nor above it is no prefix of it.
is_or_ancestor_of-false :
    (candidate path : FilePath)
    → is_or_ancestor_of candidate path ≡ false
    → starts_with path candidate ≡ false
unfolding is_or_ancestor_of
is_or_ancestor_of-false candidate path h = elim (Bool-cases (starts_with path candidate)) [
  | inr away ↦ away
  | inl over ↦
      let (root, none_same) = ||-false (candidate == []) _ h in
      cc (
        any-false (λ a. a == candidate) (ancestors path) none_same
            (In-ancestors path candidate over),
        eq_refl candidate,
      )
]

check_width-ok :
    (writable : List ResolvedItem) (home : FilePath) {item : ResolvedItem}
    → check_width writable home ≡ ok tt
    → In item writable
    → starts_with home item.real ≡ false
unfolding check_width
check_width-ok writable home {item} h m =
    elim (Option-cases (find (λ (i : ResolvedItem). is_or_ancestor_of i.real home) writable)) [
      | inl e ↦
          is_or_ancestor_of-false item.real home
            (find-none (λ i. is_or_ancestor_of i.real home) writable e m)
      | inr (other, e) ↦ absurd (ground arith)
    ]

check_work_place-ok :
    (variables : Variables) (home : FilePath)
    → check_work_place variables home ≡ ok tt
    → (starts_with home variables.worktree ≡ false) × (starts_with home variables.workspace ≡ false)
unfolding check_work_place
check_work_place-ok variables home h = (
  is_or_ancestor_of-false variables.worktree home (ground arith),
  is_or_ancestor_of-false variables.workspace home (ground arith),
)

check_current_dir-ok :
    (items : List ResolvedItem) (current_dir : FilePath)
    → check_current_dir items current_dir ≡ ok tt
    → hidden current_dir items ≡ false
unfolding check_current_dir hidden
check_current_dir-ok items current_dir h = elim (Option-cases (covering_item items current_dir)) [
  | inl e ↦ rw (e, hidden)
  | inr (item, e) ↦
      rw (e, hidden)
        (elim (Bool-cases (item.directive == hide)) [
          | inl same ↦ absurd (ground arith)
          | inr other ↦ other
        ])
]

module _ (resolved : ResolvedMounts) (protected : ProtectedPaths) (written : WrittenPaths)
    (variables : Variables) (home current_dir : FilePath) (facts : MountFacts)
    (warnings : List Warning) where
  -- When `check_placement` accepts, no item stands at `/`, nor at or under `/dev` or `/proc`, whatever
  -- its directive.
  pub check_placement-targets :
      (item : ResolvedItem)
      → check_placement resolved protected written variables home current_dir facts ≡ ok warnings
      → In item resolved.items
      → (item.real ≢ [])
        × (starts_with item.real (dev ∷ []) ≡ false)
        × (starts_with item.real (proc ∷ []) ≡ false)
  check_placement-targets item h m =
      let p : IsPlaced resolved protected written variables home current_dir facts =
        check_placement-ok resolved protected written variables home current_dir facts warnings h in
      is_fixed_target-false item.real (check_fixed_targets-ok resolved.items p.fixed m)

  -- When `check_placement` accepts, an item whose writes reach the host is neither `/`, nor the home
  -- directory, nor above it.
  pub check_placement-width :
      (item : ResolvedItem)
      → check_placement resolved protected written variables home current_dir facts ≡ ok warnings
      → In item resolved.items
      → writes_to_host item.directive ≡ true
      → starts_with home item.real ≡ false
  unfolding writable_items
  check_placement-width item h m w =
      let p : IsPlaced resolved protected written variables home current_dir facts =
        check_placement-ok resolved protected written variables home current_dir facts warnings h in
      check_width-ok (writable_items resolved.items) home p.narrow
        (In-select (λ (z : ResolvedItem). writes_to_host z.directive) resolved.items m w)

  -- When `check_placement` accepts, the worktree and the workspace are neither the home directory nor
  -- above it, and the current directory is not hidden.
  check_placement-work_place :
      check_placement resolved protected written variables home current_dir facts ≡ ok warnings
      → (starts_with home variables.worktree ≡ false)
        × (starts_with home variables.workspace ≡ false)
        × (hidden current_dir resolved.items ≡ false)
  check_placement-work_place h =
      let p : IsPlaced resolved protected written variables home current_dir facts =
        check_placement-ok resolved protected written variables home current_dir facts warnings h in
      let (a, b) = check_work_place-ok variables home p.work_place in
      (a, b, check_current_dir-ok resolved.items current_dir p.visible)
