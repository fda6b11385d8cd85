-- ===== src/Placement/Reference/Laws.antt =====
-- What a reference and a root item are, said without the functions that find them.
use kakoi.Prelude.{
  ◌≡◌, ◌≢◌, refl, ◌⊎◌, inl, inr, Option, none, some, List, Bool, true, false, Bool-cases,
  Option-cases, In, In-append_left, In-append_right, In-select, select-In, find-none, find_map-none,
  all-In, All, All-of, arith, ◌==◌, eq_of, list_eq, option_eq, eq_refl, ne_of, is_some, not, ◌&&◌,
  ◌++◌,
}
use kakoi.Paths.{FilePath, name_eq, starts_with}
use kakoi.Policy.{
  Directive, rw_dir, rw_file, rw_copy, ro, hide, writes_to_host, workspace, worktree,
  git_common_dir,
}
use kakoi.Mounts.{
  Variables, MountFacts, entry, entry_path, traversed_links, visited_directories, ResolvedItem,
}
use kakoi.Placement.{
  WrittenItem, WrittenPaths, inherits_from_workspace, derived_from_workspace, writable_items,
  workspace_under_check,
}
use kakoi.Placement.Reference.{
  Reference, holder, consulted_writable, inherited_writable, referenced_writable, writable_forms_of,
  is_root, root_items,
}

-- An item is writable on the host, or it is not.
abbrev pub IsWritable : Directive → Type 0
IsWritable d = (d ≡ rw_dir) ⊎ (d ≡ rw_file)

abbrev pub IsConfined : Directive → Type 0
IsConfined d = (d ≡ rw_copy) ⊎ ((d ≡ ro) ⊎ (d ≡ hide))

directive-cases : (d : Directive) → IsWritable d ⊎ IsConfined d
directive-cases rw_dir = inl (inl refl)
directive-cases rw_file = inl (inr refl)
directive-cases rw_copy = inr (inl refl)
directive-cases ro = inr (inr (inl refl))
directive-cases hide = inr (inr (inr refl))

IsWritable-writes : (d : Directive) → IsWritable d → writes_to_host d ≡ true
unfolding writes_to_host
IsWritable-writes d (inl e) = rw e refl
IsWritable-writes d (inr e) = rw e refl

writes-IsWritable : (d : Directive) → writes_to_host d ≡ true → IsWritable d
unfolding writes_to_host
writes-IsWritable rw_dir h = inl refl
writes-IsWritable rw_file h = inr refl
writes-IsWritable rw_copy h = cc
writes-IsWritable ro h = cc
writes-IsWritable hide h = cc

pub In-writable_items :
    {w : ResolvedItem} (items : List ResolvedItem)
    → In w items
    → IsWritable w.directive
    → In w (writable_items items)
unfolding writable_items
In-writable_items {w} items m h =
    In-select (λ i. writes_to_host i.directive) items m (IsWritable-writes w.directive h)

-- The resolution of `path` follows a link or visits a directory inside `item`.
abbrev pub Consults : MountFacts → FilePath → ResolvedItem → Type 0
Consults facts path item =
    (place : FilePath) × ((In place (traversed_links facts path))
      ⊎ (In place (visited_directories facts path)))
    × (starts_with place item.real ≡ true)

abbrev Inherits : WrittenItem → Type 0
Inherits form =
    (form.variable ≡ some workspace)
    ⊎ ((form.variable ≡ some worktree) ⊎ (form.variable ≡ some git_common_dir))

-- The resolution of a written item, or of the `--workspace` under check that it was expanded from,
-- consults a place inside `item`.
abbrev pub Refers :
    WrittenPaths → Variables → FilePath → MountFacts → WrittenItem → ResolvedItem → Type 0
Refers written variables current_dir facts form item =
    Consults facts form.path item
    ⊎ (Inherits form
        × ((given : FilePath) × (written.workspace ≡ some given)
            × (variables.workspace ≢ current_dir)
            × Consults facts given item))

consulted-some :
    (path : FilePath) (writable : List ResolvedItem) (facts : MountFacts) (w : ResolvedItem)
    → In w writable
    → Consults facts path w
    → (v : ResolvedItem) × (consulted_writable path writable facts ≡ some v)
unfolding consulted_writable holder
consulted-some path writable facts w m (place, side, s) =
    elim (Option-cases (consulted_writable path writable facts)) [
      | inr (v, e) ↦ (v, e)
      | inl e ↦
          let i : In place (traversed_links facts path ++ visited_directories facts path) =
            elim side [
              | inl l ↦
                  In-append_left (traversed_links facts path) (visited_directories facts path) l
              | inr d ↦
                  In-append_right (traversed_links facts path) (visited_directories facts path) d
            ] in
          let free : holder writable place ≡ none =
            find_map-none (holder writable)
              (traversed_links facts path ++ visited_directories facts path) e i in
          let out : starts_with place w.real ≡ false =
            find-none (λ (x : ResolvedItem). starts_with place x.real) writable free m in
          absurd (ground arith)
    ]

Inherits-true : (form : WrittenItem) → Inherits form → inherits_from_workspace form ≡ true
unfolding inherits_from_workspace derived_from_workspace
Inherits-true form (inl e) = rw e refl
Inherits-true form (inr (inl e)) = rw e refl
Inherits-true form (inr (inr e)) = rw e refl

workspace_under_check-given :
    (written : WrittenPaths) (variables : Variables) (current_dir : FilePath) {given : FilePath}
    → written.workspace ≡ some given
    → variables.workspace ≢ current_dir
    → workspace_under_check written variables current_dir ≡ some given
unfolding workspace_under_check
workspace_under_check-given written variables current_dir h n =
    elim (Bool-cases (variables.workspace == current_dir)) [
      | inl same ↦ absurd (n (eq_of variables.workspace current_dir same))
      | inr other ↦ rw (other, workspace_under_check) h
    ]

inherited-some :
    {b : Bool} {ws : Option FilePath} {given : FilePath} {v : ResolvedItem} (facts : MountFacts)
    (writable : List ResolvedItem)
    → b ≡ true
    → ws ≡ some given
    → consulted_writable given writable facts ≡ some v
    → inherited_writable b ws writable facts ≡ some (record { item = v; inherited = true })
unfolding inherited_writable
inherited-some {b} {ws} facts writable h u e = rw (h, u, inherited_writable, e) refl

-- A written item that refers to a writable item has a reference.
pub Refers-some :
    (written : WrittenPaths) (variables : Variables) (current_dir : FilePath) (facts : MountFacts)
    (writable : List ResolvedItem) (form : WrittenItem) (w : ResolvedItem)
    → In w writable
    → Refers written variables current_dir facts form w
    → (r : Reference) × (referenced_writable form.path
          (inherits_from_workspace form)
          (workspace_under_check written variables current_dir)
          writable
          facts
        ≡ some r)
unfolding referenced_writable
Refers-some written variables current_dir facts writable form w m (inl c) =
    let (v, e) = consulted-some form.path writable facts w m c in
    (record { item = v; inherited = false }, rw (e, referenced_writable) refl)
Refers-some written variables current_dir facts writable form w m (inr (i, (given, g, n, c))) =
    let (v, e) = consulted-some given writable facts w m c in
    let u = workspace_under_check-given written variables current_dir g n in
    let inh = Inherits-true form i in
    elim (Option-cases (consulted_writable form.path writable facts)) [
      | inr (own, q) ↦ (record { item = own; inherited = false }, rw (q, referenced_writable) refl)
      | inl q ↦ (
        record { item = v; inherited = true },
        rw (q, referenced_writable) (inherited-some facts writable inh u e),
      )
    ]

module _ (written : WrittenPaths) (in_force : List ResolvedItem) (variables : Variables)
    (current_dir : FilePath) (facts : MountFacts) where
  -- A written item that is not a writable form of `root`, or refers to no writable item in force.
  abbrev Spares : ResolvedItem → WrittenItem → Type 0
  Spares root form =
      IsConfined form.directive
      ⊎ ((entry_path (entry facts form.path) ≢ some root.real)
          ⊎ All
              (λ w. IsConfined w.directive ⊎ (¬ Refers written variables current_dir facts form w))
              in_force)

  -- A writable item in force, none of whose written writable forms refers to a writable item.
  pub record IsRootItem (root : ResolvedItem) : Type 0 where
    pub applies : In root in_force
    pub writable : IsWritable root.directive
    pub forms : All (Spares root) written.items

  abbrev roots : List ResolvedItem
  roots =
      root_items written (workspace_under_check written variables current_dir)
        (writable_items in_force) facts

  root_form-free :
      (root : ResolvedItem) (form : WrittenItem) (w : ResolvedItem)
      → In root roots
      → In form written.items
      → IsWritable form.directive
      → entry_path (entry facts form.path) ≡ some root.real
      → In w in_force
      → IsWritable w.directive
      → ¬ Refers written variables current_dir facts form w
  unfolding root_items is_root writable_forms_of
  root_form-free root form w m i d e j k refers =
      let ws : Option FilePath = workspace_under_check written variables current_dir in
      let (n, q) =
        select-In (is_root written ws (writable_items in_force) facts) (writable_items in_force)
          m in
      let (r, s) =
        Refers-some written variables current_dir facts (writable_items in_force) form w
          (In-writable_items in_force j k) refers in
      let free =
        all-In
          (λ (x : WrittenItem). not (
            is_some (
              referenced_writable x.path (inherits_from_workspace x) ws (writable_items in_force)
                facts)))
          (writable_forms_of root written facts) q
          (In-select
            (λ (x : WrittenItem).
              writes_to_host x.directive && (entry_path (entry facts x.path) == some root.real))
            written.items i
            (rw (IsWritable-writes form.directive d, e) (eq_refl (some root.real)))) in
      let bad = rw s at free in cc

  pub root_items-IsRootItem : (root : ResolvedItem) → In root roots → IsRootItem root
  unfolding root_items writable_items
  root_items-IsRootItem root m =
      let ws : Option FilePath = workspace_under_check written variables current_dir in
      let (n, q) =
        select-In (is_root written ws (writable_items in_force) facts) (writable_items in_force)
          m in
      let (i, d) = select-In (λ (x : ResolvedItem). writes_to_host x.directive) in_force n in
      record {
        applies = i;
        writable = writes-IsWritable root.directive d;
        forms = All-of (Spares root) written.items spares;
      }
    where
      free_of :
          (form : WrittenItem)
          → In form written.items
          → IsWritable form.directive
          → entry_path (entry facts form.path) ≡ some root.real
          → (w : ResolvedItem) → In w in_force
          → IsConfined w.directive ⊎ (¬ Refers written variables current_dir facts form w)
      free_of form i d e w j = elim (directive-cases w.directive) [
        | inr c ↦ inl c
        | inl k ↦ inr (root_form-free root form w m i d e j k)
      ]

      spares : (form : WrittenItem) → In form written.items → Spares root form
      spares form i = elim (directive-cases form.directive) [
        | inr c ↦ inl c
        | inl d ↦ elim (Bool-cases (entry_path (entry facts form.path) == some root.real)) [
          | inr other ↦
              inr (inl (ne_of (entry_path (entry facts form.path)) (some root.real) other))
          | inl same ↦ inr (
              inr (
                All-of
                  (λ w.
                    IsConfined w.directive ⊎ (¬ Refers written variables current_dir facts form w))
                  in_force
                  (free_of form i d
                    (eq_of (entry_path (entry facts form.path)) (some root.real) same))))
        ]
      ]
