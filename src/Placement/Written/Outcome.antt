-- ===== src/Placement/Written/Outcome.antt =====
-- The guarantees of an accepting `check_written_paths`, item by item.
use kakoi.Prelude.{
  refl, ◌⊎◌, inl, inr, ◌≡◌, sym, ◌∙◌, ap, subst, Option, some, List, [], true, false, Result, ok,
  >>-eq-ok, for_each, for_each-ok, In, In-sort_by,
}
use kakoi.Paths.{FilePath, starts_with}
use kakoi.Policy.{Directive, directive_beq, hide, directive_eq}
use kakoi.Diagnostic.{Diagnostic}
use kakoi.Mounts.{Variables, MountFacts, entry, entry_path, traversed_links, ResolvedItem}
use kakoi.Placement.{
  WrittenItem, WrittenPaths, inherits_from_workspace, writable_items, workspace_under_check,
}
use kakoi.Placement.Reference.{Reference, referenced_writable, root_items}
use kakoi.Placement.Written.{
  exposes, Partner, over_partner, Landed, landed_from, landed_le, landed_items, held_to_landing,
  check_landed, check_written_paths,
}
use kakoi.Placement.Reference.Laws.{
  IsWritable, In-writable_items, Refers, Refers-some, IsRootItem, root_items-IsRootItem,
}
use kakoi.Placement.Written.Partner.{
  MayReplace, exposes-MayReplace, IsInnermostOver, over_partner-innermost,
}
use kakoi.Placement.Written.Laws.{
  In-landed_from, landed-inside_root, landed-links, check_landed-ok, check_replacement-ok,
  exposing_partner-none, role, reference,
}

held : (d : Directive) → IsWritable d ⊎ (d ≡ hide) → held_to_landing d ≡ true
unfolding directive_beq
held d (inl (inl e)) = rw e refl
held d (inl (inr e)) = rw e refl
held d (inr e) = rw e refl

module _ (written : WrittenPaths) (in_force : List ResolvedItem) (variables : Variables)
    (current_dir : FilePath) (facts : MountFacts) where
  -- What the resolution of a written item references, as the check computes it.
  abbrev reference_of : WrittenItem → Option Reference
  reference_of item =
      referenced_writable item.path (inherits_from_workspace item)
        (workspace_under_check written variables current_dir) (writable_items in_force) facts

  abbrev pub roots_of : List ResolvedItem
  roots_of =
      root_items written (workspace_under_check written variables current_dir)
        (writable_items in_force) facts

  abbrev check_one : Landed → Result Diagnostic (Unit {0})
  check_one =
      check_landed in_force roots_of (workspace_under_check written variables current_dir) facts

  -- Every written item that resolves was checked.
  check_written_paths-ok :
      (item : WrittenItem) (real : FilePath)
      → check_written_paths written in_force variables current_dir facts ≡ ok tt
      → In item written.items
      → entry_path (entry facts item.path) ≡ some real
      → (l : Landed) × (check_one l ≡ ok tt) × (l.item ≡ item) × (l.real ≡ real)
  unfolding check_written_paths landed_items
  check_written_paths-ok item real h m e =
      let (a, b) = >>-eq-ok (for_each check_one (landed_items written facts)) _ h in
      let (l, i, p, q) = In-landed_from facts [] written.items m e in
      (
        l,
        for_each-ok check_one _ a (In-sort_by landed_le (landed_from facts [] written.items) i),
        p,
        q,
      )

  landing-root :
      (item : WrittenItem) (real : FilePath) (r : Reference)
      → check_written_paths written in_force variables current_dir facts ≡ ok tt
      → In item written.items
      → entry_path (entry facts item.path) ≡ some real
      → held_to_landing item.directive ≡ true
      → reference_of item ≡ some r
      → (root : ResolvedItem) × In root roots_of × (starts_with real root.real ≡ true)
  landing-root item real r h m e d f =
      let (l, run, p, q) = check_written_paths-ok item real h m e in
      let (root, i, s) =
        landed-inside_root in_force roots_of (workspace_under_check written variables current_dir)
          facts l run r (subst (λ (z : WrittenItem). held_to_landing z.directive ≡ true) (sym p) d)
          (subst (λ z. reference_of z ≡ some r) (sym p) f) in
      (root, i, subst (λ z. starts_with z root.real ≡ true) q s)

  -- When `check_written_paths` accepts, every written `rw`, `rw-file` or `hide` item that resolves, and
  -- whose resolution (or that of the `--workspace` under check it was expanded from) consults a place
  -- inside a writable item in force, lies inside a root item: a writable item in force none of whose
  -- written writable forms refers to a writable item in force in either way.
  pub check_written_paths-landing :
      (item : WrittenItem) (real : FilePath) (w : ResolvedItem)
      → check_written_paths written in_force variables current_dir facts ≡ ok tt
      → In item written.items
      → entry_path (entry facts item.path) ≡ some real
      → IsWritable item.directive ⊎ (item.directive ≡ hide)
      → In w in_force
      → IsWritable w.directive
      → Refers written variables current_dir facts item w
      → (root : ResolvedItem) × IsRootItem written in_force variables current_dir facts root
        × (starts_with real root.real ≡ true)
  check_written_paths-landing item real w h m e d i k refers =
      let (r, f) =
        Refers-some written variables current_dir facts (writable_items in_force) item w
          (In-writable_items in_force i k) refers in
      let (root, j, s) = landing-root item real r h m e (held item.directive d) f in
      (root, root_items-IsRootItem written in_force variables current_dir facts root j, s)

  -- When `check_written_paths` accepts, the resolution of a written `hide` item that resolves follows no
  -- symbolic link inside a writable item.
  check_written_paths-hide_links :
      (item : WrittenItem) (real link : FilePath) (w : ResolvedItem)
      → check_written_paths written in_force variables current_dir facts ≡ ok tt
      → In item written.items
      → entry_path (entry facts item.path) ≡ some real
      → item.directive ≡ hide
      → In link (traversed_links facts item.path)
      → In w (writable_items in_force)
      → starts_with link w.real ≡ false
  check_written_paths-hide_links item real link w h m e d i j =
      let (l, run, p, q) = check_written_paths-ok item real h m e in
      landed-links in_force roots_of (workspace_under_check written variables current_dir) facts l
        run link w (ap (λ (z : WrittenItem). z.directive) p ∙ d)
        (subst (λ (z : WrittenItem). In link (traversed_links facts z.path)) (sym p) i) j

  unexposed :
      (item : WrittenItem) (real : FilePath) (r : Reference) (partner : Partner)
      → check_written_paths written in_force variables current_dir facts ≡ ok tt
      → In item written.items
      → entry_path (entry facts item.path) ≡ some real
      → reference_of item ≡ some r
      → over_partner real in_force ≡ some partner
      → exposes item.directive partner.0 ≡ false
  unexposed item real r partner h m e f o =
      let (l, run, p, q) = check_written_paths-ok item real h m e in
      let ws : Option FilePath = workspace_under_check written variables current_dir in
      let free =
        check_replacement-ok (role in_force roots_of ws facts l run) l.item
          (reference in_force roots_of ws facts l run) l.real l.lower in_force facts
          (check_landed-ok in_force roots_of ws facts l run).replacement
          (subst (λ z. reference_of z ≡ some r) (sym p) f) in
      subst (λ (z : WrittenItem). exposes z.directive partner.0 ≡ false) p
        (exposing_partner-none l.item l.real l.lower in_force facts partner free
          (subst (λ z. over_partner z in_force ≡ some partner) (sym q) o))

  -- When `check_written_paths` accepts, a written item that resolves, and whose resolution (or that of
  -- the `--workspace` under check it was expanded from) consults a place inside a writable item in
  -- force, may replace what the innermost item in force over its place guards: the item is a `hide`, or
  -- the other is `rw` or `rw-file`, or both are `ro` or `rw-copy`.
  pub check_written_paths-exposes :
      (item : WrittenItem) (real : FilePath) (w other : ResolvedItem)
      → check_written_paths written in_force variables current_dir facts ≡ ok tt
      → In item written.items
      → entry_path (entry facts item.path) ≡ some real
      → In w in_force
      → IsWritable w.directive
      → Refers written variables current_dir facts item w
      → IsInnermostOver real in_force other
      → MayReplace item.directive other.directive
  check_written_paths-exposes item real w other h m e i k refers over =
      let (r, f) =
        Refers-some written variables current_dir facts (writable_items in_force) item w
          (In-writable_items in_force i k) refers in
      exposes-MayReplace item.directive other.directive (
        unexposed item real r (other.directive, other.written, other.real) h m e f
          (over_partner-innermost real in_force other over))
