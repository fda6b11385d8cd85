-- ===== src/Mounts/Resolve/Uppermost.antt =====
-- Which written item is in force at a place after `resolve_written`.
use kakoi.Prelude.{
  In-append_right, ◌≡◌, ◌≢◌, refl, sym, ◌∙◌, ap, subst, Option, none, some, List, [], ◌∷◌, ◌++◌,
  find, ◌==◌, list_eq, ok, In, here, there, All, In-sort_by, Bool-cases, Option-cases, inl, inr,
  arith, eq_of, All-In,
}
use kakoi.Paths.{FilePath, name_eq}
use kakoi.Policy.{LayerOrigin, origin_eq, Directive, directive_eq}
use kakoi.Mounts.{
  RealEntry, missing, directory, not_directory, entry_path, Expansion, path, valueless,
  ExpandedItem, ExpandedPolicy, MountFacts, entry, EntryKind, directory_kind, not_directory_kind,
  written_by, ResolvedItem, ResolvedMounts, real_and_kind,
}
use kakoi.Mounts.Resolve.{
  Candidate, Merging, identity, candidate, conflict, merge_item, merge_items, resolved_items,
  item_le, resolve_written,
}
use kakoi.Mounts.Resolve.Laws.{
  finish-ok, nothing_merged, place-All, place-In, place-keeps, identity-real,
}

-- The identity that a written item names, if it has a path.
unfoldable pub named : MountFacts → ExpandedItem → Option FilePath
named facts item = elim item.path [
  | valueless v ↦ none
  | path p ↦ some (identity (entry facts p) p)
]

-- A lookup of the file system answers with real paths: what it finds at a path it finds at the real path.
-- `look` is `real_entry` of crates/kakoi-linux/src/real_paths.rs, which asks for the canonical path.
abbrev pub IsCanonical : (FilePath → RealEntry) → Type 0
IsCanonical look =
    (p real : FilePath) (kind : EntryKind)
    → real_and_kind (look p) ≡ some (real, kind)
    → real_and_kind (look real) ≡ some (real, kind)

abbrev pub IsLookedUp : (FilePath → RealEntry) → MountFacts → Expansion → Type 0
IsLookedUp look facts (valueless v) = Unit
IsLookedUp look facts (path p) = entry facts p ≡ look p

-- The facts hold the answers of the lookup at the written items' paths; other paths, the real ones among
-- them, may be missing from the facts.
abbrev pub AreLookedUp : (FilePath → RealEntry) → MountFacts → List ExpandedItem → Type 0
AreLookedUp look facts items = All (λ (item : ExpandedItem). IsLookedUp look facts item.path) items

-- A candidate holds what the lookup answered.
abbrev pub IsAnswer : (FilePath → RealEntry) → Candidate → Type 0
IsAnswer look c = (q : FilePath) × (c.entry ≡ look q) × (c.key ≡ identity c.entry q)

merge_item-IsAnswer :
    (look : FilePath → RealEntry) (facts : MountFacts) (s : Merging) (item : ExpandedItem)
    → IsLookedUp look facts item.path
    → All (IsAnswer look) s.merged
    → All (IsAnswer look) (merge_item facts s item).merged
unfolding merge_item candidate
merge_item-IsAnswer look facts s item l h = by_path item.path refl l
  where
    by_path :
        (e : Expansion)
        → item.path ≡ e
        → IsLookedUp look facts e
        → All (IsAnswer look) (merge_item facts s item).merged
    by_path (valueless w) e l = rw (e, merge_item) h
    by_path (path p) e l =
        rw (e, merge_item)
          (place-All (IsAnswer look) (candidate facts item p) s.merged (p, l, refl) h)

merge_items-IsAnswer :
    (look : FilePath → RealEntry) (facts : MountFacts) (s : Merging) (items : List ExpandedItem)
    → AreLookedUp look facts items
    → All (IsAnswer look) s.merged
    → All (IsAnswer look) (merge_items facts s items).merged
unfolding merge_items
merge_items-IsAnswer look facts s [] l h = h
merge_items-IsAnswer look facts s (x ∷ xs) l h =
    merge_items-IsAnswer look facts (merge_item facts s x) xs l.1
      (merge_item-IsAnswer look facts s x l.0 h)

merge_items-append :
    (facts : MountFacts) (s : Merging) (xs ys : List ExpandedItem)
    → merge_items facts s (xs ++ ys) ≡ merge_items facts (merge_items facts s xs) ys
unfolding merge_items
merge_items-append facts s [] ys = refl
merge_items-append facts s (x ∷ xs) ys = merge_items-append facts (merge_item facts s x) xs ys

append-eq-nil {ℓ} : {A : Type ℓ} (xs ys : List A) → xs ++ ys ≡ [] → (xs ≡ []) × (ys ≡ [])
append-eq-nil [] ys h = (refl, h)
append-eq-nil (x ∷ xs) ys h = cc

merge_item-conflicts :
    (facts : MountFacts) (s : Merging) (item : ExpandedItem)
    → (merge_item facts s item).conflicts ≡ []
    → s.conflicts ≡ []
unfolding merge_item
merge_item-conflicts facts s item h = by_path item.path refl h
  where
    by_path :
        (e : Expansion)
        → item.path ≡ e
        → (merge_item facts s item).conflicts ≡ []
        → s.conflicts ≡ []
    by_path (valueless w) e h = rw (e, merge_item) at h
    by_path (path p) e h =
        (append-eq-nil s.conflicts (conflict (candidate facts item p) s.merged)
          (rw (e, merge_item) at h)).0

merge_items-conflicts :
    (facts : MountFacts) (s : Merging) (items : List ExpandedItem)
    → (merge_items facts s items).conflicts ≡ []
    → s.conflicts ≡ []
unfolding merge_items
merge_items-conflicts facts s [] h = h
merge_items-conflicts facts s (x ∷ xs) h =
    merge_item-conflicts facts s x (merge_items-conflicts facts (merge_item facts s x) xs h)

-- What the loop knows of a place.
abbrev Holds : FilePath → Directive → LayerOrigin → List Candidate → Type 0
Holds k d o cs = (c : Candidate) × In c cs × (c.key ≡ k) × (c.directive ≡ d) × (c.origin ≡ o)

conflict-free :
    (c x : Candidate) (xs : List Candidate)
    → conflict c xs ≡ []
    → find (λ z. z.key == c.key) xs ≡ some x
    → x.origin ≡ c.origin
    → x.directive ≡ c.directive
unfolding conflict
conflict-free c x xs h f o = elim (Bool-cases (x.directive == c.directive)) [
  | inl same ↦ eq_of x.directive c.directive same
  | inr differ ↦ absurd (ground (arith, origin_eq.beq_iff x.origin c.origin))
]

merge_item-Holds :
    (facts : MountFacts) (s : Merging) (item : ExpandedItem) (p : FilePath)
    → item.path ≡ path p
    → (merge_item facts s item).conflicts ≡ []
    → Holds (identity (entry facts p) p) item.directive item.origin (merge_item facts s item).merged
unfolding merge_item
merge_item-Holds facts s item p e h =
    let c : Candidate = candidate facts item p in
    let clean : conflict c s.merged ≡ [] =
      (append-eq-nil s.conflicts (conflict c s.merged) (rw (e, merge_item) at h)).1 in
    let (y, m, k, why) = place-In c s.merged in
    rw (e, merge_item)
      (
        y,
        m,
        k,
        elim why [
          | inl q ↦ ap (λ (z : Candidate). z.directive) q
          | inr (f, o) ↦ conflict-free c y s.merged clean f o
        ],
        elim why [ inl q ↦ ap (λ (z : Candidate). z.origin) q | inr (f, o) ↦ o ],
      )

merge_item-keeps :
    (facts : MountFacts) (s : Merging) (item : ExpandedItem) (k : FilePath) (d : Directive)
    (o : LayerOrigin)
    → Holds k d o s.merged
    → named facts item ≢ some k
    → Holds k d o (merge_item facts s item).merged
unfolding merge_item named
merge_item-keeps facts s item k d o (c, m, kc, dc, oc) away = by_path item.path refl
  where
    by_path : (e : Expansion) → item.path ≡ e → Holds k d o (merge_item facts s item).merged
    by_path (valueless w) e = rw (e, merge_item) (c, m, kc, dc, oc)
    by_path (path p) e =
        rw (e, merge_item)
          (
            c,
            place-keeps (candidate facts item p) s.merged m
                (λ q. away (rw (e, named) (ap some (sym q ∙ kc)))),
            kc,
            dc,
            oc,
          )

merge_items-keeps :
    (facts : MountFacts) (s : Merging) (items : List ExpandedItem) (k : FilePath) (d : Directive)
    (o : LayerOrigin)
    → Holds k d o s.merged
    → All (λ item. named facts item ≢ some k) items
    → Holds k d o (merge_items facts s items).merged
unfolding merge_items
merge_items-keeps facts s [] k d o h away = h
merge_items-keeps facts s (x ∷ xs) k d o h away =
    merge_items-keeps facts (merge_item facts s x) xs k d o
      (merge_item-keeps facts s x k d o h away.0) away.1

-- A candidate at a real path is what the lookup says is there.
pub candidate-entry :
    (look : FilePath → RealEntry) (c : Candidate) (p : FilePath) {real : FilePath}
    {kind : EntryKind}
    → IsCanonical look
    → IsAnswer look c
    → c.key ≡ real
    → real_and_kind (look p) ≡ some (real, kind)
    → real_and_kind c.entry ≡ some (real, kind)
unfolding identity entry_path real_and_kind
candidate-entry look c p {real} {kind} canonical (q, e, k) kr h = by_entry c.entry refl
  where
    at_real : real_and_kind (look real) ≡ some (real, kind)
    at_real = canonical p real kind h

    by_entry : (f : RealEntry) → c.entry ≡ f → real_and_kind c.entry ≡ some (real, kind)
    by_entry missing f =
        let same : q ≡ real = sym (rw (f, identity) at k) ∙ kr in
        cc (e, at_real, ap (λ z. real_and_kind (look z)) same)
    by_entry (directory r) f =
        let same : r ≡ real = sym (rw (f, identity) at k) ∙ kr in
        let own : real_and_kind (look r) ≡ some (r, directory_kind) =
          canonical q r directory_kind (ap real_and_kind (sym e ∙ f)) in
        cc (at_real, own, ap (λ z. real_and_kind (look z)) same, f)
    by_entry (not_directory r) f =
        let same : r ≡ real = sym (rw (f, identity) at k) ∙ kr in
        let own : real_and_kind (look r) ≡ some (r, not_directory_kind) =
          canonical q r not_directory_kind (ap real_and_kind (sym e ∙ f)) in
        cc (at_real, own, ap (λ z. real_and_kind (look z)) same, f)

abbrev applied : Candidate → FilePath → EntryKind → ResolvedItem
applied c real kind = record {
  directive = c.directive;
  real = real;
  kind = kind;
  origin = written_by c.origin;
  written = c.written;
}

In-resolved_items :
    (c : Candidate) (cs : List Candidate) {real : FilePath} {kind : EntryKind}
    → In c cs
    → real_and_kind c.entry ≡ some (real, kind)
    → In (applied c real kind) (resolved_items cs)
unfolding resolved_items
In-resolved_items c [] m h = elim m [ ]
In-resolved_items c (x ∷ xs) {real} {kind} (here e) h =
    let hx : real_and_kind x.entry ≡ some (real, kind) =
      subst (λ (z : Candidate). real_and_kind z.entry ≡ some (real, kind)) e h in
    rw (hx, resolved_items) (here (ap (λ z. applied z real kind) e))
In-resolved_items c (x ∷ xs) (there m) h = elim (Option-cases (real_and_kind x.entry)) [
  | inl e ↦ rw (e, resolved_items) (In-resolved_items c xs m h)
  | inr (y, e) ↦ rw (e, resolved_items) (there (In-resolved_items c xs m h))
]

-- When `resolve_written` succeeds on facts that hold what a lookup with canonical answers found at the
-- written items' paths, the last written item that names an existing real path decides the item applied
-- there: its directive and its layer. The items may name the place through symbolic links.
pub resolve_written-uppermost :
    (look : FilePath → RealEntry) (expanded : ExpandedPolicy) (facts : MountFacts)
    (before after : List ExpandedItem) (item : ExpandedItem) (p : FilePath) {real : FilePath}
    {kind : EntryKind} {r : ResolvedMounts}
    → IsCanonical look
    → AreLookedUp look facts expanded.mounts
    → expanded.mounts ≡ before ++ (item ∷ after)
    → item.path ≡ path p
    → real_and_kind (entry facts p) ≡ some (real, kind)
    → All (λ later. named facts later ≢ some real) after
    → resolve_written expanded facts ≡ ok r
    → (x : ResolvedItem) × In x r.items
      × (x.real ≡ real)
      × (x.kind ≡ kind)
      × (x.directive ≡ item.directive)
      × (x.origin ≡ written_by item.origin)
unfolding resolve_written
resolve_written-uppermost look expanded facts before after item p {real} {kind} {r} canonical looked
      e named_p h away run =
    let s : Merging = merge_items facts nothing_merged before in
    let t : Merging = merge_item facts s item in
    let u : Merging = merge_items facts t after in
    let whole : merge_items facts nothing_merged expanded.mounts ≡ u =
      rw e (merge_items-append facts nothing_merged before (item ∷ after)) in
    let (clean, sorted) = finish-ok u (rw whole at run) in
    let answers : All (IsAnswer look) u.merged =
      subst (λ (z : Merging). All (IsAnswer look) z.merged) whole
        (merge_items-IsAnswer look facts nothing_merged expanded.mounts looked tt) in
    let its : In item expanded.mounts =
      subst (In item) (sym e) (In-append_right before (item ∷ after) (here refl)) in
    let at_p : entry facts p ≡ look p =
      subst (IsLookedUp look facts) named_p
        (All-In (λ (i : ExpandedItem). IsLookedUp look facts i.path) expanded.mounts looked its) in
    let held : Holds real item.directive item.origin u.merged =
      merge_items-keeps facts t after real item.directive item.origin
        (subst (λ k. Holds k item.directive item.origin t.merged)
          (identity-real (entry facts p) p h)
          (merge_item-Holds facts s item p named_p (merge_items-conflicts facts t after clean)))
        away in
    let (c, m, kc, dc, oc) = held in
    let found : real_and_kind c.entry ≡ some (real, kind) =
      candidate-entry look c p canonical (All-In (IsAnswer look) u.merged answers m) kc
        (ap real_and_kind (sym at_p) ∙ h) in
    (
      applied c real kind,
      subst (λ l. In (applied c real kind) l) (sym sorted)
          (In-sort_by item_le (resolved_items u.merged) (In-resolved_items c u.merged m found)),
      refl,
      refl,
      dc,
      ap written_by oc,
    )
