-- ===== src/Mounts/Resolve/Topmost.antt =====
-- What the items of the topmost layer decide when they all have one directive.
use kakoi.Prelude.{
  In-append_right, ◌≡◌, ◌≢◌, refl, sym, ◌∙◌, ap, subst, some, List, [], ◌∷◌, ◌++◌, any, any-true,
  any-false, ◌==◌, list_eq, option_eq, eq_of, eq_refl, false, true, ok, In, here, there, All,
  All-of, All-In, Bool-cases, inl, inr,
}
use mathlib.Core.List.{append_assoc}
use kakoi.Paths.{FilePath, name_eq}
use kakoi.Policy.{LayerOrigin, Directive}
use kakoi.Mounts.{
  RealEntry, Expansion, path, valueless, ExpandedItem, ExpandedPolicy, MountFacts, entry, EntryKind,
  ResolvedItem, ResolvedMounts, real_and_kind, written_by,
}
use kakoi.Mounts.Resolve.{identity, candidate, resolve_written}
use kakoi.Mounts.Resolve.Laws.{identity-real}
use kakoi.Mounts.Resolve.Uppermost.{
  named, IsCanonical, IsLookedUp, AreLookedUp, candidate-entry, resolve_written-uppermost,
}

-- The last item of a list that names a place.
record LastNamed (facts : MountFacts) (real : FilePath) (items : List ExpandedItem) : Type 0 where
  before : List ExpandedItem
  after : List ExpandedItem
  last : ExpandedItem
  whole : items ≡ before ++ (last ∷ after)
  stands : In last items
  names : named facts last ≡ some real
  others : All (λ later. named facts later ≢ some real) after

last_named :
    (facts : MountFacts) (real : FilePath) (items : List ExpandedItem) {item : ExpandedItem}
    → In item items
    → named facts item ≡ some real
    → LastNamed facts real items
last_named facts real [] m n = elim m [ ]
last_named facts real (x ∷ xs) {item} m n =
    elim (Bool-cases (any (λ i. named facts i == some real) xs)) [
      | inl more ↦
          let (u, mu, same) = any-true (λ i. named facts i == some real) xs more in
          let rest = last_named facts real xs mu (eq_of (named facts u) (some real) same) in
          record {
            before = x ∷ rest.before;
            after = rest.after;
            last = rest.last;
            whole = ap (λ l. x ∷ l) rest.whole;
            stands = there rest.stands;
            names = rest.names;
            others = rest.others;
          }
      | inr done ↦ record {
        before = [];
        after = xs;
        last = x;
        whole = refl;
        stands = here refl;
        names = elim m [
          | here e ↦ subst (λ z. named facts z ≡ some real) e n
          | there later ↦ absurd (away done item later n)
        ];
        others = All-of _ xs (away done);
      }
    ]
  where
    away :
        any (λ i. named facts i == some real) xs ≡ false
        → (later : ExpandedItem) → In later xs
        → named facts later ≢ some real
    away done later ml q =
        let same : (named facts later == some real) ≡ true =
          subst (λ z. (z == some real) ≡ true) (sym q) (eq_refl (some real)) in
        let differs = any-false (λ i. named facts i == some real) xs done ml in cc (same, differs)

some_same : {a b : FilePath} → some a ≡ some b → a ≡ b
some_same q = cc q

-- A written item that names an existing real path has that path as its own.
named_path :
    (look : FilePath → RealEntry) (facts : MountFacts) (last : ExpandedItem) (p : FilePath)
    {real : FilePath} {kind : EntryKind}
    → IsCanonical look
    → IsLookedUp look facts last.path
    → real_and_kind (look p) ≡ some (real, kind)
    → named facts last ≡ some real
    → (q : FilePath) × (last.path ≡ path q) × (real_and_kind (entry facts q) ≡ some (real, kind))
unfolding named candidate
named_path look facts last p {real} {kind} canonical l h n = by_path last.path refl l
  where
    by_path :
        (e : Expansion)
        → last.path ≡ e
        → IsLookedUp look facts e
        → (q : FilePath) × (last.path ≡ path q)
          × (real_and_kind (entry facts q) ≡ some (real, kind))
    by_path (valueless v) e l = absurd (cc (rw (e, named) at n))
    by_path (path q) e l =
        let key : some (identity (entry facts q) q) ≡ some real = rw (e, named) at n in
        (
          q,
          e,
          candidate-entry look (candidate facts last q) p canonical (q, l, refl) (some_same key) h,
        )

-- When `resolve_written` succeeds on facts that hold what a lookup with canonical answers found at the
-- written items' paths, and the written items that come last are all of one layer and one directive, a real path that one of them names has an item of
-- that directive and that layer.
pub resolve_written-topmost :
    (look : FilePath → RealEntry) (expanded : ExpandedPolicy) (facts : MountFacts)
    (below top : List ExpandedItem) (directive : Directive) (origin : LayerOrigin)
    (item : ExpandedItem) (p : FilePath) {real : FilePath} {kind : EntryKind} {r : ResolvedMounts}
    → IsCanonical look
    → AreLookedUp look facts expanded.mounts
    → expanded.mounts ≡ below ++ top
    → All (λ i. (i.directive ≡ directive) × (i.origin ≡ origin)) top
    → In item top
    → item.path ≡ path p
    → real_and_kind (entry facts p) ≡ some (real, kind)
    → resolve_written expanded facts ≡ ok r
    → (x : ResolvedItem) × In x r.items
      × (x.real ≡ real)
      × (x.directive ≡ directive)
      × (x.origin ≡ written_by origin)
unfolding named
resolve_written-topmost look expanded facts below top directive origin item p {real} {kind}
      canonical looked e one m at h run =
    let n : named facts item ≡ some real =
      rw (at, named) (ap some (identity-real (entry facts p) p h)) in
    let looked_top : (i : ExpandedItem) → In i top → IsLookedUp look facts i.path = λ i mi.
      All-In (λ (z : ExpandedItem). IsLookedUp look facts z.path) expanded.mounts looked
        (subst (In i) (sym e) (In-append_right below top mi)) in
    let at_p : entry facts p ≡ look p = subst (IsLookedUp look facts) at (looked_top item m) in
    let split = last_named facts real top m n in
    let (q, own, found) =
      named_path look facts split.last p canonical (looked_top split.last split.stands)
        (ap real_and_kind (sym at_p) ∙ h) split.names in
    let whole : expanded.mounts ≡ (below ++ split.before) ++ (split.last ∷ split.after) =
      e
      ∙ ap (λ z. below ++ z) split.whole
      ∙ sym (append_assoc below split.before (split.last ∷ split.after)) in
    let (x, mx, same, kinds, d, o) =
      resolve_written-uppermost look expanded facts (below ++ split.before) split.after split.last q
        canonical looked whole own found split.others run in
    let (d1, o1) =
      All-In (λ i. (i.directive ≡ directive) × (i.origin ≡ origin)) top one split.stands in
    (x, mx, same, d ∙ d1, o ∙ ap written_by o1)
