-- ===== src/Mounts/Resolve/Laws.antt =====
-- What `resolve_written` guarantees: items in byte order, one for each real path, and the directive
-- of the uppermost layer that names a place.
use kakoi.Prelude.{
  ◌≡◌, ◌≢◌, refl, ◌∙◌, ap, subst, some, List, [], ◌∷◌, find, ◌==◌, list_eq, ok, sort_by, In, here,
  there, All, IsSorted, Distinct, sort_by-Distinct, ◌⊎◌, sort_by-IsSorted, Bool-cases, Option-cases,
  inl, inr, arith, eq_of, ne_of,
}
use kakoi.Paths.{FilePath, name_eq}
use kakoi.Paths.Order.{byte_le_total, byte_le_trans}
use kakoi.Policy.{origin_eq, directive_eq}
use kakoi.Diagnostic.{Diagnostic}
use kakoi.Mounts.{
  RealEntry, missing, directory, not_directory, Expansion, path, valueless, ExpandedItem,
  ExpandedPolicy, MountFacts, entry, EntryKind, ResolvedItem, ResolvedMounts, real_and_kind,
}
use kakoi.Mounts.Resolve.{
  Candidate, Merging, identity, candidate, place, merge_item, merge_items, resolved_items, item_le,
  finish, resolve_written,
}

abbrev pub item_real : ResolvedItem → FilePath
item_real item = item.real

pub IsSorted-sort_by-items : (items : List ResolvedItem) → IsSorted item_le (sort_by item_le items)
IsSorted-sort_by-items =
    sort_by-IsSorted item_le (λ a b. byte_le_total a.real b.real)
      (λ a b c. byte_le_trans a.real b.real c.real)

-- A candidate's identity is that of the path it was made from.
unfoldable pub FromFacts : MountFacts → Candidate → Type 0
FromFacts facts c = (p : FilePath) × (c.entry ≡ entry facts p) × (c.key ≡ identity c.entry p)

candidate-FromFacts :
    (facts : MountFacts) (item : ExpandedItem) (p : FilePath)
    → FromFacts facts (candidate facts item p)
unfolding FromFacts candidate
candidate-FromFacts facts item p = (p, refl, refl)

pub identity-real :
    (found : RealEntry) (p : FilePath) {real : FilePath} {kind : EntryKind}
    → real_and_kind found ≡ some (real, kind)
    → identity found p ≡ real
unfolding identity real_and_kind
identity-real missing p h = cc
identity-real (directory r) p h = ground arith
identity-real (not_directory r) p h = ground arith

pub place-All {ℓ} :
    (P : Candidate → Type ℓ) (c : Candidate) (xs : List Candidate)
    → P c
    → All P xs
    → All P (place c xs)
unfolding place
place-All P c [] h hs = (h, tt)
place-All P c (x ∷ xs) h hs = elim (Bool-cases (x.key == c.key)) [
  | inl same ↦ rw same (elim (Bool-cases (x.origin == c.origin)) [
    | inl own ↦ rw own hs
    | inr other ↦ rw other (h, hs.1)
  ])
  | inr differ ↦ rw differ (hs.0, place-All P c xs h hs.1)
]

abbrev candidate_key : Candidate → FilePath
candidate_key c = c.key

place-Distinct :
    (c : Candidate) (xs : List Candidate)
    → Distinct candidate_key xs
    → Distinct candidate_key (place c xs)
unfolding place
place-Distinct c [] d = (tt, tt)
place-Distinct c (x ∷ xs) d = elim (Bool-cases (x.key == c.key)) [
  | inl same ↦ rw same (elim (Bool-cases (x.origin == c.origin)) [
    | inl own ↦ rw own d
    | inr other ↦
        rw other
          (subst (λ k. All (λ (y : Candidate). k ≢ y.key) xs) (eq_of x.key c.key same) d.0, d.1)
  ])
  | inr differ ↦
      rw differ (
        place-All (λ y. x.key ≢ y.key) c xs (ne_of x.key c.key differ) d.0,
        place-Distinct c xs d.1,
      )
]

-- After a placement a candidate of the identity stands there: the placed one, or the first one of
-- the same layer that stood there.
pub place-In :
    (c : Candidate) (xs : List Candidate)
    → (y : Candidate) × In y (place c xs)
      × (y.key ≡ c.key)
      × ((y ≡ c) ⊎ ((find (λ x. x.key == c.key) xs ≡ some y) × (y.origin ≡ c.origin)))
unfolding place find
place-In c [] = (c, here refl, refl, inl refl)
place-In c (x ∷ xs) = elim (Bool-cases (x.key == c.key)) [
  | inl same ↦ elim (Bool-cases (x.origin == c.origin)) [
    | inl own ↦ (
      x,
      rw (same, own) (here refl),
      eq_of x.key c.key same,
      inr (rw same refl, eq_of x.origin c.origin own),
    )
    | inr other ↦ (c, rw (same, other) (here refl), refl, inl refl)
  ]
  | inr differ ↦
      let (y, m, k, why) = place-In c xs in
      (y, rw differ (there m), k, elim why [ inl e ↦ inl e | inr (f, o) ↦ inr (rw differ f, o) ])
]

pub place-keeps :
    (c : Candidate) {y : Candidate} (xs : List Candidate)
    → In y xs
    → y.key ≢ c.key
    → In y (place c xs)
unfolding place
place-keeps c [] m h = elim m [ ]
place-keeps c {y} (x ∷ xs) m h = elim (Bool-cases (x.key == c.key)) [
  | inl same ↦ elim m [
    | here e ↦ absurd (h (ap candidate_key e ∙ eq_of x.key c.key same))
    | there m' ↦ rw same (there m')
  ]
  | inr differ ↦ rw differ (elim m [ here e ↦ here e | there m' ↦ there (place-keeps c xs m' h) ])
]

-- The invariant of the loop.
pub record IsMerging (facts : MountFacts) (s : Merging) : Type 0 where
  pub distinct : Distinct (λ (c : Candidate). c.key) s.merged
  pub sources : All (FromFacts facts) s.merged

pub merge_item-IsMerging :
    (facts : MountFacts) (s : Merging) (item : ExpandedItem)
    → IsMerging facts s
    → IsMerging facts (merge_item facts s item)
unfolding merge_item
merge_item-IsMerging facts s item v = by_path item.path refl
  where
    by_path : (e : Expansion) → item.path ≡ e → IsMerging facts (merge_item facts s item)
    by_path (valueless w) e =
        rw (e, merge_item) (record { distinct = v.distinct; sources = v.sources })
    by_path (path p) e =
        rw (e, merge_item)
          (record {
            distinct = place-Distinct (candidate facts item p) s.merged v.distinct;
            sources =
                place-All (FromFacts facts) (candidate facts item p) s.merged
                  (candidate-FromFacts facts item p) v.sources;
          })

pub merge_items-IsMerging :
    (facts : MountFacts) (s : Merging) (items : List ExpandedItem)
    → IsMerging facts s
    → IsMerging facts (merge_items facts s items)
unfolding merge_items
merge_items-IsMerging facts s [] v = v
merge_items-IsMerging facts s (item ∷ items) v =
    merge_items-IsMerging facts (merge_item facts s item) items
      (merge_item-IsMerging facts s item v)

-- A candidate that exists is applied at its identity.
FromFacts-real :
    (facts : MountFacts) (c : Candidate) {real : FilePath} {kind : EntryKind}
    → FromFacts facts c
    → real_and_kind c.entry ≡ some (real, kind)
    → c.key ≡ real
unfolding FromFacts
FromFacts-real facts c (p, e, k) h = k ∙ identity-real c.entry p h

resolved_items-All {ℓ} :
    (P : FilePath → Type ℓ) (facts : MountFacts) (cs : List Candidate)
    → All (FromFacts facts) cs
    → All (λ (c : Candidate). P c.key) cs
    → All (λ (r : ResolvedItem). P r.real) (resolved_items cs)
unfolding resolved_items
resolved_items-All P facts [] v h = tt
resolved_items-All P facts (c ∷ cs) v h = elim (Option-cases (real_and_kind c.entry)) [
  | inl e ↦ rw (e, resolved_items) (resolved_items-All P facts cs v.1 h.1)
  | inr ((real, kind), e) ↦
      rw (e, resolved_items)
        (subst P (FromFacts-real facts c v.0 e) h.0, resolved_items-All P facts cs v.1 h.1)
]

resolved_items-Distinct :
    (facts : MountFacts) (cs : List Candidate)
    → All (FromFacts facts) cs
    → Distinct (λ (c : Candidate). c.key) cs
    → Distinct item_real (resolved_items cs)
unfolding resolved_items
resolved_items-Distinct facts [] v d = tt
resolved_items-Distinct facts (c ∷ cs) v d = elim (Option-cases (real_and_kind c.entry)) [
  | inl e ↦ rw (e, resolved_items) (resolved_items-Distinct facts cs v.1 d.1)
  | inr ((real, kind), e) ↦
      rw (e, resolved_items)
        (
          resolved_items-All (λ k. real ≢ k) facts cs v.1
              (subst (λ z. All (λ (y : Candidate). z ≢ y.key) cs) (FromFacts-real facts c v.0 e)
                d.0),
          resolved_items-Distinct facts cs v.1 d.1,
        )
]

abbrev pub nothing_merged : Merging
nothing_merged = record { merged = []; conflicts = []; skipped = [] }

-- On success there was no conflict, and the items are the sorted ones.
pub finish-ok :
    (s : Merging) {r : ResolvedMounts}
    → finish s ≡ ok r
    → (s.conflicts ≡ []) × (r.items ≡ sort_by item_le (resolved_items s.merged))
unfolding finish
finish-ok s h = by_conflicts s.conflicts refl h
  where
    by_conflicts :
        (cs : List (FilePath × Diagnostic))
        → s.conflicts ≡ cs
        → {r : ResolvedMounts} → finish s ≡ ok r
        → (s.conflicts ≡ []) × (r.items ≡ sort_by item_le (resolved_items s.merged))
    by_conflicts [] e h = (e, ground arith)
    by_conflicts (c ∷ cs) e h = absurd (ground arith)

-- When `resolve_written` succeeds, its items are in byte order of their real paths and no two of
-- them stand at the same real path.
pub resolve_written-ordered :
    (expanded : ExpandedPolicy) (facts : MountFacts) {r : ResolvedMounts}
    → resolve_written expanded facts ≡ ok r
    → IsSorted item_le r.items × Distinct item_real r.items
unfolding resolve_written
resolve_written-ordered expanded facts {r} h =
    let s : Merging = merge_items facts nothing_merged expanded.mounts in
    let v : IsMerging facts s =
      merge_items-IsMerging facts nothing_merged expanded.mounts
        (record { distinct = tt; sources = tt }) in
    let e = (finish-ok s h).1 in
    rw e (
      IsSorted-sort_by-items (resolved_items s.merged),
      sort_by-Distinct item_le item_real (resolved_items s.merged)
          (resolved_items-Distinct facts s.merged v.sources v.distinct),
    )
