-- ===== src/Mounts/Generate/Laws.antt =====
-- Putting the generated items among the written ones: the places stay distinct, and each generated
-- `hide` is in force at its place.
use kakoi.Prelude.{
  ◌≡◌, ◌≢◌, sym, ◌∙◌, ap, subst, List, [], ◌∷◌, true, ◌==◌, list_eq, In, here, there, All, All-In,
  Distinct, sort_by, sort_by-Distinct, In-sort_by, Bool-cases, inl, inr, eq_of, ne_of, refl,
}
use kakoi.Paths.{FilePath, name_eq}
use kakoi.Policy.{hide}
use kakoi.Mounts.{ResolvedItem}
use kakoi.Mounts.Covering.{hidden, hidden-at}
use kakoi.Mounts.Resolve.{item_le}
use kakoi.Mounts.Resolve.Laws.{item_real, IsSorted-sort_by-items}
use kakoi.Mounts.Generate.{put_item, put_items, merged_items}

abbrev pub IsHide : ResolvedItem → Type 0
IsHide item = item.directive ≡ hide

put_item-All {ℓ} :
    (P : ResolvedItem → Type ℓ) (g : ResolvedItem) (xs : List ResolvedItem)
    → P g
    → All P xs
    → All P (put_item g xs)
unfolding put_item
put_item-All P g [] h hs = (h, tt)
put_item-All P g (x ∷ xs) h hs = elim (Bool-cases (x.real == g.real)) [
  | inl same ↦ rw same (h, hs.1)
  | inr differ ↦ rw differ (hs.0, put_item-All P g xs h hs.1)
]

put_item-Distinct :
    (g : ResolvedItem) (xs : List ResolvedItem)
    → Distinct item_real xs
    → Distinct item_real (put_item g xs)
unfolding put_item
put_item-Distinct g [] d = (tt, tt)
put_item-Distinct g (x ∷ xs) d = elim (Bool-cases (x.real == g.real)) [
  | inl same ↦
      rw same
        (subst (λ k. All (λ (y : ResolvedItem). k ≢ y.real) xs) (eq_of x.real g.real same) d.0, d.1)
  | inr differ ↦ rw differ (
    put_item-All (λ y. x.real ≢ y.real) g xs (ne_of x.real g.real differ) d.0,
    put_item-Distinct g xs d.1,
  )
]

put_items-Distinct :
    (items gs : List ResolvedItem)
    → Distinct item_real items
    → Distinct item_real (put_items items gs)
unfolding put_items
put_items-Distinct items [] d = d
put_items-Distinct items (g ∷ gs) d =
    put_items-Distinct (put_item g items) gs (put_item-Distinct g items d)

-- A `hide` stands at a place.
abbrev HideAt : FilePath → List ResolvedItem → Type 0
HideAt real items = (x : ResolvedItem) × In x items × (x.real ≡ real) × IsHide x

put_item-In : (g : ResolvedItem) (xs : List ResolvedItem) → In g (put_item g xs)
unfolding put_item
put_item-In g [] = here refl
put_item-In g (x ∷ xs) = elim (Bool-cases (x.real == g.real)) [
  | inl same ↦ rw same (here refl)
  | inr differ ↦ rw differ (there (put_item-In g xs))
]

put_item-HideAt :
    (real : FilePath) (g : ResolvedItem) (xs : List ResolvedItem)
    → IsHide g
    → HideAt real xs
    → HideAt real (put_item g xs)
unfolding put_item
put_item-HideAt real g [] h (y, m, q, k) = elim m [ ]
put_item-HideAt real g (x ∷ xs) h (y, m, q, k) = elim (Bool-cases (x.real == g.real)) [
  | inl same ↦ rw same (elim m [
    | here e ↦ (g, here refl, sym (eq_of x.real g.real same) ∙ ap item_real (sym e) ∙ q, h)
    | there m' ↦ (y, there m', q, k)
  ])
  | inr differ ↦ rw differ (elim m [
    | here e ↦ (y, here e, q, k)
    | there m' ↦
        let (z, mz, qz, kz) = put_item-HideAt real g xs h (y, m', q, k) in (z, there mz, qz, kz)
  ])
]

put_items-HideAt :
    (real : FilePath) (items gs : List ResolvedItem)
    → All IsHide gs
    → HideAt real items
    → HideAt real (put_items items gs)
unfolding put_items
put_items-HideAt real items [] h k = k
put_items-HideAt real items (g ∷ gs) h k =
    put_items-HideAt real (put_item g items) gs h.1 (put_item-HideAt real g items h.0 k)

-- Every generated item leaves a `hide` at its place.
put_items-generated :
    (items gs : List ResolvedItem) {g : ResolvedItem}
    → All IsHide gs
    → In g gs
    → HideAt g.real (put_items items gs)
unfolding put_items
put_items-generated items [] h m = elim m [ ]
put_items-generated items (x ∷ gs) {g} h (here e) =
    put_items-HideAt g.real (put_item x items) gs h.1
      (x, put_item-In x items, ap item_real (sym e), h.0)
put_items-generated items (x ∷ gs) h (there m) = put_items-generated (put_item x items) gs h.1 m

Distinct-unique :
    (xs : List ResolvedItem) {x y : ResolvedItem}
    → Distinct item_real xs
    → In x xs
    → In y xs
    → x.real ≡ y.real
    → x ≡ y
Distinct-unique [] d m n e = elim m [ ]
Distinct-unique (z ∷ zs) d (here p) (here q) e = p ∙ sym q
Distinct-unique (z ∷ zs) d (here p) (there n) e =
    absurd (All-In (λ w. z.real ≢ w.real) zs d.0 n (ap item_real (sym p) ∙ e))
Distinct-unique (z ∷ zs) d (there m) (here q) e =
    absurd (All-In (λ w. z.real ≢ w.real) zs d.0 m (ap item_real (sym q) ∙ sym e))
Distinct-unique (z ∷ zs) d (there m) (there n) e = Distinct-unique zs d.1 m n e

-- A `hide` that stands at a place among all the items is in force there.
in_force :
    (real : FilePath) (items gs : List ResolvedItem)
    → Distinct item_real items
    → HideAt real (put_items items gs)
    → hidden real (merged_items items gs) ≡ true
unfolding merged_items
in_force real items gs d (x, m, q, k) =
    let all : List ResolvedItem = put_items items gs in
    let dist : Distinct item_real (sort_by item_le all) =
      sort_by-Distinct item_le item_real all (put_items-Distinct items gs d) in
    let mx : In x (sort_by item_le all) = In-sort_by item_le all m in
    subst (λ z. hidden z (sort_by item_le all) ≡ true) q
      (hidden-at (sort_by item_le all) (IsSorted-sort_by-items all) mx
        (λ item mi e. ap (λ (z : ResolvedItem). z.directive) (Distinct-unique _ dist mi mx e) ∙ k))

-- After the merge the place of every generated item is hidden.
pub merged_items-hidden :
    (items gs : List ResolvedItem) {g : ResolvedItem}
    → Distinct item_real items
    → All IsHide gs
    → In g gs
    → hidden g.real (merged_items items gs) ≡ true
merged_items-hidden items gs {g} d h m =
    in_force g.real items gs d (put_items-generated items gs h m)

-- The place of a written `hide` stays hidden.
pub merged_items-keeps_hidden :
    (items gs : List ResolvedItem) {x : ResolvedItem}
    → Distinct item_real items
    → All IsHide gs
    → In x items
    → IsHide x
    → hidden x.real (merged_items items gs) ≡ true
merged_items-keeps_hidden items gs {x} d h m k =
    in_force x.real items gs d (put_items-HideAt x.real items gs h (x, m, refl, k))
