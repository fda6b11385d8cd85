-- ===== src/Mounts/Generate/Hidden.antt =====
-- The items that the secrets and `hide-mounts` generate are `hide` items, and none is left out.
use kakoi.Prelude.{
  ◌≡◌, refl, sym, subst, Option, none, some, List, [], ◌∷◌, true, In, here, there, All, Bool-cases,
  Option-cases, inl, inr, arith, In-append_left, In-append_right, filter_map-All, All-append,
}
use kakoi.Paths.{FilePath, name_eq}
use kakoi.Policy.{Text}
use kakoi.Mounts.{
  RealEntry, missing, directory, not_directory, Variables, Expansion, ExpandedHideMounts,
  ExpandedPolicy, Mount, MountFacts, entry, EntryKind, ItemOrigin, ResolvedItem, real_and_kind,
  expansion_path,
}
use kakoi.Mounts.Generate.{
  generated_hide, option_list, hide_mounts_loop, hidden_mounts, under_real, is_hidden_mount,
  secret_items, secret_hide, config_secrets_hide,
}
use kakoi.Mounts.Generate.Laws.{IsHide}

generated_hide-IsHide :
    (written : FilePath) (origin : ItemOrigin) (found : RealEntry) (g : ResolvedItem)
    → generated_hide written origin found ≡ some g
    → IsHide g
unfolding generated_hide real_and_kind
generated_hide-IsHide written origin missing g h = cc
generated_hide-IsHide written origin (directory r) g h = ground arith
generated_hide-IsHide written origin (not_directory r) g h = ground arith

pub generated_hide-All :
    (written : FilePath) (origin : ItemOrigin) (found : RealEntry)
    → All IsHide (option_list (generated_hide written origin found))
unfolding generated_hide real_and_kind
generated_hide-All written origin missing = tt
generated_hide-All written origin (directory r) = (refl, tt)
generated_hide-All written origin (not_directory r) = (refl, tt)

-- What exists is hidden at its real path.
pub generated_hide-some :
    (written : FilePath) (origin : ItemOrigin) (found : RealEntry) {real : FilePath}
    {kind : EntryKind}
    → real_and_kind found ≡ some (real, kind)
    → (g : ResolvedItem) × (generated_hide written origin found ≡ some g) × (g.real ≡ real)
unfolding generated_hide real_and_kind
generated_hide-some written origin missing h = cc
generated_hide-some written origin (directory r) h = (_, refl, ground arith)
generated_hide-some written origin (not_directory r) h = (_, refl, ground arith)

pub In-option_list {ℓ} : {A : Type ℓ} {o : Option A} {a : A} → o ≡ some a → In a (option_list o)
In-option_list {a} e = subst (λ z. In a (option_list z)) (sym e) (here refl)

secret_hide-IsHide :
    (facts : MountFacts) (s : Text × Expansion) (g : ResolvedItem)
    → secret_hide facts s ≡ some g
    → IsHide g
unfolding secret_hide
secret_hide-IsHide facts (name, expansion) g h = elim (Option-cases (expansion_path expansion)) [
  | inl e ↦ absurd (ground arith)
  | inr (p, e) ↦
      generated_hide-IsHide p (ItemOrigin.secret_file name) (entry facts p) g
        (rw (e, secret_hide) at h)
]

config_list-All :
    (facts : MountFacts) (dir : Option FilePath)
    → All IsHide (elim dir [ none ↦ [] | some d ↦ option_list (config_secrets_hide facts d) ])
unfolding config_secrets_hide
config_list-All facts none = tt
config_list-All facts (some d) = generated_hide-All _ ItemOrigin.config_secrets _

pub secret_items-All :
    (expanded : ExpandedPolicy) (variables : Variables) (facts : MountFacts)
    → All IsHide (secret_items expanded variables facts)
unfolding secret_items
secret_items-All expanded variables facts =
    All-append IsHide _ _
      (filter_map-All IsHide (secret_hide facts) expanded.secrets (secret_hide-IsHide facts))
      (config_list-All facts variables.config_dir)

hidden_mounts-All :
    (variables : Variables) (facts : MountFacts) (h : ExpandedHideMounts) (under : FilePath)
    (mounts : List Mount)
    → All IsHide (hidden_mounts variables facts h under mounts)
unfolding hidden_mounts
hidden_mounts-All variables facts h under [] = tt
hidden_mounts-All variables facts h under (m ∷ ms) =
    elim (Bool-cases (is_hidden_mount variables h under m)) [
      | inl e ↦ rw e (
          All-append IsHide (option_list _) _
            (generated_hide-All m.target ItemOrigin.hide_mounts (entry facts m.target))
            (hidden_mounts-All variables facts h under ms))
      | inr e ↦ rw e (hidden_mounts-All variables facts h under ms)
    ]

pub hide_mounts_loop-All :
    (variables : Variables) (facts : MountFacts) (hs : List ExpandedHideMounts)
    → All IsHide (hide_mounts_loop variables facts hs)
unfolding hide_mounts_loop
hide_mounts_loop-All variables facts [] = tt
hide_mounts_loop-All variables facts (h ∷ hs) = elim (Option-cases (under_real variables facts h)) [
  | inl e ↦ rw (e, hide_mounts_loop) (hide_mounts_loop-All variables facts hs)
  | inr (u, e) ↦
      rw (e, hide_mounts_loop)
        (All-append IsHide _ _ (hidden_mounts-All variables facts h u facts.mounts)
          (hide_mounts_loop-All variables facts hs))
]

In-hidden_mounts :
    (variables : Variables) (facts : MountFacts) (h : ExpandedHideMounts) (under : FilePath)
    {m : Mount} (mounts : List Mount) {real : FilePath} {kind : EntryKind}
    → In m mounts
    → is_hidden_mount variables h under m ≡ true
    → real_and_kind (entry facts m.target) ≡ some (real, kind)
    → (g : ResolvedItem) × In g (hidden_mounts variables facts h under mounts) × (g.real ≡ real)
unfolding hidden_mounts
In-hidden_mounts variables facts h under [] i e k = elim i [ ]
In-hidden_mounts variables facts h under {m} (x ∷ xs) {real} {kind} (here q) e k =
    let hx : is_hidden_mount variables h under x ≡ true =
      subst (λ z. is_hidden_mount variables h under z ≡ true) q e in
    let (g, eg, rg) =
      generated_hide-some x.target ItemOrigin.hide_mounts (entry facts x.target)
        (subst (λ (z : Mount). real_and_kind (entry facts z.target) ≡ some (real, kind)) q k) in
    (g, rw hx (In-append_left _ _ (In-option_list eg)), rg)
In-hidden_mounts variables facts h under (x ∷ xs) (there i) e k =
    let (g, mg, rg) = In-hidden_mounts variables facts h under xs i e k in
    (
      g,
      elim (Bool-cases (is_hidden_mount variables h under x)) [
        | inl c ↦ rw c (In-append_right _ _ mg)
        | inr c ↦ rw c mg
      ],
      rg,
    )

pub In-hide_mounts_loop :
    (variables : Variables) (facts : MountFacts) {h : ExpandedHideMounts} {under : FilePath}
    {m : Mount} (hs : List ExpandedHideMounts) {real : FilePath} {kind : EntryKind}
    → In h hs
    → under_real variables facts h ≡ some under
    → In m facts.mounts
    → is_hidden_mount variables h under m ≡ true
    → real_and_kind (entry facts m.target) ≡ some (real, kind)
    → (g : ResolvedItem) × In g (hide_mounts_loop variables facts hs) × (g.real ≡ real)
unfolding hide_mounts_loop
In-hide_mounts_loop variables facts [] ih u i e k = elim ih [ ]
In-hide_mounts_loop variables facts {h} {under} {m} (x ∷ xs) (here q) u i e k =
    let (g, mg, rg) =
      In-hidden_mounts variables facts x under facts.mounts i
        (subst (λ z. is_hidden_mount variables z under m ≡ true) q e) k in
    let ux : under_real variables facts x ≡ some under =
      subst (λ z. under_real variables facts z ≡ some under) q u in
    (g, rw (ux, hide_mounts_loop) (In-append_left _ _ mg), rg)
In-hide_mounts_loop variables facts (x ∷ xs) (there ih) u i e k =
    let (g, mg, rg) = In-hide_mounts_loop variables facts xs ih u i e k in
    (
      g,
      elim (Option-cases (under_real variables facts x)) [
        | inl c ↦ rw (c, hide_mounts_loop) mg
        | inr (v, c) ↦ rw (c, hide_mounts_loop) (In-append_right _ _ mg)
      ],
      rg,
    )
