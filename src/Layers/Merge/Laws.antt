-- ===== src/Layers/Merge/Laws.antt =====
-- crates/kakoi-policy/src/layers.rs: the loop of `merge` as a fold, for each field of the policy.
use mathlib.Core.List.{append_assoc, append-nil}
use kakoi.Prelude.{
  not, ◌&&◌, Option, none, some, List, [], ◌∷◌, ◌++◌, any, is_some, ok, ok_same, Result-cases,
  Bool-cases, ◌≡◌, refl, sym, ◌∙◌, ap, inl, inr,
}
use kakoi.Network.Limits.{NetworkLimits, apply}
use kakoi.Layers.{Layer, MergedPolicy, validate_grace}
use kakoi.Layers.Merge.{
  or_lower, writes_settings, first_policy, merged_with, merge_layer, merge_layers, check_merged,
  merge,
}

-- What one round did.
pub record Round (layer : Layer) (policy next : MergedPolicy) : Type 0 where
  pub limits : NetworkLimits
  pub grace : validate_grace layer.policy.process.shutdown_grace_seconds ≡ ok tt
  pub applied : apply layer.policy.network.limits policy.network_limits ≡ ok limits
  pub made : merged_with layer limits policy ≡ next

pub merge_layer-Round :
    (layer : Layer) (policy : MergedPolicy) {next : MergedPolicy}
    → merge_layer layer policy ≡ ok next
    → Round layer policy next
unfolding merge_layer
merge_layer-Round layer policy h =
    elim (Result-cases (validate_grace layer.policy.process.shutdown_grace_seconds)) [
      | inl (e, bad) ↦ absurd (cc (rw (bad, merge_layer) at h))
      | inr (u, good) ↦
          elim (Result-cases (apply layer.policy.network.limits policy.network_limits)) [
            | inl (e, bad) ↦ absurd (cc (rw (good, bad, merge_layer) at h))
            | inr (limits, fits) ↦ record {
              limits = limits;
              grace = good;
              applied = fits;
              made = ok_same (rw (good, fits, merge_layer) at h);
            }
          ]
    ]

-- The layers in order, the lowest first.
abbrev pub fold_layers {ℓ} : {A : Type ℓ} → (Layer → A → A) → List Layer → A → A
fold_layers step [] a = a
fold_layers step (layer ∷ layers) a = fold_layers step layers (step layer a)

-- A field that every round changes by `step` ends as the fold of `step`.
pub fold_field {ℓ} :
    {A : Type ℓ} (field : MergedPolicy → A) (step : Layer → A → A)
    → ((layer : Layer) (limits : NetworkLimits) (policy : MergedPolicy)
        → field (merged_with layer limits policy) ≡ step layer (field policy))
    → (layers : List Layer) (policy : MergedPolicy) {final : MergedPolicy}
    → merge_layers layers policy ≡ ok final
    → field final ≡ fold_layers step layers (field policy)
unfolding merge_layers
fold_field field step each [] policy h = ap field (sym (ok_same h))
fold_field field step each (layer ∷ layers) policy h =
    elim (Result-cases (merge_layer layer policy)) [
      | inl (e, bad) ↦ absurd (cc (rw (bad, merge_layers) at h))
      | inr (next, good) ↦
          let round = merge_layer-Round layer policy good in
          let now : field next ≡ step layer (field policy) =
            ap field (sym round.made) ∙ each layer round.limits policy in
          fold_field field step each layers next (rw (good, merge_layers) at h)
          ∙ ap (fold_layers step layers) now
    ]

-- What the last layer that writes a setting writes.
abbrev pub last_written {ℓ} : {A : Type ℓ} → (Layer → Option A) → List Layer → Option A
last_written f [] = none
last_written f (layer ∷ layers) = elim (last_written f layers) [ some a ↦ some a | none ↦ f layer ]

-- The lists of the layers, one after the other.
abbrev pub in_order {ℓ} : {A : Type ℓ} → (Layer → List A) → List Layer → List A
in_order f [] = []
in_order f (layer ∷ layers) = f layer ++ in_order f layers

-- The lists of the layers, the uppermost layer's first.
abbrev pub upper_first {ℓ} : {A : Type ℓ} → (Layer → List A) → List Layer → List A
upper_first f [] = []
upper_first f (layer ∷ layers) = upper_first f layers ++ f layer

or_lower_twice {ℓ} :
    {A : Type ℓ} (o p : Option A) (d : A)
    → or_lower o (or_lower p d) ≡ or_lower (elim o [ some a ↦ some a | none ↦ p ]) d
or_lower_twice none p d = refl
or_lower_twice (some a) p d = refl

pub fold_or_lower {ℓ} :
    {A : Type ℓ} (f : Layer → Option A) (layers : List Layer) (d : A)
    → fold_layers (λ layer a. or_lower (f layer) a) layers d ≡ or_lower (last_written f layers) d
fold_or_lower f [] d = refl
fold_or_lower f (layer ∷ layers) d =
    fold_or_lower f layers (or_lower (f layer) d)
    ∙ or_lower_twice (last_written f layers) (f layer) d

pub fold_append {ℓ} :
    {A : Type ℓ} (f : Layer → List A) (layers : List Layer) (xs : List A)
    → fold_layers (λ layer a. a ++ f layer) layers xs ≡ xs ++ in_order f layers
fold_append f [] xs = sym (append-nil xs)
fold_append f (layer ∷ layers) xs =
    fold_append f layers (xs ++ f layer) ∙ append_assoc xs (f layer) (in_order f layers)

pub fold_prepend {ℓ} :
    {A : Type ℓ} (f : Layer → List A) (layers : List Layer) (xs : List A)
    → fold_layers (λ layer a. f layer ++ a) layers xs ≡ upper_first f layers ++ xs
fold_prepend f [] xs = refl
fold_prepend f (layer ∷ layers) xs =
    fold_prepend f layers (f layer ++ xs) ∙ sym (append_assoc (upper_first f layers) (f layer) xs)

pub fold_same {ℓ} :
    {A : Type ℓ} (layers : List Layer) (a : A) → fold_layers (λ layer b. b) layers a ≡ a
fold_same [] a = refl
fold_same (layer ∷ layers) a = fold_same layers a

-- The loop and the checks behind an accepted merge.
pub merge_runs :
    (layers : List Layer) {policy : MergedPolicy}
    → merge layers ≡ ok policy
    → (merged : MergedPolicy) × (merge_layers layers (first_policy layers) ≡ ok merged)
      × (check_merged merged ≡ ok policy)
unfolding merge
merge_runs layers h =
    let settings = any (λ layer. writes_settings layer.policy) layers in
    let moded = any (λ layer. is_some layer.policy.network.mode) layers in
    elim (Bool-cases (settings && not moded)) [
      | inl lacks ↦ absurd (cc (rw (lacks, merge) at h))
      | inr fine ↦ elim (Result-cases (merge_layers layers (first_policy layers))) [
        | inl (e, bad) ↦ absurd (cc (rw (fine, bad, merge) at h))
        | inr (merged, good) ↦ (merged, good, rw (fine, good, merge) at h)
      ]
    ]
